-- ===== src/Harbor/Remote.antt =====
-- The connections to other nodes in skynet/service-src/service_harbor.c, less the message that is partly
-- read from one: what is sent to a handle, and the queue of a node that is not connected yet.
pub mod Waiting
pub mod Named
pub mod Frames
pub mod Table
use Prim.Native.Nat.{bit_and, bit_or}
use crynet.Prelude.{
  leb, ℕ, zero, suc, ◌-◌, ◌*◌, ◌/◌, ◌%◌, ◌^◌, List, [], ◌∷◌, ◌++◌, Option, none, some, ◌==◌,
  if◌then◌else◌, Bool, true, false, ◌||◌, update,
}
use crynet.Handle.{handle_mask, handle_remote_shift}
use crynet.Gate.{ptype_tag_dontcopy}
use crynet.Harbor.{
  RemoteHeader, HarborMsg, HarborMsgQueue, new_queue, push_queue, pop_queue, send_remote,
}

-- The states of a connection, `STATUS_WAIT` to `STATUS_DOWN`.
pub data Status : Type 0 where
  wait : Status
  handshake : Status
  header : Status
  content : Status
  down : Status

pub is_handshake : Status → Bool
is_handshake handshake = true
is_handshake _ = false

unfoldable pub is_down : Status → Bool
is_down down = true
is_down _ = false

-- `struct slave`, less the message that is partly read.
pub record Slave : Type 0 where
  pub fd : ℕ
  pub queue : Option HarborMsgQueue
  pub status : Status

-- `struct harbor`, less the map of names.
pub record Harbor : Type 0 where
  pub id : ℕ
  pub slave : ℕ
  pub s : ℕ → Slave

-- What the harbor asks of the other parts: `skynet_send`, `skynet_socket_sendbuffer`,
-- `skynet_socket_close` and `skynet_socket_start`.
pub data HarborAction : Type 0 where
  send : (source destination type session : ℕ) (bytes : List ℕ) → HarborAction
  send_socket : (fd : ℕ) (bytes : List ℕ) → HarborAction
  close_socket : (fd : ℕ) → HarborAction
  start_socket : (fd : ℕ) → HarborAction

abbrev pub remote_max : ℕ
remote_max = 256

abbrev pub ptype_error : ℕ
ptype_error = 7

pub with_slave : Harbor → ℕ → Slave → Harbor
with_slave h i s = record h { s = update h.s i s }

-- What `send_remote` does: a message that is too large is dropped.
pub written : ℕ → List ℕ → RemoteHeader → List HarborAction
written fd msg cookie = elim (send_remote msg cookie) [
  | none ↦ []
  | some bytes ↦ send_socket fd bytes ∷ []
]

-- `close_harbor`
pub close_harbor : Harbor → ℕ → List HarborAction × Harbor
close_harbor h i =
    let s = h.s i in
    let closed = with_slave h i (record s { status = down; fd = 0; queue = none }) in
    (if s.fd == 0 then [] else close_socket s.fd ∷ [], closed)

-- The messages that `while ((m = pop_queue(queue)) != NULL)` meets, on fuel.
pub drain : ℕ → HarborMsgQueue → List HarborMsg
drain zero q = []
drain (suc n) q =
    let rest = drain n (pop_queue q).1 in elim (pop_queue q).0 [ none ↦ [] | some m ↦ m ∷ rest ]

pub write_all : ℕ → List HarborMsg → List HarborAction
write_all fd [] = []
write_all fd (m ∷ ms) = written fd m.buffer m.header ++ write_all fd ms

-- `dispatch_queue`, where `none` is the assertion. A queue of `size` cells has fewer messages.
pub dispatch_queue : Harbor → ℕ → Option (List HarborAction × Harbor)
dispatch_queue h i =
    let s = h.s i in
    if s.fd == 0 then none else elim s.queue [
      | none ↦ some ([], h)
      | some q ↦ some (write_all s.fd (drain q.size q), with_slave h i (record s { queue = none }))
    ]

-- The header of a message to a handle: the number of the node makes room for the type.
pub header_of : ℕ → ℕ → ℕ → ℕ → RemoteHeader
header_of source destination type session = record {
  source = source;
  destination = bit_or (type * 2 ^ handle_remote_shift) (bit_and destination handle_mask);
  session = session % 2 ^ 32;
}

-- `remote_send_handle`: whether the harbor keeps the message, and what it does.
pub remote_send_handle : Harbor → ℕ → ℕ → ℕ → ℕ → List ℕ → Bool × List HarborAction × Harbor
remote_send_handle h source destination type session msg =
    let i = destination / 2 ^ handle_remote_shift in
    let s = h.s i in
    let cookie = header_of source destination type session in
    let kept : HarborMsgQueue = elim s.queue [ none ↦ new_queue | some q ↦ q ] in
    if i == h.id
    then (true, send source destination (bit_or type ptype_tag_dontcopy) session msg ∷ [], h)
    else if s.fd == 0 || is_handshake s.status
    then (if is_down s.status
        then (false, send destination source ptype_error session [] ∷ [], h)
        else (true, [], with_slave h i (record s { queue = some (push_queue kept msg cookie) })))
    else (false, written s.fd msg cookie, h)

-- `handshake`: the number of this node, in one byte.
pub handshake_of : Harbor → ℕ → List HarborAction
handshake_of h i = send_socket (h.s i).fd (h.id % 2 ^ 8 ∷ []) ∷ []

-- The cases `S` and `A` of `harbor_command`, for the numbers that `sscanf` reads: whether the node has
-- yet to say its number. Numbers that cannot be, and a node that is connected, change nothing.
pub connect_command : Bool → Harbor → ℕ → ℕ → Option (List HarborAction × Harbor)
connect_command awaits h fd i =
    let start = record (h.s i) { fd = fd } in
    let shaken = with_slave h i (record start { status = handshake }) in
    let ready = with_slave h i (record start { status = header }) in
    let greet = start_socket fd ∷ handshake_of ready i in
    if fd == 0 || i == 0 || leb remote_max i
    then some ([], h)
    else if (h.s i).fd == 0
    then (if awaits then some (greet, shaken) else elim (dispatch_queue ready i) [
      | none ↦ none
      | some out ↦ some (greet ++ out.0, out.1)
    ])
    else some ([], h)
