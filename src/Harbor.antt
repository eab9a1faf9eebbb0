-- ===== src/Harbor.antt =====
-- skynet/service-src/service_harbor.c: the queues of messages to other nodes, and the headers that
-- messages have between nodes.
pub mod Ring
pub mod Header
pub mod Remote
mod Tests
use Prim.Native.Nat.{bit_and, bit_or}
use crynet.Prelude.{
  ℕ, zero, suc, ◌+◌, ◌-◌, ◌*◌, ◌/◌, ◌%◌, ◌^◌, List, [], ◌∷◌, ◌++◌, Option, none, some, ◌==◌,
  if◌then◌else◌, get_or, set, replicate, take, drop, length, ltb,
}
use crynet.Queue.{copy_ring}

-- `struct remote_message_header`
pub record RemoteHeader : Type 0 where
  pub source : ℕ
  pub destination : ℕ
  pub session : ℕ

-- `struct harbor_msg`: the bytes of the buffer are its `size`.
pub record HarborMsg : Type 0 where
  pub header : RemoteHeader
  pub buffer : List ℕ

-- `struct harbor_msg_queue`. Cells that malloc leaves unset are `none`.
pub record HarborMsgQueue : Type 0 where
  pub size : ℕ
  pub head : ℕ
  pub tail : ℕ
  pub cells : List (Option HarborMsg)

abbrev pub default_queue_size : ℕ
default_queue_size = 1024

-- `new_queue`
pub new_queue : HarborMsgQueue
new_queue = record {
  size = default_queue_size;
  head = 0;
  tail = 0;
  cells = replicate default_queue_size none;
}

-- The case of `push_queue_msg` in which one cell is free: the cells are copied to twice as many. The
-- loop is that of `expand_queue`, with one round less.
pub expand : HarborMsgQueue → HarborMsgQueue
unfolding copy_ring
expand q = record {
  size = q.size * 2;
  head = 0;
  tail = q.size - 1;
  cells = copy_ring (q.size - 1) 0 q.cells q.head q.size (replicate (q.size * 2) none);
}

-- `push_queue_msg`
pub push_queue_msg : HarborMsgQueue → HarborMsg → HarborMsgQueue
push_queue_msg q m =
    let r = if (q.tail + 1) % q.size == q.head then expand q else q in
    record r { cells = set r.cells r.tail (some m); tail = (r.tail + 1) % r.size }

-- `push_queue`
pub push_queue : HarborMsgQueue → List ℕ → RemoteHeader → HarborMsgQueue
push_queue q buffer header = push_queue_msg q (record { header = header; buffer = buffer })

-- `pop_queue`
pub pop_queue : HarborMsgQueue → Option HarborMsg × HarborMsgQueue
pop_queue q =
    if q.head == q.tail
    then (none, q)
    else (get_or q.cells q.head none, record q { head = (q.head + 1) % q.size })

-- `to_bigendian`: the four bytes that it writes.
pub to_bigendian : ℕ → List ℕ
to_bigendian n =
    bit_and (n / 2 ^ 24) 0xff
    ∷ bit_and (n / 2 ^ 16) 0xff
    ∷ bit_and (n / 2 ^ 8) 0xff
    ∷ bit_and n 0xff
    ∷ []

-- `header_to_message`
pub header_to_message : RemoteHeader → List ℕ
header_to_message h = to_bigendian h.source ++ to_bigendian h.destination ++ to_bigendian h.session

-- `from_bigendian`, of a number that stands in memory as these four bytes.
pub from_bigendian : List ℕ → ℕ
from_bigendian (a ∷ b ∷ c ∷ d ∷ []) =
    bit_or (bit_or (bit_or (a * 2 ^ 24) (b * 2 ^ 16)) (c * 2 ^ 8)) d
from_bigendian _ = 0

-- `message_to_header`, of the bytes from the header on.
pub message_to_header : List ℕ → RemoteHeader
message_to_header bytes = record {
  source = from_bigendian (take 4 bytes);
  destination = from_bigendian (take 4 (drop 4 bytes));
  session = from_bigendian (take 4 (drop 8 bytes));
}

abbrev pub header_cookie_length : ℕ
header_cookie_length = 12

-- The bytes that `send_remote` gives to the socket, for a message that is not too large: the length of
-- what follows, the message, and the header behind it.
pub send_remote : List ℕ → RemoteHeader → Option (List ℕ)
send_remote buffer cookie =
    let sz_header = length buffer + header_cookie_length in
    if ltb (2 ^ 32 - 1) sz_header
    then none
    else some (to_bigendian sz_header ++ buffer ++ header_to_message cookie)

-- The case `STATUS_HEADER` of `push_socket_data`, for the four bytes of a length: a first byte that is
-- not 0 closes the connection.
unfoldable pub read_length : List ℕ → Option ℕ
read_length size =
    if get_or size 0 0 == 0
    then some
        (bit_or (bit_or (get_or size 1 0 * 2 ^ 16) (get_or size 2 0 * 2 ^ 8)) (get_or size 3 0))
    else none

-- The start of `forward_local_messsage`: a message is its bytes and the header behind them. Fewer bytes
-- than a header has are a read before the buffer.
pub split_message : List ℕ → Option HarborMsg
split_message bytes =
    if ltb (length bytes) header_cookie_length
    then none
    else some (record {
      header = message_to_header (drop (length bytes - header_cookie_length) bytes);
      buffer = take (length bytes - header_cookie_length) bytes;
    })
