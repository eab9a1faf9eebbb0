-- ===== src/Gate/Socket.antt =====
-- The gate's part of skynet/service-src/service_gate.c that handles what its sockets report.
pub mod Inv
use Prim.Native.Nat.{bit_and}
use crynet.Prelude.{
  ℕ, zero, suc, ◌+◌, ◌-◌, ◌≤◌, ◌<◌, ◌≡◌, List, [], ◌∷◌, ◌++◌, Option, some, none, Bool, true, false,
  ltb, leb, ◌==◌, if◌then◌else◌, length, take, ◌>>=◌, update,
}
use crynet.Gate.{Gate, Connection, Action, send, close, dispatch_message, with_conn, ptype_text}
use crynet.Gate.Buffer.{MessagePool, empty, empty_pool}
use crynet.Gate.Buffer
use crynet.Gate.Ids.{Hashid}
use crynet.Gate.Ids

-- `struct skynet_socket_message`, by its type. The numbers are `id` and, of `accept`, `ud`; the bytes
-- are the `ud` bytes at `buffer`, or the text behind the message.
pub data SocketMessage : Type 0 where
  received : ℕ → List ℕ → SocketMessage
  connected : ℕ → SocketMessage
  closed : ℕ → SocketMessage
  accepted : ℕ → ℕ → List ℕ → SocketMessage
  failed : ℕ → SocketMessage
  warned : ℕ → ℕ → SocketMessage

-- `gate_create`, and what `gate_init` sets from its parameters before it listens. `memset` makes each
-- connection, and its id -1.
abbrev pub no_connection : Connection
no_connection = record { id = none; agent = 0; client = 0; remote_name = []; buffer = empty }

unfoldable pub init : ℕ → ℕ → ℕ → ℕ → Gate
init watchdog client_tag header_size max = record {
  listen_id = none;
  watchdog = watchdog;
  broker = 0;
  client_tag = client_tag;
  header_size = header_size;
  max_connection = max;
  hash = Ids.init max;
  conn = λ _. no_connection;
  mp = empty_pool;
}

abbrev pub same_id : Option ℕ → ℕ → Bool
same_id none id = false
same_id (some j) id = j == id

abbrev pub remote_name_size : ℕ
remote_name_size = 32

-- The lines are what `snprintf` and `vsnprintf` make of their formats: "%d data ", "%d close", and
-- "%d open %d %s:0".
module _ (data_line close_line : ℕ → List ℕ) (open_line : ℕ → List ℕ → List ℕ) where
  -- `_report`
  pub report : Gate → List ℕ → List Action
  report g text = if g.watchdog == 0 then [] else send 0 g.watchdog ptype_text 0 text ∷ []

  -- The cases of `dispatch_socket_message`.
  pub on_data : Gate → ℕ → List ℕ → Option (List Action × Gate)
  on_data g id bytes = elim (Ids.lookup g.hash id) [
    | none ↦ some (close id ∷ [], g)
    | some i ↦ dispatch_message data_line g (g.conn i) id g.mp bytes >>= λ (acts, c, mp).
        some (acts, record (with_conn g i c) { mp = mp })
  ]

  pub on_connect : Gate → ℕ → List Action × Gate
  on_connect g id =
      let unknown : List Action = elim (Ids.lookup g.hash id) [
        | none ↦ close id ∷ []
        | some i ↦ []
      ] in
      if same_id g.listen_id id then ([], g) else (unknown, g)

  pub on_close : Gate → ℕ → List Action × Gate
  on_close g id =
      let (found, hash) = Ids.remove g.hash id in
      elim found [
        | none ↦ ([], record g { hash = hash })
        | some i ↦
            let (db, mp) = Buffer.clear (g.conn i).buffer g.mp in
            (
              report g (close_line id) ++ close id ∷ [],
              record (with_conn g i no_connection) { hash = hash; mp = mp },
            )
      ]

  pub on_accept : Gate → ℕ → ℕ → List ℕ → Option (List Action × Gate)
  on_accept g id ud text =
      let admitted : Option (List Action × Gate) = Ids.insert g.hash ud >>= λ (i, hash).
      let name =
        (if leb remote_name_size (length text) then take (remote_name_size - 1) text else text) in
      some (
        report g (open_line ud name),
        record (with_conn g i (record (g.conn i) { id = some ud; remote_name = name })) {
          hash = hash;
        },
      ) in
      if same_id g.listen_id id
      then (if Ids.full g.hash then some (close ud ∷ [], g) else admitted)
      else none

  -- `dispatch_socket_message`
  pub dispatch_socket_message : Gate → SocketMessage → Option (List Action × Gate)
  unfolding on_data on_connect on_close on_accept
  dispatch_socket_message g (received id bytes) = on_data g id bytes
  dispatch_socket_message g (connected id) = some (on_connect g id)
  dispatch_socket_message g (closed id) = some (on_close g id)
  dispatch_socket_message g (accepted id ud text) = on_accept g id ud text
  dispatch_socket_message g (failed id) = some (on_close g id)
  dispatch_socket_message g (warned id ud) = some ([], g)
