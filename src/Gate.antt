-- ===== src/Gate.antt =====
-- skynet/service-src/service_gate.c: the gate, which cuts the bytes of its connections into messages.
-- What it sends to other parts of the program is a list of actions; what it only logs is left out.
-- `none` as a result is a failed assertion or a fault in the buffers.
pub mod Buffer
pub mod Ids
pub mod Stream
pub mod Socket
pub mod Ctrl
mod Tests
use Prim.Native.Nat.{bit_or}
use crynet.Prelude.{
  ℕ, zero, suc, ◌+◌, ◌-◌, ◌*◌, ◌%◌, ◌^◌, Bool, true, false, Option, none, some, ltb, leb, ◌==◌,
  if◌then◌else◌, update, List, [], ◌∷◌, ◌++◌, length, take, drop, ◌>>=◌,
}
use crynet.Prelude.Int.{ℤ, pos, negsuc}
use crynet.Gate.Buffer.{Databuffer, MessagePool}
use crynet.Gate.Buffer
use crynet.Gate.Ids.{Hashid}
use crynet.Gate.Ids

-- `struct connection`; an id of -1 is `none`.
pub record Connection : Type 0 where
  pub id : Option ℕ
  pub agent : ℕ
  pub client : ℕ
  pub remote_name : List ℕ
  pub buffer : Databuffer

-- `struct gate` less its context; a listening id of -1 is `none`.
pub record Gate : Type 0 where
  pub listen_id : Option ℕ
  pub watchdog : ℕ
  pub broker : ℕ
  pub client_tag : ℕ
  pub header_size : ℕ
  pub max_connection : ℕ
  pub hash : Hashid
  pub conn : ℕ → Connection
  pub mp : MessagePool

pub data Action : Type 0 where
  -- `skynet_send`: source, destination, type, session and bytes
  send : ℕ → ℕ → ℕ → ℕ → List ℕ → Action
  -- `skynet_socket_close`, `skynet_socket_start`
  close : ℕ → Action
  start : ℕ → Action
  -- `skynet_socket_send`
  write : ℕ → List ℕ → Action

abbrev pub ptype_text : ℕ
ptype_text = 0

abbrev pub ptype_tag_dontcopy : ℕ
ptype_tag_dontcopy = 0x10000

abbrev pub with_conn : Gate → ℕ → Connection → Gate
with_conn g i c = record g { conn = update g.conn i c }

abbrev pub fd_of : Connection → ℕ
fd_of c = elim (c.id) [ none ↦ 0 | some fd ↦ fd ]

-- What `_forward` and the loop of `dispatch_message` leave.
abbrev pub Result : Type 0
Result = Option (List Action × Connection × MessagePool)

-- A message of `size` bytes is read, and sent as `act` says.
abbrev pub deliver : Connection → MessagePool → ℕ → (List ℕ → Action) → Result
deliver c mp size act = Buffer.read c.buffer mp size >>= λ (bytes, db, mp').
    some (act bytes ∷ [], record c { buffer = db }, mp')

-- Actions that come before those of a result.
abbrev pub after : List Action → Result → Result
after acts r = r >>= λ (more, c, mp). some (acts ++ more, c, mp)

-- `data_line` gives the text that `snprintf` makes of "%d data " and an id.
module _ (data_line : ℕ → List ℕ) where
  -- `_forward`: to the broker, else to the agent, else to the watchdog. An id that is not positive, or
  -- no receiver, and nothing is read.
  unfoldable pub forward : Gate → Connection → MessagePool → ℕ → Result
  forward g c mp size =
      let fd = fd_of c in
      let tag = bit_or g.client_tag ptype_tag_dontcopy in
      let text = bit_or ptype_text ptype_tag_dontcopy in
      if fd == 0
      then some ([], c, mp)
      else if ltb 0 g.broker
      then deliver c mp size (λ bytes. send 0 g.broker tag fd bytes)
      else if ltb 0 c.agent
      then deliver c mp size (λ bytes. send c.client c.agent tag fd bytes)
      else if ltb 0 g.watchdog
      then deliver c mp size (λ bytes. send 0 g.watchdog text fd (data_line fd ++ bytes))
      else some ([], c, mp)

  -- The loop of `dispatch_message`, on fuel, for the connection of the socket `id`.
  pub dispatch_loop : ℕ → Gate → Connection → ℕ → MessagePool → Result
  dispatch_loop zero g c id mp = none
  dispatch_loop (suc fuel) g c id mp =
      Buffer.readheader c.buffer mp g.header_size >>= λ (size, db, mp').
      let c' = record c { buffer = db } in
      elim size [
        | negsuc _ ↦ some ([], c', mp')
        | pos zero ↦ dispatch_loop fuel g c' id mp'
        | pos (suc n) ↦
            if leb 0x1000000 (suc n)
            then (let (db', mp'') = Buffer.clear db mp' in
                some (close id ∷ [], record c { buffer = db' }, mp''))
            else (forward g c' mp' (suc n) >>= λ (acts, c'', mp'').
                after acts
                  (dispatch_loop fuel g (record c'' { buffer = Buffer.reset c''.buffer }) id mp''))
      ]

  -- `dispatch_message`. Each round but the first reads a header, so as many rounds as there are bytes
  -- and two more are enough.
  pub dispatch_message : Gate → Connection → ℕ → MessagePool → List ℕ → Result
  dispatch_message g c id mp bytes =
      let (db, mp') = Buffer.push c.buffer mp bytes in
      dispatch_loop (db.size + 2) g (record c { buffer = db }) id mp'
