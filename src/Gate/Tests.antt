-- ===== src/Gate/Tests.antt =====
-- Runs of the gate, and the theorems at concrete inputs.
use crynet.Prelude.{
  ℕ, ◌+◌, ◌≡◌, refl, Option, none, some, List, [], ◌∷◌, ◌++◌, arith, ◌>>=◌, inl, inr, update,
  flatten, ◌⊎◌,
}
use crynet.Prelude.Int.{pos, negsuc}
use mathlib.Core.Option.{none-ne-some}
use crynet.Gate.{Gate, Connection, dispatch_message}
use crynet.Gate.Buffer.{Databuffer, MessagePool, empty, empty_pool, push}
use crynet.Gate.Buffer.Read.{IsValid, contents, Reads, read-Reads}
use crynet.Gate.Buffer.Push.{Pushes, push-Pushes}
use crynet.Gate.Buffer.Header.{IsHeaderSize}
use crynet.Gate.Ids.{Hashid, lookup, insert, remove}
use crynet.Gate.Ids
use crynet.Gate.Ids.Insert.{insert-Inserted, Inserted, linked_node, linked_node-IsValid}
use crynet.Gate.Ids.Remove.{remove-Removed, Removed}
use crynet.Gate.Ids.Valid
use crynet.Gate.Stream.Receive.{receive_all, receive_all-stream, Received, HasReceiver}
use crynet.Gate.Stream.Faults.{receive_all_stuck}
use crynet.Gate.Stream.Total.{dispatch_message-Ends, Ends}
use crynet.Gate.Socket.{init, no_connection, dispatch_socket_message, accepted}
use crynet.Gate.Socket.Inv
use crynet.Gate.Socket.Inv.{Handled, IsStray, dispatch_socket_message-Handled, init-IsValid}

abbrev line : ℕ → List ℕ
line n = b'd' ∷ n ∷ b' ' ∷ []

-- A gate whose watchdog has the handle 9, with headers of two bytes.
abbrev gate : Gate
gate = record (init 9 3 2 4) { listen_id = some 1 }

abbrev conn : Connection
conn = record no_connection { id = some 5 }

abbrev two_messages : List (List ℕ)
two_messages = (97 ∷ 98 ∷ 99 ∷ []) ∷ [] ∷ (100 ∷ []) ∷ []

-- The same bytes in three chunks: within a header, and within a message.
abbrev three_chunks : List (List ℕ)
three_chunks = (0 ∷ []) ∷ (3 ∷ 97 ∷ 98 ∷ []) ∷ (99 ∷ 0 ∷ 0 ∷ 0 ∷ 1 ∷ 100 ∷ []) ∷ []

conn-HasReceiver : HasReceiver gate conn
unfolding init
conn-HasReceiver = (omega arith, inr (inr (omega arith)))

gate-IsHeaderSize : IsHeaderSize gate.header_size
unfolding init
gate-IsHeaderSize = inl refl

receive_all-stream_example :
    Received line gate conn 5 conn-HasReceiver gate-IsHeaderSize empty empty_pool three_chunks
      two_messages
unfolding init
receive_all-stream_example =
    receive_all-stream line gate conn 5 conn-HasReceiver gate-IsHeaderSize empty_pool three_chunks
      two_messages (omega arith) refl

-- Five bytes in two chunks, of which one is read.
abbrev db : Databuffer
db = record {
  header = pos 0;
  offset = 1;
  size = 4;
  chunks =
      record { cell = 0; buffer = 1 ∷ 2 ∷ [] } ∷ record { cell = 1; buffer = 3 ∷ 4 ∷ 5 ∷ [] } ∷ [];
}

db-IsValid : IsValid db
db-IsValid = record { size = refl; offset = omega arith }

read-Reads_example : (db' : Databuffer) × (mp' : MessagePool) × Reads db empty_pool 3 db' mp'
read-Reads_example = read-Reads db empty_pool 3 db-IsValid (omega arith) (omega arith)

push-Pushes_example :
    Pushes db empty_pool
      (6 ∷ 7 ∷ [])
      (push db empty_pool (6 ∷ 7 ∷ [])).0
      (push db empty_pool (6 ∷ 7 ∷ [])).1
push-Pushes_example = push-Pushes db empty_pool (6 ∷ 7 ∷ []) db-IsValid

-- A buffer whose header was read as -1.
abbrev stuck : Databuffer
stuck = record db { header = negsuc 0 }

receive_all_stuck_example :
    (db' : Databuffer) × (mp' : MessagePool) × (receive_all line gate
        (record conn { buffer = stuck })
        5
        empty_pool
        three_chunks
      ≡ some ([], record conn { buffer = db' }, mp'))
    × (contents db' ≡ contents stuck ++ flatten three_chunks)
receive_all_stuck_example =
    receive_all_stuck line gate conn 5 three_chunks stuck empty_pool 0
      (record { size = refl; offset = omega arith }) refl

dispatch_message-Ends_example :
    Ends conn (0 + 5) (dispatch_message line gate conn 5 empty_pool (255 ∷ 255 ∷ 255 ∷ 0 ∷ 1 ∷ []))
unfolding init
dispatch_message-Ends_example =
    dispatch_message-Ends line gate 5 conn empty_pool (255 ∷ 255 ∷ 255 ∷ 0 ∷ 1 ∷ []) (inl refl)
      (record { size = refl; offset = refl })

-- The ids 7 and 23 have one slot: the second is put in front of the first.
abbrev ids : Hashid
ids = record {
  hashmod = 15;
  cap = 4;
  count = 1;
  id = update (λ _. none) 3 (some 7);
  next = λ _. none;
  hash = update (λ _. none) 7 (some 3);
}

abbrev seen : ℕ × Hashid → ℕ × Option ℕ × Option ℕ × Option ℕ
seen (c, hi) = (c, lookup hi 7, lookup hi 23, (remove hi 7).0)

ids-insert : (insert ids 23 >>= λ r. some (seen r)) ≡ some (0, some 3, some 0, some 3)
unfolding insert lookup remove
ids-insert = refl

abbrev no_ids : Hashid
no_ids = Ids.init 4

insert-Inserted_example :
    (c : ℕ) × (hi' : Hashid) × (insert no_ids 23 ≡ some (c, hi')) × Inserted no_ids hi' c 23
unfolding Ids.init
insert-Inserted_example =
    insert-Inserted no_ids 23 (Valid.init-IsValid 4) (omega arith) (omega arith)
      (λ c e. none-ne-some _ e)

gate-IsValid : Inv.IsValid gate
unfolding init
gate-IsValid =
    let v = init-IsValid 9 3 2 4 (inl refl) in
    record { size = v.size; ids = v.ids; same = v.same; buffers = v.buffers }

dispatch_socket_message-Handled_example :
    Handled gate
      (dispatch_socket_message line line (λ n name. n ∷ name) gate (accepted 1 6 (97 ∷ [])))
    ⊎ (IsStray gate (accepted 1 6 (97 ∷ []))
        × (dispatch_socket_message line line (λ n name. n ∷ name) gate (accepted 1 6 (97 ∷ []))
            ≡ none))
unfolding init Ids.init
dispatch_socket_message-Handled_example =
    dispatch_socket_message-Handled line line (λ n name. n ∷ name) gate gate-IsValid
      (accepted 1 6 (97 ∷ [])) ((λ i e. none-ne-some _ e), omega arith)

-- The table with the id 7 at the node 3.
abbrev one_id : Hashid
one_id = linked_node no_ids 3 7

one_id-IsValid : Valid.IsValid one_id
unfolding Ids.init
one_id-IsValid =
    linked_node-IsValid (Valid.init-IsValid 4) 3 7 refl (omega arith) (λ d e. none-ne-some _ e)

remove-Removed_example : (hi' : Hashid) × (remove one_id 7 ≡ (some 3, hi')) × Removed one_id hi' 3
remove-Removed_example = remove-Removed one_id 3 7 one_id-IsValid refl

lookup_found_example : lookup one_id 7 ≡ some 3
lookup_found_example = Valid.lookup_found one_id-IsValid 3 7 refl
