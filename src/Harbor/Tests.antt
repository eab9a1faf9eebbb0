-- ===== src/Harbor/Tests.antt =====
-- A queue of the harbor, and a message to another node, on concrete values.
use crynet.Prelude.{false, refl, ℕ, ◌≡◌, List, [], ◌∷◌, some, take, drop, length, arith, ◌≢◌, none}
use crynet.Harbor.{
  RemoteHeader, HarborMsg, new_queue, send_remote, split_message, read_length, none,
}
use crynet.Harbor.Ring.{Op, push, run, fifo, run-new_queue}
use crynet.Harbor.Remote.{Harbor, wait, is_down}
use crynet.Harbor.Remote.Frames.{frames}
use crynet.Harbor.Remote.{connect_command, start_socket, send_socket}
use crynet.Harbor.Remote.Waiting.{Call, send_all, all_waiting, connect_command-send_all}
use crynet.Harbor.Remote.{HarborAction}
use crynet.Harbor.Remote.Named.{KeyValue, name_node, Forwards, name_node-Forwards}
use crynet.Harbor.{HarborMsgQueue, push_queue_msg}
use crynet.Harbor.Ring.{Holds, push_queue_msg-Holds, new_queue-Holds}
use crynet.Harbor.Header.{Fits, split_message-send_remote}

abbrev cookie : RemoteHeader
cookie = record { source = 16777217; destination = 167772161; session = 5 }

cookie-Fits : Fits cookie
cookie-Fits = record { source = omega arith; destination = omega arith; session = omega arith }

abbrev greeting : HarborMsg
greeting = record { header = cookie; buffer = 104 ∷ 105 ∷ [] }

run-new_queue_example :
    run new_queue (push greeting ∷ Op.take ∷ Op.take ∷ [])
    ≡ fifo [] (push greeting ∷ Op.take ∷ Op.take ∷ [])
run-new_queue_example = run-new_queue (push greeting ∷ Op.take ∷ Op.take ∷ [])

split_message-send_remote_example :
    (bytes : List ℕ) × (send_remote (104 ∷ 105 ∷ []) cookie ≡ some bytes)
    × (read_length (take 4 bytes) ≡ some (length (drop 4 bytes)))
    × (split_message (drop 4 bytes) ≡ some (record { header = cookie; buffer = 104 ∷ 105 ∷ [] }))
split_message-send_remote_example =
    split_message-send_remote (104 ∷ 105 ∷ []) cookie cookie-Fits (omega arith)

-- Node 1, which knows of no other node.
abbrev alone : Harbor
alone = record { id = 1; slave = 16777217; s = λ _. record { fd = 0; queue = none; status = wait } }

abbrev two_calls : List Call
two_calls =
    record { source = 16777217; destination = 167772161; type = 0; session = 1; msg = 104 ∷ [] }
    ∷ record {
      source = 16777218;
      destination = 167772162;
      type = 10;
      session = 0;
      msg = 105 ∷ 106 ∷ [];
    }
    ∷ []

ten-ne-one : ◌≢◌ {A = ℕ} 10 1
ten-ne-one e = absurd (omega arith)

connect_command-send_all_example :
    (h' : Harbor) × (h'' : Harbor) × (send_all alone two_calls ≡ ([], h'))
    × (connect_command false h' 7 10
        ≡ some (start_socket 7 ∷ send_socket 7 (1 ∷ []) ∷ frames 7 (all_waiting two_calls), h''))
    × ((h''.s 10).queue ≡ none)
unfolding is_down
connect_command-send_all_example =
    connect_command-send_all alone 10 7 two_calls [] ten-ne-one (omega arith) (omega arith) refl
      refl (refl, (refl, tt)) refl (omega arith)

-- A message that waits for a name, which gets the handle 167772161 of the node 10, before the node is
-- connected.
abbrev unaddressed : HarborMsg
unaddressed = record {
  header = record { source = 16777217; destination = 167772160; session = 5 };
  buffer = 104 ∷ 105 ∷ [];
}

abbrev one_waits : HarborMsgQueue
one_waits = push_queue_msg new_queue unaddressed

abbrev unknown : KeyValue
unknown = record { key = 97 ∷ []; hash = 97; value = 0; queue = some one_waits }

one_waits-Holds : Holds one_waits (unaddressed ∷ [])
one_waits-Holds = push_queue_msg-Holds unaddressed new_queue-Holds

name_node-Forwards_example :
    (acts : List HarborAction) × (h' : Harbor) × (name_node alone unknown 167772161
      ≡ (acts, h', record unknown { value = 167772161; queue = none }))
    × Forwards alone 167772161 10 [] (unaddressed ∷ []) acts h'
name_node-Forwards_example =
    name_node-Forwards alone unknown 167772161 one_waits [] (unaddressed ∷ []) refl one_waits-Holds
      (refl, tt) refl
