-- ===== src/SocketServer/Tests.antt =====
-- Runs of a socket: a direct write that stops in the middle, texts of both priorities, and the requests
-- that bring them to the socket thread.
use crynet.Prelude.{
  ℕ, ◌≡◌, refl, List, [], ◌∷◌, ◌++◌, true, false, Option, none, some, flatten, update, ◌⊎◌, ◌<◌,
  arith,
}
use crynet.SocketServer.{
  SocketType, SendObject, wrote, again, is_connected, send_buffer_empty, is_nil, is_invalid,
  is_halfclose_write, is_halfclose_read, is_paccept, is_listen, enable_write, send_loop,
  count_written, list_uncomplete, raise_uncomplete, enable_read,
}
use crynet.SocketServer.Buffers.{
  nomore_sending_data, no_direct, send_socket, append_sendbuffer, append_sendbuffer_low, buffer_of,
  warn, send_buffer, take_direct, send_lists, send_low, sent_all, broken_write, close_socket,
  close_read,
}
use crynet.SocketServer.Threads.{
  close, call_other, other_request, send, trigger, Text, Channel, SocketEvent, call_send,
  call_send_low, command, writable, run, step, asked_by, socket_event, server_send,
  server_send_lowpriority, send_request, can_direct_write, direct_bytes, ctrl_cmd, trigger_write,
  dec_sending_ref, poll_write, answers_of, new_channel, new_socket,
}
use crynet.SocketServer.Order.{texts}
use crynet.SocketServer.Slots.{
  Slots, Others, max_socket, reserve_loop, reserve_id, Reserved, reserve_id-Reserved, alone,
  alone_for, taken, got, gave_up,
}
use crynet.SocketServer.Drain.{commands}
use crynet.SocketServer.Emptied.{whole_answers}
use crynet.SocketServer.Progress.{AllWritten, run-AllWritten}
use crynet.SocketServer.Delivery.{first_type, KeepsOrder, IsPrefix, run-KeepsOrder, run-all_sent}

abbrev block : ℕ → List ℕ → SendObject
block address bytes = record { buffer = address; text = address; bytes = bytes; userobject = false }

-- The first text is written in part, the next ones wait; the one of low priority is overtaken.
abbrev some_texts : List SocketEvent
some_texts =
    call_send false (wrote 2) (block 100 (1 ∷ 2 ∷ 3 ∷ []))
    ∷ call_send false (wrote 9) (block 200 (4 ∷ []))
    ∷ call_send_low (block 300 (7 ∷ 8 ∷ []))
    ∷ call_send true again (block 400 (5 ∷ 6 ∷ []))
    ∷ command false
    ∷ command false
    ∷ command false
    ∷ command false
    ∷ writable false false false (wrote 2 ∷ wrote 1 ∷ again ∷ [])
    ∷ []

abbrev to_the_end : List SocketEvent
to_the_end =
    some_texts
    ++ writable false false false (wrote 9 ∷ wrote 1 ∷ [])
      ∷ writable false false false (wrote 9 ∷ [])
      ∷ []

abbrev or_new : Option Channel → Channel
or_new none = new_channel SocketType.invalid
or_new (some x) = x

abbrev wire_of : List SocketEvent → List ℕ
wire_of es = (or_new (run es (new_channel SocketType.connected))).wire

test_wire : wire_of some_texts ≡ 1 ∷ 2 ∷ 3 ∷ 4 ∷ []
unfolding run step asked_by socket_event server_send server_send_lowpriority send_request
    can_direct_write direct_bytes nomore_sending_data no_direct send_buffer_empty is_nil is_invalid
    is_connected is_halfclose_write is_halfclose_read is_paccept is_listen ctrl_cmd trigger_write
    send_socket append_sendbuffer append_sendbuffer_low buffer_of warn dec_sending_ref enable_write
    poll_write answers_of send_buffer take_direct send_lists send_low send_loop count_written
    list_uncomplete raise_uncomplete sent_all broken_write new_channel new_socket
test_wire = refl

test_end : wire_of to_the_end ≡ 1 ∷ 2 ∷ 3 ∷ 4 ∷ 5 ∷ 6 ∷ 7 ∷ 8 ∷ []
unfolding run step asked_by socket_event server_send server_send_lowpriority send_request
    can_direct_write direct_bytes nomore_sending_data no_direct send_buffer_empty is_nil is_invalid
    is_connected is_halfclose_write is_halfclose_read is_paccept is_listen ctrl_cmd trigger_write
    send_socket append_sendbuffer append_sendbuffer_low buffer_of warn dec_sending_ref enable_write
    poll_write answers_of send_buffer take_direct send_lists send_low send_loop count_written
    list_uncomplete raise_uncomplete sent_all broken_write new_channel new_socket
test_end = refl

run-KeepsOrder_example :
    (x : Channel) × (run some_texts (new_channel (first_type false)) ≡ some x)
    × ((sent : List Text) × KeepsOrder x.asked sent × IsPrefix x.wire sent)
run-KeepsOrder_example =
    run-KeepsOrder false some_texts (tt, (tt, (refl, (tt, (tt, (tt, (tt, (tt, (tt, tt)))))))))

-- All that is left is written, in three parts.
abbrev last_channel : Channel
last_channel = record {
  socket = record (new_socket SocketType.connected) { written = 8 };
  pipe = [];
  wire = 1 ∷ 2 ∷ 3 ∷ 4 ∷ 5 ∷ 6 ∷ 7 ∷ 8 ∷ [];
  asked =
      record { low = false; bytes = 1 ∷ 2 ∷ 3 ∷ [] }
      ∷ record { low = false; bytes = 4 ∷ [] }
      ∷ record { low = true; bytes = 7 ∷ 8 ∷ [] }
      ∷ record { low = false; bytes = 5 ∷ 6 ∷ [] }
      ∷ [];
}

test_last : run to_the_end (new_channel (first_type false)) ≡ some last_channel
unfolding run step asked_by socket_event server_send server_send_lowpriority send_request
    can_direct_write direct_bytes nomore_sending_data no_direct send_buffer_empty is_nil is_invalid
    is_connected is_halfclose_write is_halfclose_read is_paccept is_listen ctrl_cmd trigger_write
    send_socket append_sendbuffer append_sendbuffer_low buffer_of warn dec_sending_ref enable_write
    poll_write answers_of send_buffer take_direct send_lists send_low send_loop count_written
    list_uncomplete raise_uncomplete sent_all broken_write new_channel new_socket
test_last = refl

run-all_sent_example :
    (sent : List Text) × KeepsOrder last_channel.asked sent
    × (last_channel.wire ≡ flatten (texts sent))
unfolding is_connected nomore_sending_data send_buffer_empty is_nil no_direct is_halfclose_write
    new_socket
run-all_sent_example =
    run-all_sent false to_the_end last_channel
      (tt, (tt, (refl, (tt, (tt, (tt, (tt, (tt, (tt, (tt, (tt, tt))))))))))) test_last refl refl
      refl

-- All four texts wait.
abbrev four_calls : List SocketEvent
four_calls =
    call_send false (wrote 2) (block 100 (1 ∷ 2 ∷ 3 ∷ []))
    ∷ call_send false (wrote 9) (block 200 (4 ∷ []))
    ∷ call_send_low (block 300 (7 ∷ 8 ∷ []))
    ∷ call_send true again (block 400 (5 ∷ 6 ∷ []))
    ∷ []

abbrev waiting_channel : Channel
waiting_channel = record {
  socket = record (new_socket SocketType.connected) {
    written = 2;
    sending = 3;
    dw = some (record { object = block 100 (1 ∷ 2 ∷ 3 ∷ []); offset = 2 });
  };
  pipe =
      trigger
      ∷ send false (block 200 (4 ∷ []))
      ∷ send true (block 300 (7 ∷ 8 ∷ []))
      ∷ send false (block 400 (5 ∷ 6 ∷ []))
      ∷ [];
  wire = 1 ∷ 2 ∷ [];
  asked = last_channel.asked;
}

test_waiting : run four_calls (new_channel (first_type false)) ≡ some waiting_channel
unfolding run step asked_by socket_event server_send server_send_lowpriority send_request
    can_direct_write direct_bytes nomore_sending_data no_direct send_buffer_empty is_nil is_invalid
    is_connected is_halfclose_write is_halfclose_read is_paccept is_listen ctrl_cmd trigger_write
    send_socket append_sendbuffer append_sendbuffer_low buffer_of warn dec_sending_ref enable_write
    poll_write answers_of send_buffer take_direct send_lists send_low send_loop count_written
    list_uncomplete raise_uncomplete sent_all broken_write new_channel new_socket
test_waiting = refl

run-AllWritten_example :
    (y z : Channel) × (run (commands waiting_channel.pipe) waiting_channel ≡ some y)
    × (step (writable false false false (whole_answers y.socket)) y ≡ some z)
    × (z.asked ≡ waiting_channel.asked)
    × AllWritten z
unfolding is_connected new_socket
run-AllWritten_example =
    run-AllWritten false four_calls waiting_channel (tt, (tt, (refl, (tt, tt)))) test_waiting refl
      refl (tt, (tt, (tt, (tt, tt))))

-- The ids are about to start again at 0, whose slot is in use.
abbrev before_wrap : Slots
before_wrap = record {
  alloc_id = 2147483647;
  type = update (λ _. SocketType.invalid) 0 SocketType.connected;
  id = λ _. 0;
}

test_wrap :
    reserve_loop 3 (alone_for 3) before_wrap ≡ got 1 (taken 1 (record before_wrap { alloc_id = 1 }))
unfolding reserve_loop is_invalid
test_wrap = refl

reserve_id-Reserved_example :
    Reserved before_wrap (reserve_id (alone_for max_socket) before_wrap)
    ⊎ (((last : ℕ) × (reserve_id (alone_for max_socket) before_wrap
            ≡ gave_up (record before_wrap { alloc_id = last })))
        × ((k : ℕ) → k < max_socket → is_invalid (before_wrap.type k) ≡ false))
reserve_id-Reserved_example = reserve_id-Reserved before_wrap (omega arith)

-- Another thread takes the slot 1 before the exchange, and the call goes on to 2.
abbrev contended : List Others
contended = alone ∷ record alone { at_exchange = taken 1 } ∷ alone ∷ []

test_contended :
    reserve_id contended before_wrap
    ≡ got 2 (taken 2 (record (taken 1 (record before_wrap { alloc_id = 1 })) { alloc_id = 2 }))
unfolding reserve_id reserve_loop is_invalid
test_contended = refl

-- A close that waits for a text behind it in the pipe: the text is dropped, and no event is left that
-- closes the socket.
test_late_close :
    run
      (call_other (close false)
        ∷ call_send_low (block 100 (1 ∷ []))
        ∷ command false
        ∷ command false
        ∷ [])
      (new_channel SocketType.connected)
    ≡ some (record {
      socket = record (new_socket SocketType.halfclose_read) { reading = false; closing = true };
      pipe = [];
      wire = [];
      asked = record { low = true; bytes = 1 ∷ [] } ∷ [];
    })
unfolding run step asked_by socket_event server_send server_send_lowpriority send_request
    can_direct_write direct_bytes nomore_sending_data no_direct send_buffer_empty is_nil is_invalid
    is_connected is_halfclose_write is_halfclose_read is_paccept is_listen ctrl_cmd trigger_write
    send_socket append_sendbuffer append_sendbuffer_low buffer_of warn dec_sending_ref enable_write
    poll_write answers_of send_buffer take_direct send_lists send_low send_loop count_written
    list_uncomplete raise_uncomplete sent_all broken_write new_channel new_socket close_socket
    close_read other_request enable_read
test_late_close = refl

-- A user object that waits with low priority makes an assertion fail.
test_user_object :
    run
      (call_send true again (block 100 (1 ∷ []))
        ∷ call_send_low (record { buffer = 200; text = 208; bytes = 2 ∷ []; userobject = true })
        ∷ command false
        ∷ command false
        ∷ writable false false false []
        ∷ [])
      (new_channel SocketType.connected)
    ≡ none
unfolding run step asked_by socket_event server_send server_send_lowpriority send_request
    can_direct_write direct_bytes nomore_sending_data no_direct send_buffer_empty is_nil is_invalid
    is_connected is_halfclose_write is_halfclose_read is_paccept is_listen ctrl_cmd trigger_write
    send_socket append_sendbuffer append_sendbuffer_low buffer_of warn dec_sending_ref enable_write
    poll_write answers_of send_buffer take_direct send_lists send_low send_loop count_written
    list_uncomplete raise_uncomplete sent_all broken_write new_channel new_socket
test_user_object = refl
