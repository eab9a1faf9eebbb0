-- ===== src/SocketServer/Polls.antt =====
-- The events of the socket in `socket_server_poll` keep what holds of it.
use crynet.Prelude.{
  ℕ, ◌≡◌, refl, sym, ◌∙◌, List, [], ◌∷◌, ◌++◌, Bool, true, false, ◌&&◌, inl, inr, Option, none,
  some, arith, if_both, ◌==◌, ◌*◌, ltb, ◌/◌,
}
use crynet.SocketServer.{
  SocketType, is_invalid, is_halfclose_read, is_halfclose_write, Socket, DirectWrite, Outcome,
  Answer, failed, enable_write, enable_read, socket_more, socket_data,
}
use crynet.SocketServer.Threads.{Request, Text, answers_of, poll_write, poll_read, poll_eof}
use crynet.SocketServer.Buffers.{
  take_direct, send_lists, send_buffer, report_connect, ReadAnswer, got, ended, read_again,
  read_failed, forward_message_tcp, close_read, nomore_sending_data, min_read_buffer,
}
use crynet.SocketServer.Order.{Over, Inv, is_live, is_dead, force_close-Inv}
use crynet.SocketServer.Writes.{Keeps, send_direct-Keeps}
use crynet.SocketServer.Cases.{not_both, is_live_open, is_dead_shut}
use crynet.SocketServer.Dead.{broken_lists}
use mathlib.Core.List.{append-nil}
use mathlib.Core.Path.{subst}

module _ (pipe : List Request) (wire : List ℕ) (asked : List Text) where
  -- A socket that takes texts gets another type that does.
  pub retype-Inv :
      (type : SocketType) (s : Socket)
      → is_live type ≡ true
      → is_halfclose_write s.type ≡ false
      → is_invalid s.type ≡ false
      → Inv s pipe wire asked
      → Inv (record s { type = type }) pipe wire asked
  retype-Inv type s live opened valid (count, plain, counts, inl (_, v)) =
      (count, plain, λ _. counts valid, inl (live, v))
  retype-Inv type s live opened valid (count, plain, counts, inr (dead, _)) =
      absurd (not_both (sym opened ∙ is_dead_shut s.type valid dead))

  pub same_wire : (s : Socket) → Inv s pipe wire asked → Inv s pipe (wire ++ []) asked
  same_wire s inv = subst (λ w. Inv s pipe w asked) (sym (append-nil wire)) inv

  dead_direct :
      (poll_fails : Bool) (s : Socket) (dw : Option DirectWrite)
      → is_invalid s.type ≡ false
      → is_dead s.type ≡ true
      → Over wire asked
      → Inv s pipe wire asked
      → Keeps pipe wire asked
          (send_lists poll_fails (failed ∷ []) (take_direct (record s { dw = dw })))
  unfolding take_direct
  dead_direct poll_fails s none valid dead over (count, plain, counts, _) =
      broken_lists poll_fails (record s { dw = none }) pipe wire asked valid dead count plain over
        s.high s.low (counts valid).0 (counts valid).1
  dead_direct poll_fails s (some d) valid dead over (count, plain, counts, _) =
      let (size, fresh) = counts valid in
      let s' = take_direct (record s { dw = some d }) in
      broken_lists poll_fails s' pipe wire asked valid dead count plain over s'.high s.low
        (omega (arith, size)) fresh

  send_buffer-Keeps :
      (locked poll_fails : Bool) (answers : List Answer) (s : Socket)
      → is_invalid s.type ≡ false
      → Inv s pipe wire asked
      → Keeps pipe wire asked (send_buffer locked poll_fails (answers_of s answers) s)
  unfolding send_buffer answers_of
  send_buffer-Keeps locked poll_fails answers s valid (count, plain, counts, status) =
      let P = Keeps pipe wire asked in
      if_both P locked (λ _. same_wire s (count, plain, counts, status))
        (λ _. elim status [
          | inl (live, v) ↦
              rw (answers_of, is_live_open s.type live)
                (send_direct-Keeps poll_fails answers s s.dw pipe wire asked live count plain
                  (counts valid).0 (counts valid).1 v)
          | inr (dead, over) ↦
              rw (answers_of, is_dead_shut s.type valid dead)
                (dead_direct poll_fails s s.dw valid dead over
                  (count, plain, counts, inr (dead, over)))
        ])

  report_connect-Inv :
      (error poll_fails : Bool) (s : Socket)
      → is_halfclose_write s.type ≡ false
      → is_invalid s.type ≡ false
      → Inv s pipe wire asked
      → Inv (report_connect error poll_fails s).1 pipe wire asked
  unfolding report_connect enable_write
  report_connect-Inv error poll_fails s opened valid inv =
      let now = retype-Inv SocketType.connected s refl opened valid inv in
      let P : Outcome × Socket → Type 0 = λ r. Inv r.1 pipe wire asked in
      if_both P error (λ _. force_close-Inv s inv)
        (λ _.
          if_both P (nomore_sending_data (record s { type = SocketType.connected }))
            (λ _.
              if_both P (poll_fails && s.writing)
                (λ _.
                  force_close-Inv (enable_write false (record s { type = SocketType.connected }))
                    now)
                (λ _. now))
            (λ _. now))

  pub poll_write-Keeps :
      (locked poll_fails error : Bool) (answers : List Answer) (s : Socket) (type : SocketType)
      → Inv (record s { type = type }) pipe wire asked
      → Keeps pipe wire asked
          (poll_write locked poll_fails error answers (record s { type = type }))
  unfolding poll_write is_invalid is_halfclose_write
  poll_write-Keeps locked poll_fails error answers s SocketType.connecting inv =
      same_wire (report_connect error poll_fails (record s { type = SocketType.connecting })).1 (
        report_connect-Inv error poll_fails (record s { type = SocketType.connecting }) refl refl
          inv)
  poll_write-Keeps locked poll_fails error answers s SocketType.invalid inv =
      same_wire (record s { type = SocketType.invalid }) inv
  poll_write-Keeps locked poll_fails error answers s SocketType.reserve inv =
      send_buffer-Keeps locked poll_fails answers _ refl inv
  poll_write-Keeps locked poll_fails error answers s SocketType.plisten inv =
      send_buffer-Keeps locked poll_fails answers _ refl inv
  poll_write-Keeps locked poll_fails error answers s SocketType.listen inv =
      send_buffer-Keeps locked poll_fails answers _ refl inv
  poll_write-Keeps locked poll_fails error answers s SocketType.connected inv =
      send_buffer-Keeps locked poll_fails answers _ refl inv
  poll_write-Keeps locked poll_fails error answers s SocketType.halfclose_read inv =
      send_buffer-Keeps locked poll_fails answers _ refl inv
  poll_write-Keeps locked poll_fails error answers s SocketType.halfclose_write inv =
      send_buffer-Keeps locked poll_fails answers _ refl inv
  poll_write-Keeps locked poll_fails error answers s SocketType.paccept inv =
      send_buffer-Keeps locked poll_fails answers _ refl inv
  poll_write-Keeps locked poll_fails error answers s SocketType.bind inv =
      send_buffer-Keeps locked poll_fails answers _ refl inv

  -- Reading closes the socket, or the reading end, and no more.
  forward_message_tcp-Inv :
      (answer : ReadAnswer) (s : Socket)
      → is_invalid s.type ≡ false
      → Inv s pipe wire asked
      → Inv (forward_message_tcp answer s).1 pipe wire asked
  unfolding forward_message_tcp close_read enable_read
  forward_message_tcp-Inv read_failed s valid inv = inv
  forward_message_tcp-Inv read_again s valid inv = inv
  forward_message_tcp-Inv ended s valid inv =
      let P : Outcome × Socket → Type 0 = λ r. Inv r.1 pipe wire asked in
      if_both P s.closing
        (λ _.
          if_both (λ t. Inv t pipe wire asked) (nomore_sending_data s) (λ _. force_close-Inv s inv)
            (λ _. inv))
        (λ _.
          if_both P (is_halfclose_read s.type) (λ _. inv)
            (λ _.
              if_both P (is_halfclose_write s.type) (λ _. force_close-Inv s inv)
                (λ opened. retype-Inv SocketType.halfclose_read s refl opened valid inv)))
  forward_message_tcp-Inv (got n) s valid inv =
      let P : Outcome × Socket → Type 0 = λ r. Inv r.1 pipe wire asked in
      if_both P (is_halfclose_read s.type) (λ _. inv)
        (λ _.
          if_both P (n == s.read_size) {x = (socket_more, record s { read_size = s.read_size * 2 })}
            (λ _. inv)
            (λ _.
              if_both P (ltb min_read_buffer s.read_size && ltb (n * 2) s.read_size)
                {x = (socket_data, record s { read_size = s.read_size / 2 })} {y = (socket_data, s)}
                (λ _. inv) (λ _. inv)))

  pub poll_read-Inv :
      (poll_fails error : Bool) (answer : ReadAnswer) (s : Socket) (type : SocketType)
      → Inv (record s { type = type }) pipe wire asked
      → Inv (poll_read poll_fails error answer (record s { type = type })).1 pipe wire asked
  unfolding poll_read is_invalid is_halfclose_write
  poll_read-Inv poll_fails error answer s SocketType.connecting inv =
      report_connect-Inv error poll_fails (record s { type = SocketType.connecting }) refl refl inv
  poll_read-Inv poll_fails error answer s SocketType.invalid inv = inv
  poll_read-Inv poll_fails error answer s SocketType.reserve inv =
      forward_message_tcp-Inv answer _ refl inv
  poll_read-Inv poll_fails error answer s SocketType.plisten inv =
      forward_message_tcp-Inv answer _ refl inv
  poll_read-Inv poll_fails error answer s SocketType.listen inv =
      forward_message_tcp-Inv answer _ refl inv
  poll_read-Inv poll_fails error answer s SocketType.connected inv =
      forward_message_tcp-Inv answer _ refl inv
  poll_read-Inv poll_fails error answer s SocketType.halfclose_read inv =
      forward_message_tcp-Inv answer _ refl inv
  poll_read-Inv poll_fails error answer s SocketType.halfclose_write inv =
      forward_message_tcp-Inv answer _ refl inv
  poll_read-Inv poll_fails error answer s SocketType.paccept inv =
      forward_message_tcp-Inv answer _ refl inv
  poll_read-Inv poll_fails error answer s SocketType.bind inv =
      forward_message_tcp-Inv answer _ refl inv

  pub poll_eof-Inv :
      (poll_fails error : Bool) (s : Socket) (type : SocketType)
      → Inv (record s { type = type }) pipe wire asked
      → Inv (poll_eof poll_fails error (record s { type = type })).1 pipe wire asked
  unfolding poll_eof is_invalid is_halfclose_write
  poll_eof-Inv poll_fails error s SocketType.connecting inv =
      report_connect-Inv error poll_fails (record s { type = SocketType.connecting }) refl refl inv
  poll_eof-Inv poll_fails error s SocketType.invalid inv = inv
  poll_eof-Inv poll_fails error s SocketType.reserve inv = force_close-Inv _ inv
  poll_eof-Inv poll_fails error s SocketType.plisten inv = force_close-Inv _ inv
  poll_eof-Inv poll_fails error s SocketType.listen inv = force_close-Inv _ inv
  poll_eof-Inv poll_fails error s SocketType.connected inv = force_close-Inv _ inv
  poll_eof-Inv poll_fails error s SocketType.halfclose_read inv = force_close-Inv _ inv
  poll_eof-Inv poll_fails error s SocketType.halfclose_write inv = force_close-Inv _ inv
  poll_eof-Inv poll_fails error s SocketType.paccept inv = force_close-Inv _ inv
  poll_eof-Inv poll_fails error s SocketType.bind inv = force_close-Inv _ inv
