-- ===== src/SocketServer/Awake.antt =====
-- About `writing`, as in Wakes, for the other events of the poll and for the requests in the pipe.
use crynet.Prelude.{
  ◌≡◌, refl, sym, ◌∙◌, List, ◌∷◌, Bool, true, false, ◌||◌, ◌&&◌, ◌⊎◌, inl, Option, none, some,
  if◌then◌else◌, if_both, ◌==◌, ◌>>=◌,
}
use crynet.SocketServer.{
  SocketType, is_invalid, is_halfclose_read, is_halfclose_write, is_paccept, is_listen, SendObject,
  Socket, Outcome, ignore, socket_err, socket_open, socket_close, is_nil, send_buffer_empty,
  enable_write, enable_read, force_close,
}
use crynet.SocketServer.Buffers.{
  append_sendbuffer, append_sendbuffer_low, warn, send_socket, no_direct, nomore_sending_data,
  close_read, close_socket, ReadAnswer,
}
use crynet.SocketServer.Threads.{
  Request, send, trigger, close, resume, pause, dec_sending_ref, trigger_write, resume_socket,
  pause_socket, ctrl_cmd, poll_read, poll_eof,
}
use crynet.SocketServer.Order.{is_dead}
use crynet.SocketServer.Cases.{not_both, not_second}
use crynet.SocketServer.Wakes.{
  HasTrigger, Wakes, force_close-Wakes, report_connect-Wakes, forward_message_tcp-Wakes,
  is_dead_not, and_false,
}

invalid_not : (type : SocketType) → is_dead type ≡ false → is_invalid type ≡ false
unfolding is_invalid
invalid_not SocketType.invalid e = e
invalid_not SocketType.reserve e = refl
invalid_not SocketType.plisten e = refl
invalid_not SocketType.listen e = refl
invalid_not SocketType.connecting e = refl
invalid_not SocketType.connected e = refl
invalid_not SocketType.halfclose_read e = refl
invalid_not SocketType.halfclose_write e = absurd (not_both (sym e))
invalid_not SocketType.paccept e = refl
invalid_not SocketType.bind e = refl

module _ (pipe : List Request) where
  abbrev Kept : Outcome × Socket → Type 0
  Kept r = Wakes r.1 pipe

  pub poll_read-Wakes :
      (poll_fails error : Bool) (answer : ReadAnswer) (s : Socket) (type : SocketType)
      → Wakes (record s { type = type }) pipe
      → Kept (poll_read poll_fails error answer (record s { type = type }))
  unfolding poll_read is_invalid
  poll_read-Wakes poll_fails error answer s SocketType.connecting w =
      report_connect-Wakes pipe error poll_fails (record s { type = SocketType.connecting }) refl w
  poll_read-Wakes poll_fails error answer s SocketType.invalid w = w
  poll_read-Wakes poll_fails error answer s SocketType.reserve w =
      forward_message_tcp-Wakes pipe answer (record s { type = SocketType.reserve }) refl w
  poll_read-Wakes poll_fails error answer s SocketType.plisten w =
      forward_message_tcp-Wakes pipe answer (record s { type = SocketType.plisten }) refl w
  poll_read-Wakes poll_fails error answer s SocketType.listen w =
      forward_message_tcp-Wakes pipe answer (record s { type = SocketType.listen }) refl w
  poll_read-Wakes poll_fails error answer s SocketType.connected w =
      forward_message_tcp-Wakes pipe answer (record s { type = SocketType.connected }) refl w
  poll_read-Wakes poll_fails error answer s SocketType.halfclose_read w =
      forward_message_tcp-Wakes pipe answer (record s { type = SocketType.halfclose_read }) refl w
  poll_read-Wakes poll_fails error answer s SocketType.halfclose_write w =
      forward_message_tcp-Wakes pipe answer (record s { type = SocketType.halfclose_write }) refl w
  poll_read-Wakes poll_fails error answer s SocketType.paccept w =
      forward_message_tcp-Wakes pipe answer (record s { type = SocketType.paccept }) refl w
  poll_read-Wakes poll_fails error answer s SocketType.bind w =
      forward_message_tcp-Wakes pipe answer (record s { type = SocketType.bind }) refl w

  pub poll_eof-Wakes :
      (poll_fails error : Bool) (s : Socket) (type : SocketType)
      → Wakes (record s { type = type }) pipe
      → Kept (poll_eof poll_fails error (record s { type = type }))
  unfolding poll_eof
  poll_eof-Wakes poll_fails error s SocketType.connecting w =
      report_connect-Wakes pipe error poll_fails (record s { type = SocketType.connecting }) refl w
  poll_eof-Wakes poll_fails error s SocketType.invalid w = w
  poll_eof-Wakes poll_fails error s SocketType.reserve w =
      force_close-Wakes pipe (record s { type = SocketType.reserve }) w
  poll_eof-Wakes poll_fails error s SocketType.plisten w =
      force_close-Wakes pipe (record s { type = SocketType.plisten }) w
  poll_eof-Wakes poll_fails error s SocketType.listen w =
      force_close-Wakes pipe (record s { type = SocketType.listen }) w
  poll_eof-Wakes poll_fails error s SocketType.connected w =
      force_close-Wakes pipe (record s { type = SocketType.connected }) w
  poll_eof-Wakes poll_fails error s SocketType.halfclose_read w =
      force_close-Wakes pipe (record s { type = SocketType.halfclose_read }) w
  poll_eof-Wakes poll_fails error s SocketType.halfclose_write w =
      force_close-Wakes pipe (record s { type = SocketType.halfclose_write }) w
  poll_eof-Wakes poll_fails error s SocketType.paccept w =
      force_close-Wakes pipe (record s { type = SocketType.paccept }) w
  poll_eof-Wakes poll_fails error s SocketType.bind w =
      force_close-Wakes pipe (record s { type = SocketType.bind }) w

  warn-Wakes : (s : Socket) → Wakes s pipe → Kept (warn s)
  unfolding warn
  warn-Wakes s w = if_both Kept _ {y = (ignore, s)} (λ _. w) (λ _. w)

  send_socket-Wakes :
      (poll_fails low : Bool) (o : SendObject) (s : Socket)
      → Wakes s pipe
      → Kept (send_socket poll_fails low o s)
  unfolding send_socket append_sendbuffer append_sendbuffer_low enable_write send_buffer_empty
  send_socket-Wakes poll_fails low o s w =
      let first = enable_write true (append_sendbuffer o s) in
      if_both Kept
        (is_invalid s.type || (is_halfclose_write s.type || (is_paccept s.type || s.closing)))
        {x = (ignore, s)} (λ _. w)
        (λ _.
          if_both Kept (is_listen s.type) {x = (ignore, s)} (λ _. w)
            (λ _.
              if_both Kept (send_buffer_empty s)
                (λ _.
                  if_both Kept (poll_fails && (if s.writing then false else true))
                    {x = (socket_err, first)} (λ _ _ _. inl refl)
                    (λ _. warn-Wakes first (λ _ _. inl refl)))
                (λ filled.
                  let woken : is_dead s.type ≡ false → (s.writing ≡ true) ⊎ HasTrigger pipe =
                    λ alive.
                      w alive (and_false (is_nil s.high) (is_nil s.low) (no_direct s.dw) filled) in
                  warn-Wakes (if low then append_sendbuffer_low o s else append_sendbuffer o s) (
                    if_both (λ t. Wakes t pipe) low (λ _ alive _. woken alive)
                      (λ _ alive _. woken alive)))))

  absurd_Wakes : (s : Socket) → is_invalid s.type ≡ true → Wakes s pipe
  absurd_Wakes s e = λ alive _. absurd (not_both (sym (invalid_not s.type alive) ∙ e))

  trigger_write-Wakes : (poll_fails : Bool) (s : Socket) → Kept (trigger_write poll_fails s)
  unfolding trigger_write enable_write is_invalid
  trigger_write-Wakes poll_fails s =
      let P : Outcome × Socket → Type 0 = Kept in
      if_both P (is_invalid s.type) {x = (ignore, s)} (λ e. absurd_Wakes s e)
        (λ _.
          if_both P (poll_fails && (if s.writing then false else true))
            {x = (socket_err, enable_write true s)} {y = (ignore, enable_write true s)}
            (λ _ _ _. inl refl) (λ _ _ _. inl refl))

  close_socket-Wakes :
      (shutdown : Bool) (s : Socket) → Wakes s pipe → Kept (close_socket shutdown s)
  unfolding close_socket close_read enable_read nomore_sending_data
  close_socket-Wakes shutdown s w =
      let half = is_halfclose_read s.type in
      if_both Kept (is_invalid s.type) {x = (ignore, s)} (λ _. w)
        (λ valid.
          if_both Kept (shutdown || nomore_sending_data s)
            {x = (if half then ignore else socket_close, force_close s)}
            (λ _. force_close-Wakes pipe s w)
            (λ more.
              if_both Kept half {x = (ignore, record s { closing = true })} (λ _. w)
                (λ _ _.
                  w (is_dead_not s.type valid (not_second _ _ (not_second shutdown _ more))))))

  -- A socket that is resumed, with the type that it gets.
  resumed :
      (poll_fails : Bool) (s : Socket) (type type' : SocketType) (out : Outcome)
      → Wakes (record s { type = type }) pipe
      → Wakes (record s { type = type' }) pipe
      → Kept (
          if poll_fails && (if s.reading then false else true)
          then (socket_err, record s { type = type; reading = true })
          else (out, record s { type = type'; reading = true }))
  resumed poll_fails s type type' out w w' =
      if_both Kept (poll_fails && (if s.reading then false else true))
        {x = (socket_err, record s { type = type; reading = true })}
        {y = (out, record s { type = type'; reading = true })} (λ _. w) (λ _. w')

  resume_socket-Wakes :
      (poll_fails : Bool) (s : Socket) (type : SocketType)
      → Wakes (record s { type = type }) pipe
      → Kept (resume_socket poll_fails (record s { type = type }))
  unfolding resume_socket enable_read is_invalid is_halfclose_read
  resume_socket-Wakes poll_fails s SocketType.invalid w = w
  resume_socket-Wakes poll_fails s SocketType.reserve w =
      resumed poll_fails s SocketType.reserve SocketType.reserve ignore w w
  resume_socket-Wakes poll_fails s SocketType.plisten w =
      resumed poll_fails s SocketType.plisten SocketType.listen socket_open w w
  resume_socket-Wakes poll_fails s SocketType.listen w =
      resumed poll_fails s SocketType.listen SocketType.listen ignore w w
  resume_socket-Wakes poll_fails s SocketType.connecting w =
      resumed poll_fails s SocketType.connecting SocketType.connecting ignore w w
  resume_socket-Wakes poll_fails s SocketType.connected w =
      resumed poll_fails s SocketType.connected SocketType.connected socket_open w w
  resume_socket-Wakes poll_fails s SocketType.halfclose_read w = w
  resume_socket-Wakes poll_fails s SocketType.halfclose_write w =
      resumed poll_fails s SocketType.halfclose_write SocketType.halfclose_write ignore w w
  resume_socket-Wakes poll_fails s SocketType.paccept w =
      resumed poll_fails s SocketType.paccept SocketType.connected socket_open w w
  resume_socket-Wakes poll_fails s SocketType.bind w =
      resumed poll_fails s SocketType.bind SocketType.bind ignore w w

  pause_socket-Wakes :
      (poll_fails : Bool) (s : Socket) → Wakes s pipe → Kept (pause_socket poll_fails s)
  unfolding pause_socket enable_read
  pause_socket-Wakes poll_fails s w =
      if_both Kept (is_invalid s.type) {x = (ignore, s)} (λ _. w) (λ _. w)

abbrev pub Taken : List Request → Option (Outcome × Socket) → Type 0
Taken rs none = Unit
Taken rs (some r) = Wakes r.1 rs

counted_Taken :
    (rs : List Request) (r : Outcome × Socket)
    → Wakes r.1 rs
    → Taken rs (dec_sending_ref r.1 >>= λ (t : Socket). some (r.0, t))
unfolding dec_sending_ref
counted_Taken rs r w =
    if_both (λ (d : Option Socket). Taken rs (d >>= λ (t : Socket). some (r.0, t)))
      (r.1.sending == 0) (λ _. tt) (λ _. w)

pub ctrl_cmd-Taken :
    (poll_fails : Bool) (r : Request) (rs : List Request) (s : Socket)
    → Wakes s (r ∷ rs)
    → Taken rs (ctrl_cmd poll_fails r s)
unfolding ctrl_cmd
ctrl_cmd-Taken poll_fails (send low o) rs s w =
    counted_Taken rs (send_socket poll_fails low o s) (send_socket-Wakes rs poll_fails low o s w)
ctrl_cmd-Taken poll_fails trigger rs s w = trigger_write-Wakes rs poll_fails s
ctrl_cmd-Taken poll_fails (close shutdown) rs s w = close_socket-Wakes rs shutdown s w
ctrl_cmd-Taken poll_fails resume rs s w = resume_socket-Wakes rs poll_fails s s.type w
ctrl_cmd-Taken poll_fails pause rs s w = pause_socket-Wakes rs poll_fails s w
