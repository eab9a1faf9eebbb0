-- ===== src/SocketServer/Wakes.antt =====
-- About `writing` of a socket in which something waits, and the requests in the pipe to set it: the
-- functions of the socket thread on one socket.
use crynet.Prelude.{
  ℕ, ◌≡◌, refl, sym, ap, ◌∙◌, List, [], ◌∷◌, ◌++◌, Bool, true, false, ◌||◌, ◌&&◌, ◌⊎◌, inl, inr,
  Option, none, some, if_both, ◌==◌, ltb, length, ◌*◌, ◌/◌,
}
use crynet.SocketServer.{
  SocketType, is_invalid, is_halfclose_read, is_halfclose_write, Socket, WriteBuffer, DirectWrite,
  Outcome, ignore, socket_err, socket_open, socket_more, socket_data, socket_close, Answer, is_nil,
  send_buffer_empty, send_loop, count_written, list_uncomplete, raise_uncomplete, enable_write,
  enable_read, force_close, close_write,
}
use crynet.SocketServer.Buffers.{
  broken_write, sent_all, send_low, send_lists, take_direct, send_buffer, no_direct,
  nomore_sending_data, close_read, report_connect, ReadAnswer, got, ended, read_again, read_failed,
  forward_message_tcp, min_read_buffer,
}
use crynet.SocketServer.Threads.{Request, send, trigger, close, resume, pause, poll_write}
use crynet.SocketServer.Order.{is_dead}
use crynet.SocketServer.Cases.{first_of, not_both, both}

-- Nothing waits in the socket.
abbrev pub is_empty : Socket → Bool
is_empty s = is_nil s.high && (is_nil s.low && no_direct s.dw)

abbrev pub HasTrigger : List Request → Type 0
HasTrigger [] = ⊥
HasTrigger (trigger ∷ rs) = Unit
HasTrigger (send low o ∷ rs) = HasTrigger rs
HasTrigger (close shutdown ∷ rs) = HasTrigger rs
HasTrigger (resume ∷ rs) = HasTrigger rs
HasTrigger (pause ∷ rs) = HasTrigger rs

pub HasTrigger-append : (xs ys : List Request) → HasTrigger xs → HasTrigger (xs ++ ys)
HasTrigger-append [] ys h = absurd h
HasTrigger-append (trigger ∷ xs) ys h = tt
HasTrigger-append (send low o ∷ xs) ys h = HasTrigger-append xs ys h
HasTrigger-append (close shutdown ∷ xs) ys h = HasTrigger-append xs ys h
HasTrigger-append (resume ∷ xs) ys h = HasTrigger-append xs ys h
HasTrigger-append (pause ∷ xs) ys h = HasTrigger-append xs ys h

pub HasTrigger-last : (xs : List Request) → HasTrigger (xs ++ trigger ∷ [])
HasTrigger-last [] = tt
HasTrigger-last (trigger ∷ xs) = tt
HasTrigger-last (send low o ∷ xs) = HasTrigger-last xs
HasTrigger-last (close shutdown ∷ xs) = HasTrigger-last xs
HasTrigger-last (resume ∷ xs) = HasTrigger-last xs
HasTrigger-last (pause ∷ xs) = HasTrigger-last xs

-- Where something waits in a socket that can be written to, `writing` is set, or a request to set it
-- stands in the pipe.
abbrev pub Wakes : Socket → List Request → Type 0
Wakes s pipe = is_dead s.type ≡ false → is_empty s ≡ false → (s.writing ≡ true) ⊎ HasTrigger pipe

pub Wakes-append : (s : Socket) (pipe more : List Request) → Wakes s pipe → Wakes s (pipe ++ more)
Wakes-append s pipe more w = λ alive waits. elim (w alive waits) [
  | inl set ↦ inl set
  | inr comes ↦ inr (HasTrigger-append pipe more comes)
]

pub is_dead_not :
    (type : SocketType)
    → is_invalid type ≡ false
    → is_halfclose_write type ≡ false
    → is_dead type ≡ false
unfolding is_invalid is_halfclose_write
is_dead_not SocketType.invalid e f = e
is_dead_not SocketType.reserve e f = refl
is_dead_not SocketType.plisten e f = refl
is_dead_not SocketType.listen e f = refl
is_dead_not SocketType.connecting e f = refl
is_dead_not SocketType.connected e f = refl
is_dead_not SocketType.halfclose_read e f = refl
is_dead_not SocketType.halfclose_write e f = f
is_dead_not SocketType.paccept e f = refl
is_dead_not SocketType.bind e f = refl

and_true : (a b : Bool) → a ≡ true → b ≡ true → (a && b) ≡ true
and_true true b e f = f
and_true false b e f = e

pub and_false : (a b c : Bool) → (a && b) ≡ false → (a && (b && c)) ≡ false
and_false true true c e = absurd (not_both (sym e))
and_false true false c e = refl
and_false false b c e = refl

-- A socket with no more data is empty, unless its writing end is shut down.
nomore-is_empty :
    (s : Socket)
    → nomore_sending_data s ≡ true
    → is_halfclose_write s.type ≡ false
    → is_empty s ≡ true
unfolding nomore_sending_data send_buffer_empty
nomore-is_empty s more opened =
    let (lists, rest) =
      both (send_buffer_empty s) (no_direct s.dw && (s.sending == 0))
        (first_of _ (is_halfclose_write s.type) more opened) in
    let (high, low) = both (is_nil s.high) (is_nil s.low) lists in
    and_true (is_nil s.high) _ high
      (and_true (is_nil s.low) _ low (both (no_direct s.dw) (s.sending == 0) rest).0)

module _ (pipe : List Request) where
  pub force_close-Wakes : (s : Socket) → Wakes s pipe → Wakes (force_close s) pipe
  unfolding force_close
  force_close-Wakes s w =
      if_both (λ (t : Socket). Wakes t pipe) (is_invalid s.type) (λ _. w)
        (λ _ alive. absurd (not_both (sym alive)))

  close_write-Wakes : (s : Socket) → Wakes s pipe → Wakes (close_write s).1 pipe
  unfolding close_write enable_write
  close_write-Wakes s w =
      let P : Outcome × Socket → Type 0 = λ r. Wakes r.1 pipe in
      if_both P (s.closing || is_halfclose_read s.type) (λ _. force_close-Wakes s w)
        (λ _.
          if_both P (is_halfclose_write s.type) {x = (Outcome.socket_rst, s)} (λ _. w)
            (λ _ alive. absurd (not_both (sym alive))))

  abbrev pub Woken : Option (Outcome × List ℕ × Socket) → Type 0
  Woken none = Unit
  Woken (some (out, bytes, t)) = Wakes t pipe

  empty-Wakes : (s : Socket) → is_empty s ≡ true → Wakes s pipe
  empty-Wakes s e = λ _ waits. absurd (not_both (sym waits ∙ e))

  sent_all-Wakes :
      (poll_fails : Bool) (bytes : List ℕ) (s : Socket)
      → s.dw ≡ none
      → Woken (sent_all poll_fails bytes s)
  unfolding sent_all send_buffer_empty enable_write no_direct
  sent_all-Wakes poll_fails bytes s dw =
      if_both Woken (send_buffer_empty s && (s.wb_size == 0))
        (λ e.
          let (high, low) =
            both (is_nil s.high) (is_nil s.low) (both (send_buffer_empty s) (s.wb_size == 0) e).0 in
          let nothing =
            and_true (is_nil s.high) _ high (and_true (is_nil s.low) _ low (ap no_direct dw)) in
          let w = empty-Wakes s nothing in
          if_both Woken s.closing (λ _. force_close-Wakes s w)
            (λ _.
              if_both Woken (poll_fails && s.writing)
                (λ _. empty-Wakes (enable_write false s) nothing)
                (λ _.
                  if_both Woken (ltb 0 s.warn_size)
                    (λ _. empty-Wakes (record (enable_write false s) { warn_size = 0 }) nothing)
                    (λ _. empty-Wakes (enable_write false s) nothing))))
        (λ _. tt)

  raise_Wakes :
      (s : Socket) (low : List WriteBuffer)
      → s.writing ≡ true
      → Wakes (raise_uncomplete (record s { low = low })) pipe
  unfolding raise_uncomplete
  raise_Wakes s [] set = λ _ _. inl set
  raise_Wakes s (b ∷ bs) set = λ _ _. inl set

  -- The writes of a socket, where `writing` is set.
  send_low-Wakes :
      (poll_fails : Bool) (answers : List Answer) (before : List ℕ) (s : Socket)
      → s.dw ≡ none
      → s.writing ≡ true
      → Woken (send_low poll_fails answers before s)
  unfolding send_low count_written raise_uncomplete broken_write
  send_low-Wakes poll_fails answers before s dw set =
      let r = send_loop answers s.low in
      let s' = count_written (length r.bytes) (record s { low = r.list }) in
      if_both Woken r.broken (λ _. close_write-Wakes s' (λ _ _. inl set))
        (λ _.
          if_both Woken (list_uncomplete r.list) (λ _. raise_Wakes s' r.list set)
            (λ _.
              if_both Woken (is_nil r.list)
                (λ _. sent_all-Wakes poll_fails (before ++ r.bytes) s' dw) (λ _ _ _. inl set)))

  send_lists-Wakes :
      (poll_fails : Bool) (answers : List Answer) (s : Socket)
      → s.dw ≡ none
      → s.writing ≡ true
      → Woken (send_lists poll_fails answers s)
  unfolding send_lists count_written broken_write
  send_lists-Wakes poll_fails answers s dw set =
      let r = send_loop answers s.high in
      let s' = count_written (length r.bytes) (record s { high = r.list }) in
      if_both Woken (list_uncomplete s.low) (λ _. tt)
        (λ _.
          if_both Woken r.broken (λ _. close_write-Wakes s' (λ _ _. inl set))
            (λ _.
              if_both Woken (is_nil r.list)
                (λ _. send_low-Wakes poll_fails r.rest r.bytes s' dw set) (λ _ _ _. inl set)))

  take_direct_at :
      (s : Socket) (d : Option DirectWrite)
      → ((take_direct (record s { dw = d })).dw ≡ none)
        × ((take_direct (record s { dw = d })).writing ≡ s.writing)
  unfolding take_direct
  take_direct_at s none = (refl, refl)
  take_direct_at s (some d) = (refl, refl)

  send_buffer-Wakes :
      (locked poll_fails : Bool) (answers : List Answer) (s : Socket)
      → s.writing ≡ true
      → Woken (send_buffer locked poll_fails answers s)
  unfolding send_buffer
  send_buffer-Wakes locked poll_fails answers s set =
      let (dw, writing) = take_direct_at s s.dw in
      if_both Woken locked (λ _ _ _. inl set)
        (λ _. send_lists-Wakes poll_fails answers (take_direct s) dw (writing ∙ set))

  pub report_connect-Wakes :
      (error poll_fails : Bool) (s : Socket)
      → is_dead s.type ≡ false
      → Wakes s pipe
      → Wakes (report_connect error poll_fails s).1 pipe
  unfolding report_connect enable_write is_halfclose_write
  report_connect-Wakes error poll_fails s alive w =
      let P : Outcome × Socket → Type 0 = λ r. Wakes r.1 pipe in
      let s' = record s { type = SocketType.connected } in
      let idle_Wakes : nomore_sending_data s' ≡ true → Wakes (enable_write false s') pipe =
        λ more. empty-Wakes (enable_write false s') (nomore-is_empty s' more refl) in
      if_both P error {x = (socket_err, force_close s)} (λ _. force_close-Wakes s w)
        (λ _.
          if_both P (nomore_sending_data s') {y = (socket_open, s')}
            (λ more.
              if_both P (poll_fails && s.writing)
                {x = (socket_err, force_close (enable_write false s'))}
                {y = (socket_open, enable_write false s')}
                (λ _. force_close-Wakes (enable_write false s') (idle_Wakes more))
                (λ _. idle_Wakes more))
            (λ _ _. w alive))

  pub poll_write-Wakes :
      (locked poll_fails error : Bool) (answers : List Answer) (s : Socket) (type : SocketType)
      → s.writing ≡ true
      → Woken (poll_write locked poll_fails error answers (record s { type = type }))
  unfolding poll_write
  poll_write-Wakes locked poll_fails error answers s SocketType.connecting set =
      report_connect-Wakes error poll_fails (record s { type = SocketType.connecting }) refl
        (λ _ _. inl set)
  poll_write-Wakes locked poll_fails error answers s SocketType.invalid set = λ _ _. inl set
  poll_write-Wakes locked poll_fails error answers s SocketType.reserve set =
      send_buffer-Wakes locked poll_fails _ (record s { type = SocketType.reserve }) set
  poll_write-Wakes locked poll_fails error answers s SocketType.plisten set =
      send_buffer-Wakes locked poll_fails _ (record s { type = SocketType.plisten }) set
  poll_write-Wakes locked poll_fails error answers s SocketType.listen set =
      send_buffer-Wakes locked poll_fails _ (record s { type = SocketType.listen }) set
  poll_write-Wakes locked poll_fails error answers s SocketType.connected set =
      send_buffer-Wakes locked poll_fails _ (record s { type = SocketType.connected }) set
  poll_write-Wakes locked poll_fails error answers s SocketType.halfclose_read set =
      send_buffer-Wakes locked poll_fails _ (record s { type = SocketType.halfclose_read }) set
  poll_write-Wakes locked poll_fails error answers s SocketType.halfclose_write set =
      send_buffer-Wakes locked poll_fails _ (record s { type = SocketType.halfclose_write }) set
  poll_write-Wakes locked poll_fails error answers s SocketType.paccept set =
      send_buffer-Wakes locked poll_fails _ (record s { type = SocketType.paccept }) set
  poll_write-Wakes locked poll_fails error answers s SocketType.bind set =
      send_buffer-Wakes locked poll_fails _ (record s { type = SocketType.bind }) set

  pub forward_message_tcp-Wakes :
      (answer : ReadAnswer) (s : Socket)
      → is_invalid s.type ≡ false
      → Wakes s pipe
      → Wakes (forward_message_tcp answer s).1 pipe
  unfolding forward_message_tcp close_read enable_read
  forward_message_tcp-Wakes read_failed s valid w = w
  forward_message_tcp-Wakes read_again s valid w = w
  forward_message_tcp-Wakes ended s valid w =
      let P : Outcome × Socket → Type 0 = λ r. Wakes r.1 pipe in
      if_both P s.closing
        (λ _.
          if_both (λ t. Wakes t pipe) (nomore_sending_data s) (λ _. force_close-Wakes s w) (λ _. w))
        (λ _.
          if_both P (is_halfclose_read s.type) {x = (ignore, s)} (λ _. w)
            (λ _.
              if_both P (is_halfclose_write s.type) {x = (socket_close, force_close s)}
                {y = (socket_close, close_read s)} (λ _. force_close-Wakes s w)
                (λ opened _. w (is_dead_not s.type valid opened))))
  forward_message_tcp-Wakes (got n) s valid w =
      let P : Outcome × Socket → Type 0 = λ r. Wakes r.1 pipe in
      if_both P (is_halfclose_read s.type) {x = (ignore, s)} (λ _. w)
        (λ _.
          if_both P (n == s.read_size) {x = (socket_more, record s { read_size = s.read_size * 2 })}
            (λ _. w)
            (λ _.
              if_both P (ltb min_read_buffer s.read_size && ltb (n * 2) s.read_size)
                {x = (socket_data, record s { read_size = s.read_size / 2 })} {y = (socket_data, s)}
                (λ _. w) (λ _. w)))
