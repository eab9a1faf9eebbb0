-- ===== src/SocketServer/Writes.antt =====
-- The writes of the socket thread keep what holds of the socket, and no assertion fails.
use crynet.Prelude.{
  ℕ, ◌+◌, ◌≡◌, refl, sym, ap, ◌∙◌, List, [], ◌∷◌, ◌++◌, Bool, true, false, ◌&&◌, inl, inr, Option,
  none, some, length, drop, arith, ltb, ◌==◌, ==-eq, if_both,
}
use crynet.SocketServer.{
  is_invalid, WriteBuffer, Socket, Outcome, Answer, send_loop, count_written, list_uncomplete,
  is_nil, send_buffer_empty, raise_uncomplete, enable_write, DirectWrite,
}
use crynet.SocketServer.Loop.{texts_of, total, AllFresh, send_loop-Sends, fresh_complete}
use crynet.SocketServer.Fresh.{send_loop-AllFresh, broken_fresh}
use crynet.SocketServer.Threads.{Request, Text}
use crynet.SocketServer.Buffers.{broken_write, sent_all, send_low, send_lists, take_direct}
use crynet.SocketServer.Order.{
  texts, Live, Counts, Inv, is_live, force_close-Inv, close_write-Inv, pending, AllPlain,
}
use mathlib.Core.List.{append_assoc}
use mathlib.Core.Path.{subst}
use crynet.SocketServer.Cases.{not_both, both, nil_total, nil_list, is_live_valid}
use crynet.SocketServer.Advance.{Live-high, Live-low}

-- The result of an event keeps the invariant.
abbrev pub Keeps : List Request → List ℕ → List Text → Option (Outcome × List ℕ × Socket) → Type 0
Keeps pipe wire asked none = ⊥
Keeps pipe wire asked (some (r, bytes, s)) = Inv s pipe (wire ++ bytes) asked

module _ {pipe : List Request} {asked : List Text} where
  pub sent_all-Keeps :
      (poll_fails : Bool) (wire bytes : List ℕ) (s : Socket)
      → is_invalid s.type ≡ false
      → send_buffer_empty s ≡ true
      → Inv s pipe (wire ++ bytes) asked
      → Keeps pipe wire asked (sent_all poll_fails bytes s)
  unfolding sent_all send_buffer_empty enable_write
  sent_all-Keeps poll_fails wire bytes s valid empty inv =
      let (high, low) = both (is_nil s.high) (is_nil s.low) empty in
      let (size, fresh) = inv.2 valid in
      let zero_size : s.wb_size ≡ 0 = omega (arith, nil_total s.high high, nil_total s.low low) in
      let ok : (send_buffer_empty s && (s.wb_size == 0)) ≡ true =
        rw (empty, ==-eq s.wb_size 0 zero_size) refl in
      let P = Keeps pipe wire asked in
      if_both P (send_buffer_empty s && (s.wb_size == 0))
        (λ _.
          if_both P s.closing (λ _. force_close-Inv s inv)
            (λ _.
              if_both P (poll_fails && s.writing) (λ _. inv)
                (λ _. if_both P (ltb 0 s.warn_size) (λ _. inv) (λ _. inv))))
        (λ e. absurd (not_both (sym e ∙ ok)))

  pub broken_write-Keeps :
      (wire bytes : List ℕ) (s : Socket)
      → is_invalid s.type ≡ false
      → Inv s pipe (wire ++ bytes) asked
      → Keeps pipe wire asked (some (broken_write bytes s))
  unfolding broken_write
  broken_write-Keeps wire bytes s valid inv = close_write-Inv s valid inv

-- A socket whose high list is empty, with no direct write left.
abbrev cleared : Socket → Socket
cleared s = record s { high = []; dw = none }

-- The low list is sent.
module _ (poll_fails : Bool) (answers : List Answer) (before : List ℕ) (s : Socket)
    (pipe : List Request) (wire : List ℕ) (asked : List Text) (live : is_live s.type ≡ true)
    (count : s.sending ≡ length (pending pipe)) (plain : AllPlain pipe)
    (size : s.wb_size ≡ total s.low) (fresh : AllFresh s.low)
    (v : Live none [] s.low s.closing pipe (wire ++ before) asked) where
  send_low-Keeps : Keeps pipe wire asked (send_low poll_fails answers before (cleared s))
  unfolding send_low count_written raise_uncomplete send_buffer_empty is_nil
  send_low-Keeps =
      let r = send_loop answers s.low in
      let q = send_loop-Sends answers s.low [] (texts v.second) v.low_texts in
      let valid = is_live_valid s.type live in
      let s' = count_written (length r.bytes) (record (cleared s) { low = r.list }) in
      let left = q.total_left in
      let P = Keeps pipe wire asked in
      let moved : (high' low' : List WriteBuffer)
          → texts_of high' ≡ q.front'
          → texts_of low' ≡ q.waiting
          → Live none high' low' s.closing pipe (wire ++ (before ++ r.bytes)) asked =
        λ high' low' a b.
          subst (λ w. Live none high' low' s.closing pipe w asked)
            (append_assoc wire before r.bytes) (Live-low r v q high' low' a b) in
      elim (send_loop-AllFresh s.low (texts v.second) r fresh q) [
        | inl (complete, fresh', whole) ↦
            let counts : Counts s.type s'.wb_size [] r.list = λ _. (omega (arith, left), fresh') in
            let inv : Inv s' pipe (wire ++ (before ++ r.bytes)) asked = (
              count,
              plain,
              counts,
              inl (live, moved [] r.list (sym whole) (q.left ∙ ap (λ l. l ++ q.waiting) whole)),
            ) in
            if_both P r.broken (λ _. broken_write-Keeps wire (before ++ r.bytes) s' valid inv)
              (λ _.
                if_both P (list_uncomplete r.list) (λ e. absurd (not_both (sym complete ∙ e)))
                  (λ _.
                    if_both P (is_nil r.list)
                      (λ e. sent_all-Keeps poll_fails wire (before ++ r.bytes) s' valid e inv)
                      (λ _. inv)))
        | inr (uncomplete, b, bs, same, fresh', part) ↦
            if_both P r.broken
              (λ e. absurd (
                not_both
                  (sym (fresh_complete r.list (broken_fresh answers s.low fresh e)) ∙ uncomplete)))
              (λ _.
                if_both P (list_uncomplete r.list)
                  (λ _.
                    subst
                      (λ (l : List WriteBuffer).
                        Inv (raise_uncomplete (record s' { low = l })) pipe
                          (wire ++ (before ++ r.bytes)) asked)
                      (sym same)
                      (
                        count,
                        plain,
                        λ _. (omega (arith, left, ap total same), fresh'),
                        inl (
                          live,
                          moved (b ∷ []) bs (sym part) (
                              ap (drop 1)
                                (ap texts_of (sym same) ∙ q.left ∙ ap (λ l. l ++ q.waiting) part)),
                        ),
                      ))
                  (λ e. absurd (not_both (sym e ∙ uncomplete))))
      ]

-- Both lists are sent, with no direct write left.
module _ (poll_fails : Bool) (answers : List Answer) (s : Socket) (pipe : List Request)
    (wire : List ℕ) (asked : List Text) (live : is_live s.type ≡ true)
    (count : s.sending ≡ length (pending pipe)) (plain : AllPlain pipe)
    (size : s.wb_size ≡ total s.high + total s.low) (fresh : AllFresh s.low)
    (v : Live none s.high s.low s.closing pipe wire asked) where
  send_lists-Keeps : Keeps pipe wire asked (send_lists poll_fails answers (record s { dw = none }))
  unfolding send_lists count_written
  send_lists-Keeps =
      let r = send_loop answers s.high in
      let q = send_loop-Sends answers s.high v.front (texts v.first) v.high_texts in
      let left = q.total_left in
      let now = Live-high s.high r v q in
      let s' = count_written (length r.bytes) (record s { high = r.list; dw = none }) in
      let P = Keeps pipe wire asked in
      let inv : Inv s' pipe (wire ++ r.bytes) asked =
        (count, plain, λ _. (omega (arith, left), fresh), inl (live, now)) in
      if_both P (list_uncomplete s.low)
        (λ e. absurd (not_both (sym (fresh_complete s.low fresh) ∙ e)))
        (λ _.
          if_both P r.broken
            (λ _. broken_write-Keeps wire r.bytes s' (is_live_valid s.type live) inv)
            (λ _.
              if_both P (is_nil r.list)
                (λ e.
                  let none_left = nil_list r.list e in
                  subst
                    (λ (l : List WriteBuffer).
                      P (send_low poll_fails r.rest r.bytes (record s' { high = l })))
                    (sym none_left)
                    (send_low-Keeps poll_fails r.rest r.bytes s' pipe wire asked live count plain
                      (omega (arith, left, ap total none_left)) fresh
                      (subst
                        (λ (l : List WriteBuffer).
                          Live none l s.low s.closing pipe (wire ++ r.bytes) asked)
                        none_left now)))
                (λ _. inv)))

-- The direct write is taken first.
pub send_direct-Keeps :
    (poll_fails : Bool) (answers : List Answer) (s : Socket) (dw : Option DirectWrite)
    (pipe : List Request) (wire : List ℕ) (asked : List Text)
    → is_live s.type ≡ true
    → s.sending ≡ length (pending pipe)
    → AllPlain pipe
    → s.wb_size ≡ total s.high + total s.low
    → AllFresh s.low
    → Live dw s.high s.low s.closing pipe wire asked
    → Keeps pipe wire asked (send_lists poll_fails answers (take_direct (record s { dw = dw })))
unfolding take_direct
send_direct-Keeps poll_fails answers s none pipe wire asked live count plain size fresh v =
    send_lists-Keeps poll_fails answers s pipe wire asked live count plain size fresh v
send_direct-Keeps poll_fails answers s (some d) pipe wire asked live count plain size fresh v =
    send_lists-Keeps poll_fails answers (take_direct (record s { dw = some d })) pipe wire asked
      live count plain (omega arith) fresh
      (record {
        begun = v.begun;
        first = v.first;
        second = v.second;
        late = v.late;
        front = v.front;
        written = v.written;
        high_texts = v.high_texts;
        low_texts = v.low_texts;
        low_only = v.low_only;
        coming = v.coming;
        order = v.order;
      })
