-- ===== src/SocketServer/Taken.antt =====
-- A text that the socket thread takes from the pipe, while it is still counted.
use crynet.Prelude.{
  ℕ, suc, ◌≡◌, ◌≢◌, refl, sym, ap, ◌∙◌, List, [], ◌∷◌, ◌++◌, Bool, true, false, ◌||◌, ◌⊎◌, inl, inr,
  Option, none, some, if◌then◌else◌, length, arith, if_both, ==-ne, ◌>>=◌,
}
use crynet.SocketServer.{
  SocketType, is_invalid, is_halfclose_write, is_paccept, is_listen, SendObject, Socket, Outcome,
  ignore, enable_write, is_nil, send_buffer_empty,
}
use crynet.SocketServer.Threads.{Request, send, Text, dec_sending_ref}
use crynet.SocketServer.Buffers.{
  buffer_of, append_sendbuffer, append_sendbuffer_low, warn, send_socket,
}
use crynet.SocketServer.Loop.{texts_of}
use crynet.SocketServer.Order.{
  texts-nil, keep, Live, Over, Inv, Counts, is_live, is_dead, pending, AllPlain,
}
use crynet.SocketServer.Cases.{not_both, both, nil_list, is_live_valid}
use crynet.SocketServer.Append.{
  total-append, AllFresh-append, past_low, repipe, append_high, append_low, text_of,
}

-- The guard of `send_socket`.
refuses : SocketType → Bool → Bool
refuses type closing = is_invalid type || (is_halfclose_write type || (is_paccept type || closing))

is_live_takes :
    (type : SocketType) (closing : Bool)
    → is_live type ≡ true
    → (refuses type closing ≡ closing) × (is_listen type ≡ false)
unfolding refuses is_invalid is_halfclose_write is_paccept is_listen
is_live_takes SocketType.connecting closing e = (refl, refl)
is_live_takes SocketType.connected closing e = (refl, refl)
is_live_takes SocketType.halfclose_read closing e = (refl, refl)
is_live_takes SocketType.invalid closing e = absurd (not_both e)
is_live_takes SocketType.reserve closing e = absurd (not_both e)
is_live_takes SocketType.plisten closing e = absurd (not_both e)
is_live_takes SocketType.listen closing e = absurd (not_both e)
is_live_takes SocketType.halfclose_write closing e = absurd (not_both e)
is_live_takes SocketType.paccept closing e = absurd (not_both e)
is_live_takes SocketType.bind closing e = absurd (not_both e)

is_dead-refuses :
    (type : SocketType) (closing : Bool) → is_dead type ≡ true → refuses type closing ≡ true
unfolding refuses is_invalid is_halfclose_write
is_dead-refuses SocketType.invalid closing e = refl
is_dead-refuses SocketType.halfclose_write closing e = refl
is_dead-refuses SocketType.connecting closing e = absurd (not_both e)
is_dead-refuses SocketType.connected closing e = absurd (not_both e)
is_dead-refuses SocketType.halfclose_read closing e = absurd (not_both e)
is_dead-refuses SocketType.reserve closing e = absurd (not_both e)
is_dead-refuses SocketType.plisten closing e = absurd (not_both e)
is_dead-refuses SocketType.listen closing e = absurd (not_both e)
is_dead-refuses SocketType.paccept closing e = absurd (not_both e)
is_dead-refuses SocketType.bind closing e = absurd (not_both e)

-- The result of a request keeps the invariant.
abbrev pub Done : List Request → List ℕ → List Text → Option (Outcome × Socket) → Type 0
Done pipe wire asked none = ⊥
Done pipe wire asked (some r) = Inv r.1 pipe wire asked

-- A text that is taken from the pipe, while it is still counted.
module _ (priority : Bool) (o : SendObject) (rs : List Request) (wire : List ℕ)
    (asked : List Text) where
  abbrev Taken : Outcome × Socket → Type 0
  Taken r =
      (r.1.sending ≡ suc (length (pending rs)))
      × Inv (record r.1 { sending = length (pending rs) }) rs wire asked

  warn-Taken : (s : Socket) → Taken (ignore, s) → Taken (warn s)
  unfolding warn
  warn-Taken s h = if_both Taken _ (λ _. h) (λ _. h)

  pub dec_sending_ref-Done :
      (r : Outcome × Socket)
      → Taken r
      → Done rs wire asked (dec_sending_ref r.1 >>= λ t. some (r.0, t))
  unfolding dec_sending_ref
  dec_sending_ref-Done r (count, inv) =
      let positive : r.1.sending ≢ 0 = λ e. absurd (omega (arith, count, e)) in
      rw (==-ne r.1.sending 0 positive) (omega (arith, count), inv.1, inv.2, inv.3)

  module _ (s : Socket) (sending : s.sending ≡ length (pending (send priority o ∷ rs)))
      (plain : AllPlain (send priority o ∷ rs))
      (counts : Counts s.type s.wb_size s.high s.low) where
    -- The text comes too late.
    refused :
        ((is_live s.type ≡ true)
            × (s.closing ≡ true)
            × Live s.dw s.high s.low s.closing (send priority o ∷ rs) wire asked)
          ⊎ ((is_dead s.type ≡ true) × Over wire asked)
        → Taken (ignore, s)
    refused (inl (live, closing, v)) = (
      sending,
      (
        refl,
        plain.1,
        counts,
        inl (live, repipe v s.closing rs (λ e. absurd (not_both (sym e ∙ closing)))),
      ),
    )
    refused (inr (dead, over)) = (sending, (refl, plain.1, counts, inr (dead, over)))

    module _ (live : is_live s.type ≡ true) (going : s.closing ≡ false)
        (v : Live s.dw s.high s.low s.closing (send priority o ∷ rs) wire asked) where
      high_Taken :
          ((p : Bool)
            → keep p (v.second ++ text_of priority o ∷ pending rs)
              ≡ keep p (text_of priority o ∷ (v.second ++ pending rs)))
          → Taken (ignore, append_sendbuffer o s)
      unfolding append_sendbuffer buffer_of
      high_Taken past =
          let (size, fresh) = counts (is_live_valid s.type live) in
          (
            sending,
            (
              refl,
              plain.1,
              λ _. (omega (arith, size, total-append s.high (buffer_of o ∷ [])), fresh),
              inl (live, append_high o v going past),
            ),
          )

    low_Taken :
        is_live s.type ≡ true
        → s.closing ≡ false
        → priority ≡ true
        → o.text ≡ o.buffer
        → Live s.dw s.high s.low s.closing (send priority o ∷ rs) wire asked
        → Taken (ignore, append_sendbuffer_low o s)
    unfolding append_sendbuffer_low buffer_of
    low_Taken live going is_low plain_object v =
        let (size, fresh) = counts (is_live_valid s.type live) in
        (
          sending,
          (
            refl,
            plain.1,
            λ _. (
              omega (arith, size, total-append s.low (buffer_of o ∷ [])),
              AllFresh-append s.low (buffer_of o ∷ []) fresh (plain_object, tt),
            ),
            inl (live, append_low o v going is_low),
          ),
        )

-- A text for a socket with empty lists goes to the high list, whatever its priority.
empty_Taken :
    (priority : Bool) (o : SendObject) (rs : List Request) (wire : List ℕ) (asked : List Text)
    (s : Socket)
    → s.sending ≡ length (pending (send priority o ∷ rs))
    → AllPlain (send priority o ∷ rs)
    → Counts s.type s.wb_size s.high s.low
    → is_live s.type ≡ true
    → s.closing ≡ false
    → send_buffer_empty s ≡ true
    → Live s.dw s.high s.low s.closing (send priority o ∷ rs) wire asked
    → Taken priority o rs wire asked (ignore, append_sendbuffer o s)
unfolding send_buffer_empty
empty_Taken priority o rs wire asked s sending plain counts live going empty v =
    let no_low = nil_list s.low (both (is_nil s.high) (is_nil s.low) empty).1 in
    let no_second = texts-nil v.second (sym v.low_texts ∙ ap texts_of no_low) in
    high_Taken priority o rs wire asked s sending plain counts live going v (λ p.
      ap (λ l. keep p (l ++ text_of priority o ∷ pending rs)) no_second
      ∙ ap (λ l. keep p (text_of priority o ∷ (l ++ pending rs))) (sym no_second))

listed_Taken :
    (priority : Bool) (o : SendObject) (rs : List Request) (wire : List ℕ) (asked : List Text)
    (s : Socket)
    → s.sending ≡ length (pending (send priority o ∷ rs))
    → AllPlain (send priority o ∷ rs)
    → Counts s.type s.wb_size s.high s.low
    → is_live s.type ≡ true
    → s.closing ≡ false
    → Live s.dw s.high s.low s.closing (send priority o ∷ rs) wire asked
    → Taken priority o rs wire asked
        (ignore, if priority then append_sendbuffer_low o s else append_sendbuffer o s)
listed_Taken true o rs wire asked s sending plain counts live going v =
    low_Taken true o rs wire asked s sending plain counts live going refl plain.0 v
listed_Taken false o rs wire asked s sending plain counts live going v =
    high_Taken false o rs wire asked s sending plain counts live going v
      (past_low v.second (pending rs) o.bytes v.low_only)

module _ (poll_fails : Bool) (rs : List Request) (wire : List ℕ) (asked : List Text)
    (s : Socket) where
  pub send_socket-Taken :
      (priority : Bool) (o : SendObject)
      → Inv s (send priority o ∷ rs) wire asked
      → Taken priority o rs wire asked (send_socket poll_fails priority o s)
  unfolding send_socket refuses enable_write
  send_socket-Taken priority o (sending, plain, counts, inr (dead, over)) =
      if_both (Taken priority o rs wire asked) (refuses s.type s.closing)
        (λ _. refused priority o rs wire asked s sending plain counts (inr (dead, over)))
        (λ e. absurd (not_both (sym e ∙ is_dead-refuses s.type s.closing dead)))
  send_socket-Taken priority o (sending, plain, counts, inl (live, v)) =
      let T = Taken priority o rs wire asked in
      let (takes, no_listen) = is_live_takes s.type s.closing live in
      if_both T (refuses s.type s.closing)
        (λ e.
          refused priority o rs wire asked s sending plain counts (inl (live, sym takes ∙ e, v)))
        (λ e.
          let going = sym takes ∙ e in
          if_both T (is_listen s.type) (λ e. absurd (not_both (sym no_listen ∙ e)))
            (λ _.
              if_both T (send_buffer_empty s)
                (λ empty.
                  let first =
                    empty_Taken priority o rs wire asked s sending plain counts live going empty
                      v in
                  if_both T _ (λ _. first)
                    (λ _.
                      warn-Taken priority o rs wire asked
                        (enable_write true (append_sendbuffer o s)) first))
                (λ _.
                  warn-Taken priority o rs wire asked _
                    (listed_Taken priority o rs wire asked s sending plain counts live going v))))
