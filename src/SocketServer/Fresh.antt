-- ===== src/SocketServer/Fresh.antt =====
-- What one round of writes leaves of buffers of which nothing was written.
use crynet.Prelude.{
  ℕ, zero, suc, ◌+◌, ◌≡◌, ◌≢◌, refl, sym, ap, ◌∙◌, List, [], ◌∷◌, true, false, ◌⊎◌, inl, inr, ◌==◌,
  ==-ne, length, drop, arith, Bool-cases,
}
use crynet.SocketServer.{
  WriteBuffer, Answer, failed, min_of, Sending, advance, send_loop, list_uncomplete,
}
use mathlib.Core.Path.{subst}
use crynet.SocketServer.Loop.{AllFresh, fresh_complete, Sends}
use crynet.SocketServer.Cases.{not_both}

AllFresh-drop : (k : ℕ) (bs : List WriteBuffer) → AllFresh bs → AllFresh (drop k bs)
AllFresh-drop zero bs f = f
AllFresh-drop (suc k) [] f = tt
AllFresh-drop (suc k) (b ∷ bs) (_, f) = AllFresh-drop k bs f

-- After a round on fresh buffers the rest is fresh, but for a head that is not complete.
pub send_loop-AllFresh :
    (list : List WriteBuffer) (q : List (List ℕ)) (r : Sending)
    → AllFresh list
    → (s : Sends list [] q r)
    → ((list_uncomplete r.list ≡ false) × AllFresh r.list × (s.front' ≡ []))
      ⊎ ((list_uncomplete r.list ≡ true)
          × (b : WriteBuffer) × (bs : List WriteBuffer) × (r.list ≡ b ∷ bs)
          × AllFresh bs
          × (s.front' ≡ b.bytes ∷ []))
unfolding list_uncomplete
send_loop-AllFresh list q r fresh s = elim s.shape [
  | inl w ↦
      let kept = subst AllFresh (sym w.same) (AllFresh-drop w.sent list fresh) in
      inl (fresh_complete r.list kept, kept, w.unbegun refl)
  | inr p ↦
      let kept = subst AllFresh p.at (AllFresh-drop p.sent list fresh) in
      let moved : p.head.ptr + p.count ≢ p.head.buffer =
        λ e. absurd (omega (arith, kept.0, p.some_bytes)) in
      inr (
        ap list_uncomplete p.same ∙ rw (==-ne (p.head.ptr + p.count) p.head.buffer moved) refl,
        advance p.count p.head,
        p.tail,
        p.same,
        kept.1,
        p.begun refl,
      )
]

-- A round that fails leaves fresh buffers.
pub broken_fresh :
    (answers : List Answer) (bs : List WriteBuffer)
    → AllFresh bs
    → (send_loop answers bs).broken ≡ true
    → AllFresh (send_loop answers bs).list
unfolding send_loop
broken_fresh answers [] f e = tt
broken_fresh [] (b ∷ bs) f e = f
broken_fresh (Answer.interrupted ∷ answers) (b ∷ bs) f e = broken_fresh answers (b ∷ bs) f e
broken_fresh (Answer.again ∷ answers) (b ∷ bs) f e = f
broken_fresh (failed ∷ answers) (b ∷ bs) f e = f
broken_fresh (Answer.wrote n ∷ answers) (b ∷ bs) f e =
    elim (Bool-cases (min_of n (length b.bytes) == length b.bytes)) [
      | inl t ↦ rw (send_loop, t) (broken_fresh answers bs f.1 (rw (send_loop, t) at e))
      | inr t ↦ absurd (not_both (rw (send_loop, t) at e))
    ]
