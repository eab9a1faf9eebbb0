-- ===== src/Handle/Reach.antt =====
-- Every table that registrations and retirements lead to, where each handle is stored in its context before
-- the next call.
use crynet.Prelude.{
  ◌%◌, ℕ, ◌-◌, ◌*◌, ◌^◌, ◌≤◌, ◌≡◌, refl, sym, ap, ◌∙◌, Option, none, some, arith, Option-cases, inl,
  inr, leb, false,
}
use mathlib.Core.Path.{subst}
use mathlib.Core.Option.{none-ne-some, some-injective}
use crynet.Handle.{
  Storage, init, register, new_context, store_handle, retire, grab, scan, grow, handle_mask,
}
use crynet.Handle.Valid.{IsValid, IsOwn, init-IsValid}
use crynet.Prelude.Residues.{ltb_cases}
use crynet.Handle.Register.{IsAbsent, grab_cases, Registered}
use crynet.Handle.Room.{new_context-Registered, new_context_found}
use crynet.Handle.Retire.{retire-Retired}

-- The tables of a process: a context that stands in no slot is registered and its handle stored in it,
-- with no other call in between, or a handle is retired.
pub data Reachable (harbor : ℕ) : Storage → Type 0 where
  started : Reachable harbor (init harbor)
  registered :
      (ctx handle : ℕ) (s s' : Storage)
      → Reachable harbor s
      → IsAbsent s ctx
      → new_context 2 ctx s ≡ some (handle, s')
      → Reachable harbor s'
  retired :
      (handle ret : ℕ) (out : Option ℕ) (s s' : Storage)
      → Reachable harbor s
      → retire handle s ≡ (ret, out, s')
      → Reachable harbor s'

-- What stays true of the last part of a result.
abbrev IsKept : ℕ → ℕ × Option ℕ × Storage → Type 0
IsKept harbor x = IsValid x.2 × (x.2.harbor ≡ (init harbor).harbor)

grab_at :
    {s : Storage} (v : IsValid s) (g c : ℕ)
    → grab s g ≡ some c
    → (s.slot (g % s.slot_size) ≡ some c) × (s.handle_of c ≡ g)
grab_at {s} v g c e = elim (grab_cases v g) [
  | inl (_, r) ↦ absurd (none-ne-some _ (sym r ∙ e))
  | inr (inl (d, at, same, r)) ↦
      let one : d ≡ c = some-injective _ _ (sym r ∙ e) in
      (at ∙ ap some one, ap s.handle_of (sym one) ∙ same)
  | inr (inr (_, _, _, r)) ↦ absurd (none-ne-some _ (sym r ∙ e))
]

grow_full : (s : Storage) → 2 ^ 24 ≤ s.slot_size → grow s ≡ none
unfolding grow
grow_full s big =
    let over : leb (s.slot_size * 2 - 1) handle_mask ≡ false = ground arith in rw (grow, over) refl

-- A registration that succeeds, whatever the size.
register_done :
    (s : Storage)
    → IsValid s
    → (ctx handle : ℕ) (s' : Storage) → IsAbsent s ctx
    → new_context 2 ctx s ≡ some (handle, s')
    → Registered s s' ctx handle
unfolding new_context register store_handle
register_done s v ctx handle s' absent e = elim (ltb_cases s.slot_size (2 ^ 24)) [
  | inl small ↦
      let (h, t, r, done) = new_context-Registered 0 s v small ctx absent in
      matched h t (sym r ∙ e) done
  | inr big ↦ elim (Option-cases (scan s.slot_size s.slot s.slot_size s.handle_index)) [
    | inl no_room ↦ absurd (none-ne-some _ (rw (register, no_room, grow_full s big) at e))
    | inr (found, f) ↦
        let (h, t, r, done) =
          new_context_found 1 v ctx absent (λ no_room. none-ne-some _ (sym no_room ∙ f)) in
        matched h t (sym r ∙ e) done
  ]
]
  where
    matched :
        (h : ℕ) (t : Storage)
        → ◌≡◌ {A = Option (ℕ × Storage)} (some (h, t)) (some (handle, s'))
        → Registered s t ctx h
        → Registered s s' ctx handle
    matched h t same done =
        let p = some-injective _ _ same in
        subst (λ (x : ℕ × Storage). Registered s x.1 ctx x.0) p done

-- Every table that is reached is valid, and the harbor stays.
reached :
    (harbor : ℕ) (s : Storage) → Reachable harbor s → IsValid s × (s.harbor ≡ (init harbor).harbor)
reached harbor _ started = (init-IsValid harbor, refl)
reached harbor _ (registered ctx handle s s' r absent e) =
    let (v, same) = reached harbor s r in
    let done = register_done s v ctx handle s' absent e in (done.valid, done.harbor ∙ same)
reached harbor _ (retired handle ret out s s' r e) =
    let (v, kept) = reached harbor s r in
    elim (retire-Retired s v handle) [
      | inl (_, same) ↦ subst (IsKept harbor) (sym same ∙ e) (v, kept)
      | inr (c, t, _, same, done) ↦
          subst (IsKept harbor) (sym same ∙ e) (done.valid, done.harbor ∙ kept)
    ]

-- In every table that registrations and retirements lead to, where each registered context has its
-- handle stored before the next call, a handle that finds a context is a handle of this node, with its harbor above and a number other than 0 below, and no other handle
-- finds the same context.
pub grab-IsOwn :
    (harbor : ℕ) (s : Storage)
    → Reachable harbor s
    → (handle c : ℕ) → grab s handle ≡ some c
    → IsOwn (init harbor).harbor handle × ((h : ℕ) → grab s h ≡ some c → h ≡ handle)
grab-IsOwn harbor s r handle c e =
    let (v, kept) = reached harbor s r in
    let (at, same) = grab_at v handle c e in
    let (_, own) = v.slots (handle % s.slot_size) c at in
    (
      subst (λ (b : ℕ). IsOwn b handle) kept (subst (IsOwn s.harbor) same own),
      λ h f. let (_, other) = grab_at v h c f in sym other ∙ same,
    )
