-- ===== src/Handle/Room.antt =====
-- A doubled array has room, so that the second search succeeds, and registration with it.
use Prim.Native.Nat.{bit_or}
use crynet.Prelude.{
  ℕ, suc, ◌+◌, ◌-◌, ◌*◌, ◌%◌, ◌^◌, ◌≤◌, ◌<◌, ◌≡◌, refl, sym, ap, ◌∙◌, none, some, arith,
  Option-cases, inl, inr, ◌≢◌,
}
use mathlib.Core.Path.{subst}
use mathlib.Core.Option.{some-injective, none-ne-some}
use native.Mathlib.Nat.{add-mul-mod_self_right}
use crynet.Prelude.Bits.{pow_pos, pow_split}
use crynet.Prelude.Residues.{reach}
use crynet.Handle.{Storage, register, new_context, store_handle, scan}
use crynet.Handle.Valid.{IsValid, IsOwn, size_pos}
use crynet.Handle.Scan.{scan-some, scan-none}
use crynet.Handle.Double.{Grown, grow_lem}
use crynet.Handle.Register.{Registered, IsAbsent, stored, stored-Registered}

size_least : {s : Storage} → IsValid s → 4 ≤ s.slot_size
size_least {s} v =
    let e : 2 + (v.bits - 2) ≡ v.bits = omega (arith, v.bounds) in
    let split = pow_split 2 (v.bits - 2) in
    omega (arith, v.size, sym (ap (λ (k : ℕ). 2 ^ k) e), split, pow_pos (v.bits - 2))

-- A search that fails finds every slot but the first occupied.
occupied :
    {s : Storage}
    → IsValid s
    → scan s.slot_size s.slot s.slot_size s.handle_index ≡ none
    → (r : ℕ) → 1 ≤ r
    → r < s.slot_size
    → (c : ℕ) × (s.slot r ≡ some c)
occupied {s} v e r lo hi =
    let (j, lt, at) = reach s.slot_size s.handle_index r (size_pos v) hi in
    elim (Option-cases (s.slot r)) [
      | inl empty ↦ absurd (scan-none s.slot_size v s.handle_index j r v.index e lt at lo empty)
      | inr full ↦ full
    ]

-- Slots 1 and `slot_size + 1` of the new array hold what slot 1 of the old one held.
room :
    {s s' : Storage}
    → IsValid s
    → Grown s s'
    → (scan s'.slot_size s'.slot s'.slot_size s'.handle_index ≢ none)
room {s} {s'} v g e =
    let n = s.slot_size in
    let least = size_least v in
    let (c, at) = occupied g.valid e 1 (omega arith) (omega (arith, g.size)) in
    let (d, at') = occupied g.valid e (n + 1) (omega arith) (omega (arith, g.size)) in
    let turn : n + 1 ≡ 1 + 1 * n = omega arith in
    let back : (n + 1) % n ≡ 1 % n = ap (λ (k : ℕ). k % n) turn ∙ add-mul-mod_self_right 1 1 n in
    let one : c ≡ d =
      some-injective _ _ (sym (g.before 1 c at) ∙ ap s.slot (sym back) ∙ g.before (n + 1) d at') in
    let (hc, _) = g.valid.slots 1 c at in
    let (hd, _) = g.valid.slots (n + 1) d at' in
    let clash : 1 ≡ n + 1 = sym hc ∙ ap (λ (k : ℕ). s'.handle_of k % s'.slot_size) one ∙ hd in
    absurd (omega arith)

-- A registration after a doubling is one before it.
Registered-Grown :
    {s s' s'' : Storage}
    → Grown s s'
    → (ctx handle : ℕ) → Registered s' s'' ctx handle
    → Registered s s'' ctx handle
Registered-Grown g ctx handle r =
    let (harbor, names, _) = g.kept in
    record {
      valid = r.valid;
      own = subst (λ (b : ℕ). IsOwn b handle) harbor r.own;
      fresh = sym (g.same handle) ∙ r.fresh;
      found = r.found;
      others = λ h ne. r.others h ne ∙ g.same h;
      names = r.names ∙ names;
      harbor = r.harbor ∙ harbor;
    }

IsAbsent-Grown : {s s' : Storage} → Grown s s' → (ctx : ℕ) → IsAbsent s ctx → IsAbsent s' ctx
IsAbsent-Grown {s} g ctx absent i e = absent (i % s.slot_size) (g.before i ctx e)

pub new_context_found :
    (fuel : ℕ) {s : Storage}
    → IsValid s
    → (ctx : ℕ) → IsAbsent s ctx
    → scan s.slot_size s.slot s.slot_size s.handle_index ≢ none
    → (handle : ℕ) × (s' : Storage) × (new_context (suc fuel) ctx s ≡ some (handle, s'))
      × Registered s s' ctx handle
unfolding new_context register store_handle
new_context_found fuel {s} v ctx absent some_room =
    elim (Option-cases (scan s.slot_size s.slot s.slot_size s.handle_index)) [
      | inl e ↦ absurd (some_room e)
      | inr ((hash, h), e) ↦
          let free = scan-some s.slot_size s.slot s.slot_size s.handle_index hash h (v.index.0) e in
          (
            bit_or h s.harbor,
            stored s hash h (bit_or h s.harbor) ctx,
            rw (register, e) refl,
            stored-Registered v hash h ctx absent free,
          )
    ]

-- While the slots are fewer than 2 ^ 24, two rounds are enough to register a context that stands in no
-- slot: it gets a handle of this node that nobody has. When this handle is stored in it before another
-- thread uses the table, the handle finds it, every other handle finds what it found before, and the
-- table stays valid.
pub new_context-Registered :
    (fuel : ℕ) (s : Storage)
    → IsValid s
    → s.slot_size < 2 ^ 24
    → (ctx : ℕ) → IsAbsent s ctx
    → (handle : ℕ) × (s' : Storage) × (new_context (suc (suc fuel)) ctx s ≡ some (handle, s'))
      × Registered s s' ctx handle
unfolding new_context register store_handle
new_context-Registered fuel s v small ctx absent =
    elim (Option-cases (scan s.slot_size s.slot s.slot_size s.handle_index)) [
      | inr (found, e) ↦
          new_context_found (suc fuel) v ctx absent (λ no_room. none-ne-some _ (sym no_room ∙ e))
      | inl e ↦
          let (s', r, g) = grow_lem v small in
          let (handle, s'', r', done) =
            new_context_found fuel g.valid ctx (IsAbsent-Grown g ctx absent) (room v g) in
          (handle, s'', rw (register, e, r) r', Registered-Grown g ctx handle done)
    ]
