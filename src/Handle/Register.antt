-- ===== src/Handle/Register.antt =====
-- `skynet_handle_register`: the context gets a handle of its own, and nothing else changes hands.
use Prim.Native.Nat.{bit_or}
use crynet.Prelude.{
  ℕ, ◌+◌, ◌%◌, ◌^◌, ◌≤◌, ◌<◌, ◌≡◌, ◌≢◌, refl, update, none, some, ap, ◌∙◌, ◌⊎◌, inl, inr,
  update_cases, update_self, sym, arith, Option-cases, ==-eq, ==-ne, update_cases, inl, inr,
}
use mathlib.Core.Path.{subst}
use mathlib.Core.Option.{none-ne-some, some-injective}
use native.Mathlib.Decide.{ℕ_discrete}
use crynet.Handle.{Storage, grab}
use crynet.Handle.Valid.{IsValid, IsOwn, mask-size, bit_or-IsOwn, mod_harbor}
use crynet.Handle.Scan.{IsFree}

-- What `grab` finds: the context in the slot of the handle, when it has this handle.
pub grab-some :
    {s : Storage} (v : IsValid s) (g ctx : ℕ)
    → s.slot (g % s.slot_size) ≡ some ctx
    → s.handle_of ctx ≡ g
    → grab s g ≡ some ctx
unfolding grab
grab-some v g ctx e same = rw (grab, mask-size v g, e, ==-eq _ _ same) refl

pub grab_other :
    {s : Storage} (v : IsValid s) (g ctx : ℕ)
    → s.slot (g % s.slot_size) ≡ some ctx
    → s.handle_of ctx ≢ g
    → grab s g ≡ none
unfolding grab
grab_other v g ctx e other = rw (grab, mask-size v g, e, ==-ne _ _ other) refl

pub grab-none :
    {s : Storage} (v : IsValid s) (g : ℕ) → s.slot (g % s.slot_size) ≡ none → grab s g ≡ none
unfolding grab
grab-none v g e = rw (grab, mask-size v g, e) refl

-- A context that stands in no slot.
abbrev pub IsAbsent : Storage → ℕ → Type 0
IsAbsent s ctx = (i : ℕ) → s.slot i ≢ some ctx

-- What a registration that gives `handle` to `ctx` promises.
pub record Registered (s s' : Storage) (ctx handle : ℕ) : Type 0 where
  pub valid : IsValid s'
  pub own : IsOwn s.harbor handle
  pub fresh : grab s handle ≡ none
  pub found : grab s' handle ≡ some ctx
  pub others : (g : ℕ) → g ≢ handle → grab s' g ≡ grab s g
  pub names : s'.name ≡ s.name
  pub harbor : s'.harbor ≡ s.harbor

-- The storage with the context in an empty slot.
abbrev pub stored : Storage → ℕ → ℕ → ℕ → ℕ → Storage
stored s hash h handle ctx = record s {
  slot = update s.slot hash (some ctx);
  handle_index = h + 1;
  handle_of = update s.handle_of ctx handle;
}

stored-IsValid :
    {s : Storage}
    → IsValid s
    → (hash h handle ctx : ℕ) → IsAbsent s ctx
    → (1 ≤ h) × (h < 2 ^ 24)
    → handle % s.slot_size ≡ hash
    → IsOwn s.harbor handle
    → IsValid (stored s hash h handle ctx)
stored-IsValid {s} v hash h handle ctx absent (lo, hi) home own = record {
  bits = v.bits;
  size = v.size;
  bounds = v.bounds;
  index = (omega arith, omega arith);
  harbor = v.harbor;
  slots = placed;
}
  where
    placed :
        (i c : ℕ)
        → update s.slot hash (some ctx) i ≡ some c
        → (update s.handle_of ctx handle c % s.slot_size ≡ i)
          × IsOwn s.harbor (update s.handle_of ctx handle c)
    placed i c e = elim (update_cases s.slot hash (some ctx) i) [
      | inl (here, now) ↦
          let same : ctx ≡ c = cc in
          elim (update_cases s.handle_of ctx handle c) [
            | inl (_, h) ↦ rw (h, home) (here, own)
            | inr (ne, _) ↦ absurd (ne same)
          ]
      | inr (ne, old) ↦
          let before : s.slot i ≡ some c = sym old ∙ e in
          elim (update_cases s.handle_of ctx handle c) [
            | inl (same, _) ↦ absurd (absent i (before ∙ ap some (sym same)))
            | inr (_, h) ↦ rw h (v.slots i c before)
          ]
    ]

pub grab_cases :
    {s : Storage} (v : IsValid s) (g : ℕ)
    → ((s.slot (g % s.slot_size) ≡ none) × (grab s g ≡ none))
      ⊎ ((c : ℕ) × (s.slot (g % s.slot_size) ≡ some c) × (s.handle_of c ≡ g) × (grab s g ≡ some c))
      ⊎ ((c : ℕ) × (s.slot (g % s.slot_size) ≡ some c) × (s.handle_of c ≢ g) × (grab s g ≡ none))
grab_cases {s} v g = elim (Option-cases (s.slot (g % s.slot_size))) [
  | inl e ↦ inl (e, grab-none v g e)
  | inr (c, e) ↦ elim (ℕ_discrete (s.handle_of c) g) [
    | yes same ↦ inr (inl (c, e, same, grab-some v g c e same))
    | no ne ↦ inr (inr (c, e, ne, grab_other v g c e ne))
  ]
]

-- Two storages that hold the same contexts with the same handles find the same.
pub grab_same :
    {s s' : Storage} (v : IsValid s) (v' : IsValid s') (g : ℕ)
    → ((c : ℕ)
        → s.slot (g % s.slot_size) ≡ some c
        → s.handle_of c ≡ g
        → (s'.slot (g % s'.slot_size) ≡ some c) × (s'.handle_of c ≡ g))
    → ((c : ℕ)
        → s'.slot (g % s'.slot_size) ≡ some c
        → s'.handle_of c ≡ g
        → (s.slot (g % s.slot_size) ≡ some c) × (s.handle_of c ≡ g))
    → grab s' g ≡ grab s g
grab_same {s} {s'} v v' g to from = elim (grab_cases v g) [
  | inr (inl (c, e, same, r)) ↦ let (e', same') = to c e same in grab-some v' g c e' same' ∙ sym r
  | inl (e, r) ↦ elim (grab_cases v' g) [
    | inr (inl (c, e', same, _)) ↦
        let (f, _) = from c e' same in absurd (none-ne-some _ (sym e ∙ f))
    | inl (_, r') ↦ r' ∙ sym r
    | inr (inr (_, _, _, r')) ↦ r' ∙ sym r
  ]
  | inr (inr (c, e, ne, r)) ↦ elim (grab_cases v' g) [
    | inr (inl (c', e', same, _)) ↦
        let (f, h) = from c' e' same in
        let one : c ≡ c' = some-injective _ _ (sym e ∙ f) in absurd (ne (ap s.handle_of one ∙ h))
    | inl (_, r') ↦ r' ∙ sym r
    | inr (inr (_, _, _, r')) ↦ r' ∙ sym r
  ]
]

pub stored-Registered :
    {s : Storage}
    → IsValid s
    → (hash h ctx : ℕ) → IsAbsent s ctx
    → IsFree s.slot s.slot_size hash h
    → Registered s (stored s hash h (bit_or h s.harbor) ctx) ctx (bit_or h s.harbor)
stored-Registered {s} v hash h ctx absent free =
    let (lo, hi) = free.range in
    let handle = bit_or h s.harbor in
    let (sum, own') = bit_or-IsOwn v h lo (omega arith) in
    let own : IsOwn s.harbor handle = subst (IsOwn s.harbor) (sym sum) own' in
    let home : handle % s.slot_size ≡ hash =
      ap (λ (k : ℕ). k % s.slot_size) sum ∙ mod_harbor v h ∙ sym (mask-size v h) ∙ free.home in
    let v' = stored-IsValid v hash h handle ctx absent (lo, omega arith) home own in
    record {
      valid = v';
      own = own;
      fresh = grab-none v handle (ap s.slot home ∙ free.empty);
      found =
          grab-some v' handle ctx (rw home (update_self s.slot hash (some ctx)))
            (update_self s.handle_of ctx handle);
      others = λ g ne. grab_same v v' g (to handle g) (from handle g ne);
      names = refl;
      harbor = refl;
    }
  where
    to :
        (handle g c : ℕ)
        → s.slot (g % s.slot_size) ≡ some c
        → s.handle_of c ≡ g
        → (update s.slot hash (some ctx) (g % s.slot_size) ≡ some c)
          × (update s.handle_of ctx handle c ≡ g)
    to handle g c e same = elim (update_cases s.slot hash (some ctx) (g % s.slot_size)) [
      | inl (here, _) ↦ absurd (none-ne-some _ (sym free.empty ∙ ap s.slot here ∙ e))
      | inr (_, old) ↦ elim (update_cases s.handle_of ctx handle c) [
        | inl (one, _) ↦ absurd (absent (g % s.slot_size) (e ∙ ap some (sym one)))
        | inr (_, h) ↦ (old ∙ e, h ∙ same)
      ]
    ]

    from :
        (handle g : ℕ)
        → g ≢ handle
        → (c : ℕ) → update s.slot hash (some ctx) (g % s.slot_size) ≡ some c
        → update s.handle_of ctx handle c ≡ g
        → (s.slot (g % s.slot_size) ≡ some c) × (s.handle_of c ≡ g)
    from handle g ne c e same = elim (update_cases s.handle_of ctx handle c) [
      | inl (_, h) ↦ absurd (ne (sym same ∙ h))
      | inr (other, h) ↦ elim (update_cases s.slot hash (some ctx) (g % s.slot_size)) [
        | inl (_, now) ↦ absurd (other (some-injective _ _ (sym now ∙ e)))
        | inr (_, old) ↦ (sym old ∙ e, sym h ∙ same)
      ]
    ]
