-- ===== src/Handle/Retire.antt =====
-- `skynet_handle_retire`: the handle is found no more, its names go, and nothing else changes.
use crynet.Prelude.{
  if◌then◌else◌, false, arith, ℕ, ◌%◌, ◌≡◌, ◌≢◌, refl, sym, ap, ◌∙◌, none, some, inl, inr, ◌⊎◌,
  List, [], ◌∷◌, Bool-cases, update, update_cases, update_self, ◌==◌, ==-eq, ==-ne,
}
use mathlib.Core.Option.{none-ne-some, some-injective}
use crynet.Handle.{Storage, HandleName, retire, grab, keep_names}
use crynet.Handle.Valid.{IsValid, mask-size}
use crynet.Handle.Register.{grab_cases, grab_same, grab-none}

-- The names that a handle has, in order.
abbrev pub names_of : ℕ → List HandleName → List (List ℕ)
names_of handle [] = []
names_of handle (n ∷ ns) =
    let rest = names_of handle ns in if n.handle == handle then n.name ∷ rest else rest

keep_names_gone : (handle : ℕ) (ns : List HandleName) → names_of handle (keep_names handle ns) ≡ []
unfolding keep_names
keep_names_gone handle [] = refl
keep_names_gone handle (n ∷ ns) = elim (Bool-cases (n.handle == handle)) [
  | inl e ↦ rw (keep_names, e) (keep_names_gone handle ns)
  | inr e ↦ rw (keep_names, e, names_of, e) (keep_names_gone handle ns)
]

keep_names_others :
    (handle h : ℕ)
    → h ≢ handle
    → (ns : List HandleName) → names_of h (keep_names handle ns) ≡ names_of h ns
unfolding keep_names
keep_names_others handle h ne [] = refl
keep_names_others handle h ne (n ∷ ns) = elim (Bool-cases (n.handle == handle)) [
  | inl e ↦
      let other : (n.handle == h) ≡ false = ground arith in
      rw (keep_names, e, other) (keep_names_others handle h ne ns)
  | inr e ↦
      rw (keep_names, e)
        (ap (λ rest. if n.handle == h then n.name ∷ rest else rest)
          (keep_names_others handle h ne ns))
]

-- What a retirement that succeeds promises.
pub record Retired (s s' : Storage) (handle : ℕ) : Type 0 where
  pub valid : IsValid s'
  pub gone : grab s' handle ≡ none
  pub others : (g : ℕ) → g ≢ handle → grab s' g ≡ grab s g
  pub harbor : s'.harbor ≡ s.harbor
  pub names_gone : names_of handle s'.name ≡ []
  pub names_others : (h : ℕ) → h ≢ handle → names_of h s'.name ≡ names_of h s.name

emptied-IsValid :
    {s : Storage}
    → IsValid s
    → (hash : ℕ) (names : List HandleName)
    → IsValid (record s { slot = update s.slot hash none; name = names })
emptied-IsValid {s} v hash names = record {
  bits = v.bits;
  size = v.size;
  bounds = v.bounds;
  index = v.index;
  harbor = v.harbor;
  slots = λ i c e. elim (update_cases s.slot hash none i) [
    | inl (_, now) ↦ absurd (none-ne-some _ (sym now ∙ e))
    | inr (_, old) ↦ v.slots i c (sym old ∙ e)
  ];
}

emptied-Retired :
    {s : Storage} (v : IsValid s) (handle c : ℕ)
    → s.slot (handle % s.slot_size) ≡ some c
    → s.handle_of c ≡ handle
    → Retired s
        (record s {
          slot = update s.slot (handle % s.slot_size) none;
          name = keep_names handle s.name;
        })
        handle
emptied-Retired {s} v handle c at same =
    let v' = emptied-IsValid v (handle % s.slot_size) (keep_names handle s.name) in
    record {
      valid = v';
      gone = grab-none v' handle (update_self s.slot (handle % s.slot_size) none);
      others = λ g ne.
          grab_same v v' g
            (λ d e own. elim (update_cases s.slot (handle % s.slot_size) none (g % s.slot_size)) [
              | inl (here, _) ↦
                  let one : c ≡ d = some-injective _ _ (sym at ∙ ap s.slot here ∙ e) in
                  absurd (ne (sym own ∙ ap s.handle_of (sym one) ∙ same))
              | inr (_, old) ↦ (old ∙ e, own)
            ])
            (λ d e own. elim (update_cases s.slot (handle % s.slot_size) none (g % s.slot_size)) [
              | inl (_, now) ↦ absurd (none-ne-some _ (sym now ∙ e))
              | inr (_, old) ↦ (sym old ∙ e, own)
            ]);
      harbor = refl;
      names_gone = keep_names_gone handle s.name;
      names_others = λ h ne. keep_names_others handle h ne s.name;
    }

-- Retiring a handle that finds nothing changes nothing and returns 0. A handle that finds a context
-- is found no more, has no names left, and the context is given to be released; the table stays
-- valid, and every other handle finds what it found and keeps its names.
pub retire-Retired :
    (s : Storage)
    → IsValid s
    → (handle : ℕ)
    → ((grab s handle ≡ none) × (retire handle s ≡ (0, none, s)))
      ⊎ ((c : ℕ) × (s' : Storage) × (grab s handle ≡ some c)
          × (retire handle s ≡ (1, some c, s'))
          × Retired s s' handle)
unfolding retire
retire-Retired s v handle = elim (grab_cases v handle) [
  | inl (e, r) ↦ inl (r, rw (retire, mask-size v handle, e) refl)
  | inr (inr (c, e, ne, r)) ↦ inl (r, rw (retire, mask-size v handle, e, ==-ne _ _ ne) refl)
  | inr (inl (c, e, same, r)) ↦ inr (
    c,
    record s { slot = update s.slot (handle % s.slot_size) none; name = keep_names handle s.name },
    r,
    rw (retire, mask-size v handle, e, ==-eq _ _ same, mask-size v handle) refl,
    emptied-Retired v handle c e same,
  )
]
