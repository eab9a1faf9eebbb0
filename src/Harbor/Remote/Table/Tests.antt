-- ===== src/Harbor/Remote/Table/Tests.antt =====
-- Names that are compared byte by byte, in a table that is empty.
use crynet.Prelude.{
  ℕ, ◌≡◌, refl, sym, ap, ◌∙◌, List, [], ◌∷◌, none, Bool, true, false, ◌==◌, ==-eq, if◌then◌else◌,
  Bool-cases, inl, inr, arith, replicate,
}
use crynet.Harbor.Remote.{Harbor, wait}
use crynet.Harbor.Remote.Table.{Strncmp, HashMap, update_name}
use crynet.Harbor.Remote.Table.Lookup.{Updates, update_name-Updates}
use mathlib.Core.Path.{subst}

same_bytes : List ℕ → List ℕ → Bool
same_bytes [] [] = true
same_bytes [] (y ∷ b) = false
same_bytes (x ∷ a) [] = false
same_bytes (x ∷ a) (y ∷ b) = let rest = same_bytes a b in if x == y then rest else false

same_bytes_refl : (a : List ℕ) → same_bytes a a ≡ true
unfolding same_bytes
same_bytes_refl [] = refl
same_bytes_refl (x ∷ a) = rw (same_bytes, ==-eq x x refl) (same_bytes_refl a)

abbrev IsTrue : Bool → Type 0
IsTrue true = Unit
IsTrue false = ⊥

not_both : false ≡ true → ⊥
not_both e = subst IsTrue (sym e) tt

same_bytes-eq : (a b : List ℕ) → same_bytes a b ≡ true → a ≡ b
unfolding same_bytes
same_bytes-eq [] [] e = refl
same_bytes-eq [] (y ∷ b) e = absurd (not_both e)
same_bytes-eq (x ∷ a) [] e = absurd (not_both e)
same_bytes-eq (x ∷ a) (y ∷ b) e = elim (Bool-cases (x == y)) [
  | inl t ↦
      let first : x ≡ y = ground arith in
      ap (λ k. k ∷ a) first ∙ ap (λ l. y ∷ l) (same_bytes-eq a b (rw (same_bytes, t) at e))
  | inr f ↦ absurd (not_both (rw (same_bytes, f) at e))
]

abbrev bytes : Strncmp
bytes = record {
  same = same_bytes;
  same_refl = same_bytes_refl;
  same_sym = λ a b e. subst (λ c. same_bytes c a ≡ true) (same_bytes-eq a b e) (same_bytes_refl a);
  same_trans = λ a b c e f. subst (λ d. same_bytes a d ≡ true) (same_bytes-eq b c f) e;
}

abbrev alone : Harbor
alone = record { id = 1; slave = 16777217; s = λ _. record { fd = 0; queue = none; status = wait } }

abbrev no_names : HashMap
no_names _ = []

-- The name `db`.
abbrev db : List ℕ
db = 100 ∷ 98 ∷ replicate 14 0

update_name-Updates_example :
    let after = update_name bytes no_names alone db 167772161 in
    Updates bytes no_names after.1 after.2 db 167772161
update_name-Updates_example = update_name-Updates bytes no_names alone db 167772161
