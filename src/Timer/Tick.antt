-- ===== src/Timer/Tick.antt =====
-- What a tick of the clock does to the places of the nodes: none moves but those in the list that
-- the tick spreads.
use crynet.Prelude.{
  ℕ, ◌+◌, ◌/◌, ◌%◌, ◌^◌, ◌<◌, ◌≡◌, refl, true, false, ◌==◌, ==-ne, ==-eq, ==_iff, arith, Bool-cases,
  inl, inr, Option, ◌≢◌, some,
}
use native.Mathlib.Decide.{ℕ_discrete}
use crynet.Timer.{Loc, level_at, ℕ}
use crynet.Timer.Place.{home, target, is_target, left}
use crynet.Prelude.{ℕ, ◌<◌, ◌^◌, ◌≡◌, ◌+◌, ◌%◌, ◌/◌, ◌==◌}

-- At the end of a block of the level no node that is left stands in the block.
past_8 :
    (c e ct : ℕ)
    → c < 2 ^ 32
    → e < 2 ^ 32
    → 0 < left c e
    → left c e < 2 ^ 31
    → ct ≡ (c + 1) % 2 ^ 32
    → ct % 2 ^ 8 ≡ 0
    → (e / 2 ^ 8 == c / 2 ^ 8) ≡ false
past_8 c e ct hc he more below tick end =
    ==-ne (e / 2 ^ 8) (c / 2 ^ 8) (λ same. absurd (omega arith))

past_14 :
    (c e ct : ℕ)
    → c < 2 ^ 32
    → e < 2 ^ 32
    → 0 < left c e
    → left c e < 2 ^ 31
    → ct ≡ (c + 1) % 2 ^ 32
    → ct % 2 ^ 14 ≡ 0
    → (e / 2 ^ 14 == c / 2 ^ 14) ≡ false
past_14 c e ct hc he more below tick end =
    ==-ne (e / 2 ^ 14) (c / 2 ^ 14) (λ same. absurd (omega arith))

past_20 :
    (c e ct : ℕ)
    → c < 2 ^ 32
    → e < 2 ^ 32
    → 0 < left c e
    → left c e < 2 ^ 31
    → ct ≡ (c + 1) % 2 ^ 32
    → ct % 2 ^ 20 ≡ 0
    → (e / 2 ^ 20 == c / 2 ^ 20) ≡ false
past_20 c e ct hc he more below tick end =
    ==-ne (e / 2 ^ 20) (c / 2 ^ 20) (λ same. absurd (omega arith))

past_26 :
    (c e ct : ℕ)
    → c < 2 ^ 32
    → e < 2 ^ 32
    → 0 < left c e
    → left c e < 2 ^ 31
    → ct ≡ (c + 1) % 2 ^ 32
    → ct % 2 ^ 26 ≡ 0
    → (e / 2 ^ 26 == c / 2 ^ 26) ≡ false
past_26 c e ct hc he more below tick end =
    ==-ne (e / 2 ^ 26) (c / 2 ^ 26) (λ same. absurd (omega arith))

module _ (c e ct : ℕ) where
  -- The tests of `home`, for the time before the tick and the time after it.
  same_0 :
      c / 2 ^ 8 ≡ ct / 2 ^ 8
      → c / 2 ^ 14 ≡ ct / 2 ^ 14
      → c / 2 ^ 20 ≡ ct / 2 ^ 20
      → c / 2 ^ 26 ≡ ct / 2 ^ 26
      → home ct e ≡ home c e
  same_0 p q r s = rw (p, q, r, s)

  same_1 :
      (e / 2 ^ 8 == c / 2 ^ 8) ≡ false
      → (e / 2 ^ 8 == ct / 2 ^ 8) ≡ false
      → c / 2 ^ 14 ≡ ct / 2 ^ 14
      → c / 2 ^ 20 ≡ ct / 2 ^ 20
      → c / 2 ^ 26 ≡ ct / 2 ^ 26
      → home ct e ≡ home c e
  same_1 p p' q r s = rw (p, p', q, r, s)

  same_2 :
      (e / 2 ^ 8 == c / 2 ^ 8) ≡ false
      → (e / 2 ^ 8 == ct / 2 ^ 8) ≡ false
      → (e / 2 ^ 14 == c / 2 ^ 14) ≡ false
      → (e / 2 ^ 14 == ct / 2 ^ 14) ≡ false
      → c / 2 ^ 20 ≡ ct / 2 ^ 20
      → c / 2 ^ 26 ≡ ct / 2 ^ 26
      → home ct e ≡ home c e
  same_2 p p' q q' r s = rw (p, p', q, q', r, s)

  same_3 :
      (e / 2 ^ 8 == c / 2 ^ 8) ≡ false
      → (e / 2 ^ 8 == ct / 2 ^ 8) ≡ false
      → (e / 2 ^ 14 == c / 2 ^ 14) ≡ false
      → (e / 2 ^ 14 == ct / 2 ^ 14) ≡ false
      → (e / 2 ^ 20 == c / 2 ^ 20) ≡ false
      → (e / 2 ^ 20 == ct / 2 ^ 20) ≡ false
      → c / 2 ^ 26 ≡ ct / 2 ^ 26
      → home ct e ≡ home c e
  same_3 p p' q q' r r' s = rw (p, p', q, q', r, r', s)

  same_4 :
      (e / 2 ^ 8 == c / 2 ^ 8) ≡ false
      → (e / 2 ^ 8 == ct / 2 ^ 8) ≡ false
      → (e / 2 ^ 14 == c / 2 ^ 14) ≡ false
      → (e / 2 ^ 14 == ct / 2 ^ 14) ≡ false
      → (e / 2 ^ 20 == c / 2 ^ 20) ≡ false
      → (e / 2 ^ 20 == ct / 2 ^ 20) ≡ false
      → (e / 2 ^ 26 == c / 2 ^ 26) ≡ false
      → (e / 2 ^ 26 == ct / 2 ^ 26) ≡ false
      → home ct e ≡ home c e
  same_4 p p' q q' r r' s s' = rw (p, p', q, q', r, r', s, s')

-- A node in the list that the tick spreads is not apart from it.
spread_apart :
    {h : Loc} {o : Option Loc} (i a b : ℕ)
    → h ≡ level_at i a
    → o ≡ some (level_at i b)
    → a ≡ b
    → is_target o h ≡ false
    → ⊥
spread_apart {h} {o} i a b p q same apart =
    let found : is_target o h ≡ true = rw (p, q, same, ==-eq i i refl, ==-eq b b refl) in cc

-- A tick that spreads a list of level 0.
tick_1 :
    (c e ct : ℕ)
    → c < 2 ^ 32
    → e < 2 ^ 32
    → 0 < left c e
    → left c e < 2 ^ 31
    → ct ≡ (c + 1) % 2 ^ 32
    → ct % 2 ^ 8 ≡ 0
    → ct / 2 ^ 8 % 2 ^ 6 ≢ 0
    → is_target (target ct) (home c e) ≡ false
    → home ct e ≡ home c e
tick_1 c e ct hc he more below tick z n apart =
    let end : ct % 2 ^ 8 ≡ 0 = omega arith in
    let past = past_8 c e ct hc he more below tick end in
    let far : e / 2 ^ 8 ≢ c / 2 ^ 8 = λ same. cc (==-eq _ _ same) in
    elim (Bool-cases (e / 2 ^ 8 == ct / 2 ^ 8)) [
      | inr ne ↦
          let far' : e / 2 ^ 8 ≢ ct / 2 ^ 8 = λ same. cc (==-eq _ _ same) in
          same_1 c e ct past ne (omega arith) (omega arith) (omega arith)
      | inl eq ↦
          let same : e / 2 ^ 8 ≡ ct / 2 ^ 8 = (==_iff _ _).0 eq in
          let stands : home c e ≡ level_at 0 (e / 2 ^ 8 % 2 ^ 6) =
            rw (past, ==-eq (e / 2 ^ 14) (c / 2 ^ 14) (omega arith)) in
          let spread : target ct ≡ some (level_at 0 (ct / 2 ^ 8 % 2 ^ 6)) = rw (
            ==-ne ct 0 (λ zero. n (omega arith)),
            ==-eq (ct % 2 ^ 8) 0 z,
            ==-ne (ct / 2 ^ 8 % 2 ^ 6) 0 n,
          ) in
          absurd
            (spread_apart 0 (e / 2 ^ 8 % 2 ^ 6) (ct / 2 ^ 8 % 2 ^ 6) stands spread (rw same) apart)
    ]

-- A tick that spreads a list of level 1.
tick_2 :
    (c e ct : ℕ)
    → c < 2 ^ 32
    → e < 2 ^ 32
    → 0 < left c e
    → left c e < 2 ^ 31
    → ct ≡ (c + 1) % 2 ^ 32
    → ct % 2 ^ 8 ≡ 0
    → ct / 2 ^ 8 % 2 ^ 6 ≡ 0
    → ct / 2 ^ 14 % 2 ^ 6 ≢ 0
    → is_target (target ct) (home c e) ≡ false
    → home ct e ≡ home c e
tick_2 c e ct hc he more below tick z z8 n apart =
    let end : ct % 2 ^ 14 ≡ 0 = omega arith in
    let past = past_14 c e ct hc he more below tick end in
    let far : e / 2 ^ 14 ≢ c / 2 ^ 14 = λ same. cc (==-eq _ _ same) in
    elim (Bool-cases (e / 2 ^ 14 == ct / 2 ^ 14)) [
      | inr ne ↦
          let far' : e / 2 ^ 14 ≢ ct / 2 ^ 14 = λ same. cc (==-eq _ _ same) in
          same_2 c e ct (==-ne (e / 2 ^ 8) (c / 2 ^ 8) (λ same. absurd (omega arith)))
            (==-ne (e / 2 ^ 8) (ct / 2 ^ 8) (λ same. absurd (omega arith))) past ne (omega arith)
            (omega arith)
      | inl eq ↦
          let same : e / 2 ^ 14 ≡ ct / 2 ^ 14 = (==_iff _ _).0 eq in
          let stands : home c e ≡ level_at 1 (e / 2 ^ 14 % 2 ^ 6) = rw (
            ==-ne (e / 2 ^ 8) (c / 2 ^ 8) (λ same. absurd (omega arith)),
            past,
            ==-eq (e / 2 ^ 20) (c / 2 ^ 20) (omega arith),
          ) in
          let spread : target ct ≡ some (level_at 1 (ct / 2 ^ 14 % 2 ^ 6)) = rw (
            ==-ne ct 0 (λ zero. n (omega arith)),
            ==-eq (ct % 2 ^ 8) 0 z,
            ==-eq (ct / 2 ^ 8 % 2 ^ 6) 0 z8,
            ==-ne (ct / 2 ^ 14 % 2 ^ 6) 0 n,
          ) in
          absurd (
            spread_apart 1 (e / 2 ^ 14 % 2 ^ 6) (ct / 2 ^ 14 % 2 ^ 6) stands spread (rw same) apart)
    ]

-- A tick that spreads a list of level 2.
tick_3 :
    (c e ct : ℕ)
    → c < 2 ^ 32
    → e < 2 ^ 32
    → 0 < left c e
    → left c e < 2 ^ 31
    → ct ≡ (c + 1) % 2 ^ 32
    → ct % 2 ^ 8 ≡ 0
    → ct / 2 ^ 8 % 2 ^ 6 ≡ 0
    → ct / 2 ^ 14 % 2 ^ 6 ≡ 0
    → ct / 2 ^ 20 % 2 ^ 6 ≢ 0
    → is_target (target ct) (home c e) ≡ false
    → home ct e ≡ home c e
tick_3 c e ct hc he more below tick z z8 z14 n apart =
    let end : ct % 2 ^ 20 ≡ 0 = omega arith in
    let past = past_20 c e ct hc he more below tick end in
    let far : e / 2 ^ 20 ≢ c / 2 ^ 20 = λ same. cc (==-eq _ _ same) in
    elim (Bool-cases (e / 2 ^ 20 == ct / 2 ^ 20)) [
      | inr ne ↦
          let far' : e / 2 ^ 20 ≢ ct / 2 ^ 20 = λ same. cc (==-eq _ _ same) in
          same_3 c e ct (==-ne (e / 2 ^ 8) (c / 2 ^ 8) (λ same. absurd (omega arith)))
            (==-ne (e / 2 ^ 8) (ct / 2 ^ 8) (λ same. absurd (omega arith)))
            (==-ne (e / 2 ^ 14) (c / 2 ^ 14) (λ same. absurd (omega arith)))
            (==-ne (e / 2 ^ 14) (ct / 2 ^ 14) (λ same. absurd (omega arith))) past ne (omega arith)
      | inl eq ↦
          let same : e / 2 ^ 20 ≡ ct / 2 ^ 20 = (==_iff _ _).0 eq in
          let stands : home c e ≡ level_at 2 (e / 2 ^ 20 % 2 ^ 6) = rw (
            ==-ne (e / 2 ^ 8) (c / 2 ^ 8) (λ same. absurd (omega arith)),
            ==-ne (e / 2 ^ 14) (c / 2 ^ 14) (λ same. absurd (omega arith)),
            past,
            ==-eq (e / 2 ^ 26) (c / 2 ^ 26) (omega arith),
          ) in
          let spread : target ct ≡ some (level_at 2 (ct / 2 ^ 20 % 2 ^ 6)) = rw (
            ==-ne ct 0 (λ zero. n (omega arith)),
            ==-eq (ct % 2 ^ 8) 0 z,
            ==-eq (ct / 2 ^ 8 % 2 ^ 6) 0 z8,
            ==-eq (ct / 2 ^ 14 % 2 ^ 6) 0 z14,
            ==-ne (ct / 2 ^ 20 % 2 ^ 6) 0 n,
          ) in
          absurd (
            spread_apart 2 (e / 2 ^ 20 % 2 ^ 6) (ct / 2 ^ 20 % 2 ^ 6) stands spread (rw same) apart)
    ]

-- A tick that spreads a list of level 3, at the wrap of the 32 bits too.
tick_4 :
    (c e ct : ℕ)
    → c < 2 ^ 32
    → e < 2 ^ 32
    → 0 < left c e
    → left c e < 2 ^ 31
    → ct ≡ (c + 1) % 2 ^ 32
    → ct % 2 ^ 26 ≡ 0
    → target ct ≡ some (level_at 3 (ct / 2 ^ 26 % 2 ^ 6))
    → is_target (target ct) (home c e) ≡ false
    → home ct e ≡ home c e
tick_4 c e ct hc he more below tick end spread apart =
    let past = past_26 c e ct hc he more below tick end in
    let far : e / 2 ^ 26 ≢ c / 2 ^ 26 = λ same. cc (==-eq _ _ same) in
    let past_0 : (e / 2 ^ 8 == c / 2 ^ 8) ≡ false =
      ==-ne (e / 2 ^ 8) (c / 2 ^ 8) (λ same. absurd (omega arith)) in
    let past_1 : (e / 2 ^ 14 == c / 2 ^ 14) ≡ false =
      ==-ne (e / 2 ^ 14) (c / 2 ^ 14) (λ same. absurd (omega arith)) in
    let past_2 : (e / 2 ^ 20 == c / 2 ^ 20) ≡ false =
      ==-ne (e / 2 ^ 20) (c / 2 ^ 20) (λ same. absurd (omega arith)) in
    elim (Bool-cases (e / 2 ^ 26 == ct / 2 ^ 26)) [
      | inr ne ↦
          let far' : e / 2 ^ 26 ≢ ct / 2 ^ 26 = λ same. cc (==-eq _ _ same) in
          same_4 c e ct past_0 (==-ne (e / 2 ^ 8) (ct / 2 ^ 8) (λ same. absurd (omega arith)))
            past_1 (==-ne (e / 2 ^ 14) (ct / 2 ^ 14) (λ same. absurd (omega arith))) past_2
            (==-ne (e / 2 ^ 20) (ct / 2 ^ 20) (λ same. absurd (omega arith))) past ne
      | inl eq ↦
          let same : e / 2 ^ 26 ≡ ct / 2 ^ 26 = (==_iff _ _).0 eq in
          let stands : home c e ≡ level_at 3 (e / 2 ^ 26 % 2 ^ 6) =
            rw (past_0, past_1, past_2, past) in
          absurd (
            spread_apart 3 (e / 2 ^ 26 % 2 ^ 6) (ct / 2 ^ 26 % 2 ^ 6) stands spread (rw same) apart)
    ]

target_top :
    (ct : ℕ)
    → ct % 2 ^ 8 ≡ 0
    → ct / 2 ^ 8 % 2 ^ 6 ≡ 0
    → ct / 2 ^ 14 % 2 ^ 6 ≡ 0
    → ct / 2 ^ 20 % 2 ^ 6 ≡ 0
    → target ct ≡ some (level_at 3 (ct / 2 ^ 26 % 2 ^ 6))
target_top ct z z8 z14 z20 = elim (Bool-cases (ct == 0)) [
  | inl e ↦ let zero : ct ≡ 0 = (==_iff ct 0).0 e in rw zero
  | inr e ↦ rw (
    e,
    ==-eq (ct % 2 ^ 8) 0 z,
    ==-eq (ct / 2 ^ 8 % 2 ^ 6) 0 z8,
    ==-eq (ct / 2 ^ 14 % 2 ^ 6) 0 z14,
    ==-eq (ct / 2 ^ 20 % 2 ^ 6) 0 z20,
  )
]

-- A tick moves no node's place but of those in the list that it spreads.
pub home_tick :
    (c e ct : ℕ)
    → c < 2 ^ 32
    → e < 2 ^ 32
    → 0 < left c e
    → left c e < 2 ^ 31
    → ct ≡ (c + 1) % 2 ^ 32
    → is_target (target ct) (home c e) ≡ false
    → home ct e ≡ home c e
home_tick c e ct hc he more below tick apart = elim (ℕ_discrete (ct % 2 ^ 8) 0) [
  | no n ↦ same_0 c e ct (omega arith) (omega arith) (omega arith) (omega arith)
  | yes z ↦ elim (ℕ_discrete (ct / 2 ^ 8 % 2 ^ 6) 0) [
    | no n ↦ tick_1 c e ct hc he more below tick z n apart
    | yes z8 ↦ elim (ℕ_discrete (ct / 2 ^ 14 % 2 ^ 6) 0) [
      | no n ↦ tick_2 c e ct hc he more below tick z z8 n apart
      | yes z14 ↦ elim (ℕ_discrete (ct / 2 ^ 20 % 2 ^ 6) 0) [
        | no n ↦ tick_3 c e ct hc he more below tick z z8 z14 n apart
        | yes z20 ↦
            tick_4 c e ct hc he more below tick (omega arith) (target_top ct z z8 z14 z20) apart
      ]
    ]
  ]
]
