-- ===== src/Gate/Buffer/Step.antt =====
-- What `databuffer_readheader` does, by whether the header is read already.
use crynet.Prelude.{
  ℕ, suc, ◌≤◌, ◌<◌, ◌≡◌, refl, ap, ◌∙◌, Option, some, true, false, arith, ltb, if◌then◌else◌, take,
}
use crynet.Prelude.Int.{ℤ, pos, negsuc}
use crynet.Gate.Buffer.{Databuffer, MessagePool, readheader, parse, check_size, decode}
use crynet.Gate.Buffer.Read.{contents, Reads}

-- The answer for a message of `n` bytes.
abbrev pub asked : ℕ → Databuffer → MessagePool → ℤ × Databuffer × MessagePool
asked n db mp = if ltb db.size n then (negsuc 0, db, mp) else (pos n, db, mp)

-- The same, by the header.
abbrev pub answer : ℤ → Databuffer → MessagePool → ℤ × Databuffer × MessagePool
answer (pos n) db mp = asked n db mp
answer (negsuc n) db mp = (negsuc n, db, mp)

check_size-eq-answer :
    (z : ℤ) (db : Databuffer) (mp : MessagePool)
    → ◌≡◌ {A = Option (ℤ × Databuffer × MessagePool)}
        (some (check_size z db mp))
        (some (answer z db mp))
unfolding check_size
check_size-eq-answer (pos n) db mp = refl
check_size-eq-answer (negsuc n) db mp = refl

module _ (db : Databuffer) (mp : MessagePool) (h : ℕ) where
  pub readheader_short :
      db.header ≡ pos 0 → db.size < h → readheader db mp h ≡ some (negsuc 0, db, mp)
  unfolding readheader
  readheader_short e lt =
      let short : ltb db.size h ≡ true = ground arith in ap (λ z. parse z db mp h) e ∙ rw short refl

  pub readheader_known :
      (n : ℕ) → db.header ≡ pos (suc n) → readheader db mp h ≡ some (asked (suc n) db mp)
  unfolding readheader
  readheader_known n e = ap (λ z. parse z db mp h) e

  pub readheader_parse :
      (n : ℕ)
      → db.header ≡ pos 0
      → h ≤ db.size
      → (db' : Databuffer) (mp' : MessagePool) → Reads db mp h db' mp'
      → decode h (take h (contents db)) ≡ pos n
      → readheader db mp h ≡ some (asked n (record db' { header = pos n }) mp')
  unfolding readheader
  readheader_parse n e le db' mp' r d =
      let long : ltb db.size h ≡ false = ground arith in
      ap (λ z. parse z db mp h) e
      ∙ rw (long, r.run) (ap (λ z. some (check_size z (record db' { header = z }) mp')) d)

  pub readheader_negative :
      (n : ℕ) → db.header ≡ negsuc n → readheader db mp h ≡ some (negsuc n, db, mp)
  unfolding readheader
  readheader_negative n e = ap (λ z. parse z db mp h) e

  -- Whatever the bytes of the header say.
  pub readheader_any :
      db.header ≡ pos 0
      → h ≤ db.size
      → (db' : Databuffer) (mp' : MessagePool) → Reads db mp h db' mp'
      → let z = decode h (take h (contents db)) in
        readheader db mp h ≡ some (answer z (record db' { header = z }) mp')
  unfolding readheader
  readheader_any e le db' mp' r =
      let long : ltb db.size h ≡ false = ground arith in
      ap (λ z. parse z db mp h) e
      ∙ rw (long, r.run)
          (check_size-eq-answer (decode h (take h (contents db)))
            (record db' { header = decode h (take h (contents db)) }) mp')
