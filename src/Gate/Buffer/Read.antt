-- ===== src/Gate/Buffer/Read.antt =====
-- Pushing to a buffer and reading from it, as operations on a list of bytes.
use crynet.Prelude.{
  ℕ, ◌+◌, ◌-◌, ◌*◌, ◌≤◌, ◌<◌, ◌≡◌, refl, sym, ap, ◌∙◌, List, [], ◌∷◌, ◌++◌, some, false, arith, ltb,
  ◌==◌, take, drop, length, Bool-cases, inl, inr, length-append, length-drop, take-append_left,
  drop-append_left, take-append_right, drop-append_right, drop-drop, ltb→lt,
}
use crynet.Global.Chain.{count}
use crynet.Gate.Buffer.{Chunk, Databuffer, MessagePool, messagepool, read, read_loop, give_cell}

-- The bytes that are not read yet.
abbrev pub bytes_of : List Chunk → ℕ → List ℕ
bytes_of [] offset = []
bytes_of (c ∷ cs) offset = drop offset c.buffer ++ bytes_of cs 0

-- The offset stands in the first chunk.
abbrev pub InHead : List Chunk → ℕ → Type 0
InHead [] offset = offset ≡ 0
InHead (c ∷ cs) offset = offset ≤ length c.buffer

abbrev pub contents : Databuffer → List ℕ
contents db = bytes_of db.chunks db.offset

pub record IsValid (db : Databuffer) : Type 0 where
  pub size : db.size ≡ length (contents db)
  pub offset : InHead db.chunks db.offset

-- The cells that are free or hold a chunk are those of the arrays, before and after.
pub record Conserved (mp mp' : MessagePool) (used used' : ℕ) : Type 0 where
  pub total :
      length mp'.freelist + used' + mp.pool * messagepool
      ≡ length mp.freelist + used + mp'.pool * messagepool

-- The cells of the chunks.
abbrev pub cells_of : List Chunk → List ℕ
cells_of [] = []
cells_of (c ∷ cs) = c.cell ∷ cells_of cs

-- Each cell is free or in a chunk as often as before.
abbrev pub SameCells : MessagePool → List Chunk → MessagePool → List Chunk → Type 0
SameCells mp cs mp' cs' =
    (m : ℕ)
    → count m mp'.freelist + count m (cells_of cs') ≡ count m mp.freelist + count m (cells_of cs)

-- What a read of `sz` bytes gives.
record Copied (cs : List Chunk) (offset sz : ℕ) (mp : MessagePool) (bytes : List ℕ)
    (cs' : List Chunk) (offset' : ℕ) (mp' : MessagePool) : Type 0 where
  run : read_loop cs offset sz mp ≡ some (bytes, cs', offset', mp')
  copied : bytes ≡ take sz (bytes_of cs offset)
  left : bytes_of cs' offset' ≡ drop sz (bytes_of cs offset)
  head : InHead cs' offset'
  pool : mp'.pool ≡ mp.pool
  free : length mp'.freelist + length cs' ≡ length mp.freelist + length cs
  each : SameCells mp cs mp' cs'

-- The bytes are all in the first chunk, and more.
Copied-part :
    (c : Chunk) (cs : List Chunk) (offset sz : ℕ) (mp : MessagePool)
    → offset ≤ length c.buffer
    → sz < length c.buffer - offset
    → Copied (c ∷ cs) offset sz mp (take sz (drop offset c.buffer)) (c ∷ cs) (offset + sz) mp
unfolding read_loop
Copied-part c cs offset sz mp h lt =
    let fits : sz ≤ length (drop offset c.buffer) = omega (arith, length-drop offset c.buffer) in
    record {
      run = ground arith;
      copied = sym (take-append_left sz (drop offset c.buffer) (bytes_of cs 0) fits);
      left =
          ap (λ l. l ++ bytes_of cs 0) (sym (drop-drop sz offset c.buffer))
          ∙ sym (drop-append_left sz (drop offset c.buffer) (bytes_of cs 0) fits);
      head = omega arith;
      pool = refl;
      free = refl;
      each = λ m. refl;
    }

pub InHead-start : (cs : List Chunk) → InHead cs 0
InHead-start [] = refl
InHead-start (c ∷ cs) = omega arith

-- The bytes are just the rest of the first chunk, whose cell is free then.
Copied-whole :
    (c : Chunk) (cs : List Chunk) (offset sz : ℕ) (mp : MessagePool)
    → offset ≤ length c.buffer
    → sz ≡ length c.buffer - offset
    → Copied (c ∷ cs) offset sz mp (take sz (drop offset c.buffer)) cs 0 (give_cell c.cell mp)
unfolding read_loop
Copied-whole c cs offset sz mp h e =
    let size = length-drop offset c.buffer in
    let none_left : sz - length (drop offset c.buffer) ≡ 0 = omega (arith, size) in
    record {
      run = ground arith;
      copied =
          sym (take-append_left sz (drop offset c.buffer) (bytes_of cs 0) (omega (arith, size)));
      left = sym (
          drop-append_right sz (drop offset c.buffer) (bytes_of cs 0) (omega (arith, size))
          ∙ ap (λ (k : ℕ). drop k (bytes_of cs 0)) none_left);
      head = InHead-start cs;
      pool = refl;
      free = omega arith;
      each = λ m. ground arith;
    }

-- The first chunk is not enough: its cell is free then, and the others give the rest.
Copied-more :
    (c : Chunk) (cs : List Chunk) (offset sz : ℕ) (mp : MessagePool)
    → offset ≤ length c.buffer
    → length c.buffer - offset < sz
    → (bytes : List ℕ) (cs' : List Chunk) (offset' : ℕ) (mp' : MessagePool)
    → Copied cs 0 (sz - (length c.buffer - offset)) (give_cell c.cell mp) bytes cs' offset' mp'
    → Copied (c ∷ cs) offset sz mp (drop offset c.buffer ++ bytes) cs' offset' mp'
unfolding read_loop
Copied-more c cs offset sz mp h lt bytes cs' offset' mp' r =
    let rest = sz - (length c.buffer - offset) in
    let e : sz - length (drop offset c.buffer) ≡ rest =
      omega (arith, length-drop offset c.buffer) in
    let past : length (drop offset c.buffer) ≤ sz = omega (arith, length-drop offset c.buffer) in
    record {
      run = ground (arith, r.run);
      copied =
          ap (λ l. drop offset c.buffer ++ l)
            (r.copied ∙ ap (λ (k : ℕ). take k (bytes_of cs 0)) (sym e))
          ∙ sym (take-append_right sz (drop offset c.buffer) (bytes_of cs 0) past);
      left =
          r.left
          ∙ ap (λ (k : ℕ). drop k (bytes_of cs 0)) (sym e)
          ∙ sym (drop-append_right sz (drop offset c.buffer) (bytes_of cs 0) past);
      head = r.head;
      pool = r.pool;
      free = omega (arith, r.free);
      each = λ m. ground (arith, r.each m);
    }

read_loop-Copied :
    (cs : List Chunk) (offset sz : ℕ) (mp : MessagePool)
    → InHead cs offset
    → 0 < sz
    → sz ≤ length (bytes_of cs offset)
    → (bytes : List ℕ) × (cs' : List Chunk) × (offset' : ℕ) × (mp' : MessagePool) × Copied cs offset
        sz mp bytes cs' offset' mp'
read_loop-Copied [] offset sz mp h pos enough = absurd (omega arith)
read_loop-Copied (c ∷ cs) offset sz mp h pos enough =
    let bsz = length c.buffer - offset in
    elim (Bool-cases (ltb sz bsz)) [
      | inl e ↦ (
        take sz (drop offset c.buffer),
        c ∷ cs,
        offset + sz,
        mp,
        Copied-part c cs offset sz mp h (ltb→lt _ _ e),
      )
      | inr e ↦ elim (Bool-cases (bsz == sz)) [
        | inl same ↦ (
          take sz (drop offset c.buffer),
          cs,
          0,
          give_cell c.cell mp,
          Copied-whole c cs offset sz mp h (ground arith),
        )
        | inr other ↦
            let more : bsz < sz = ground arith in
            let size = length-append (drop offset c.buffer) (bytes_of cs 0) in
            let (bytes, cs', offset', mp', r) =
              read_loop-Copied cs 0 (sz - bsz) (give_cell c.cell mp) (InHead-start cs) (omega arith)
                (omega (arith, size, length-drop offset c.buffer)) in
            (
              drop offset c.buffer ++ bytes,
              cs',
              offset',
              mp',
              Copied-more c cs offset sz mp h more bytes cs' offset' mp' r,
            )
      ]
    ]

-- A read: the first `sz` bytes are given, and the others stay.
pub record Reads (db : Databuffer) (mp : MessagePool) (sz : ℕ) (db' : Databuffer)
    (mp' : MessagePool) : Type 0 where
  pub run : read db mp sz ≡ some (take sz (contents db), db', mp')
  pub valid : IsValid db'
  pub left : contents db' ≡ drop sz (contents db)
  pub header : db'.header ≡ db.header
  pub cells : Conserved mp mp' (length db.chunks) (length db'.chunks)
  pub each : SameCells mp db.chunks mp' db'.chunks

-- Reading at least one byte and at most as many as there are gives the first ones, whatever chunks
-- they stand in, and leaves the others; each cell of the pool is free or holds a chunk as often as
-- before.
pub read-Reads :
    (db : Databuffer) (mp : MessagePool) (sz : ℕ)
    → IsValid db
    → 0 < sz
    → sz ≤ db.size
    → (db' : Databuffer) × (mp' : MessagePool) × Reads db mp sz db' mp'
unfolding read
read-Reads db mp sz v pos enough =
    let (bytes, cs', offset', mp', r) =
      read_loop-Copied db.chunks db.offset sz mp v.offset pos (omega (arith, v.size)) in
    let db' = record db { size = db.size - sz; chunks = cs'; offset = offset' } in
    let fits : ltb db.size sz ≡ false = ground arith in
    (
      db',
      mp',
      record {
        run = rw (read, fits, r.run) (ap (λ (b : List ℕ). some (b, db', mp')) r.copied);
        valid = record {
          size = omega (arith, v.size, ap length r.left, length-drop sz (contents db));
          offset = r.head;
        };
        left = r.left;
        header = refl;
        cells = record { total = grind (arith, r.free, r.pool) };
        each = r.each;
      },
    )
