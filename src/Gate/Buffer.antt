-- ===== src/Gate/Buffer.antt =====
-- skynet/service-src/databuffer.h: the bytes that a connection has received, in the chunks that came,
-- with cells for the chunks from a pool. The links between the cells are lists here. `none` as a
-- result is an assertion that fails, or a read through a null pointer.
pub mod Read
pub mod Push
pub mod Header
pub mod Step
use Prim.Native.Nat.{bit_or}
use crynet.Prelude.{
  ℕ, zero, suc, ◌+◌, ◌-◌, ◌*◌, ◌^◌, List, [], ◌∷◌, ◌++◌, Option, none, some, ltb, ◌==◌,
  if◌then◌else◌, ◌>>=◌, take, drop, length, flatten, map, get_or,
}
use crynet.Prelude.Int.{ℤ, pos, negsuc, to_int}

-- `struct message`: its address, and the bytes, as many as `size` says.
pub record Chunk : Type 0 where
  pub cell : ℕ
  pub buffer : List ℕ

-- `struct databuffer`, with the chunks from `head` to `tail`.
pub record Databuffer : Type 0 where
  pub header : ℤ
  pub offset : ℕ
  pub size : ℕ
  pub chunks : List Chunk

-- `struct messagepool`: how many arrays of cells there are, and the cells that are free. The cells
-- of the array number `i` have the addresses from `i * messagepool` on.
pub record MessagePool : Type 0 where
  pub pool : ℕ
  pub freelist : List ℕ

abbrev pub messagepool : ℕ
messagepool = 1023

-- The state that `memset` makes.
abbrev pub empty : Databuffer
empty = record { header = pos 0; offset = 0; size = 0; chunks = [] }

abbrev pub empty_pool : MessagePool
empty_pool = record { pool = 0; freelist = [] }

-- The cells of a new array, linked in order.
pub cells : ℕ → ℕ → List ℕ
cells zero from = []
cells (suc n) from = from ∷ cells n (from + 1)

-- The cell that `databuffer_push` takes: a free one, or the first of a new array.
pub take_cell : MessagePool → ℕ × MessagePool
take_cell mp = elim (mp.freelist) [
  | m ∷ rest ↦ (m, record mp { freelist = rest })
  | [] ↦
      let first = mp.pool * messagepool in
      (first, record { pool = mp.pool + 1; freelist = cells (messagepool - 1) (first + 1) })
]

-- `databuffer_push`
pub push : Databuffer → MessagePool → List ℕ → Databuffer × MessagePool
push db mp bytes =
    let (m, mp') = take_cell mp in
    (
      record db {
        size = db.size + length bytes;
        chunks = db.chunks ++ record { cell = m; buffer = bytes } ∷ [];
      },
      mp',
    )

-- `_return_message`, for the pool: the cell is free.
abbrev pub give_cell : ℕ → MessagePool → MessagePool
give_cell m mp = record mp { freelist = m ∷ mp.freelist }

-- The loop of `databuffer_read`: the bytes that are copied, the chunks, offset and pool left. An
-- offset past the end of a chunk would be a negative size.
pub read_loop : List Chunk → ℕ → ℕ → MessagePool → Option (List ℕ × List Chunk × ℕ × MessagePool)
read_loop [] offset sz mp = none
read_loop (c ∷ cs) offset sz mp =
    let bsz = length c.buffer - offset in
    let rest = read_loop cs 0 (sz - bsz) (give_cell c.cell mp) >>= λ (bytes, cs', offset', mp').
    some (drop offset c.buffer ++ bytes, cs', offset', mp') in
    if ltb (length c.buffer) offset
    then none
    else if ltb sz bsz
    then some (take sz (drop offset c.buffer), c ∷ cs, offset + sz, mp)
    else if bsz == sz
    then some (take sz (drop offset c.buffer), cs, 0, give_cell c.cell mp)
    else rest

-- `databuffer_read`
pub read : Databuffer → MessagePool → ℕ → Option (List ℕ × Databuffer × MessagePool)
read db mp sz =
    let result = read_loop db.chunks db.offset sz mp >>= λ (bytes, cs, offset, mp').
    some (bytes, record db { size = db.size - sz; chunks = cs; offset = offset }, mp') in
    if ltb db.size sz then none else result

-- The number that the bytes of a header stand for, as an `int`.
pub decode : ℕ → List ℕ → ℤ
decode header_size plen =
    let b = λ (i : ℕ). get_or plen i 0 in
    if header_size == 2
    then pos (bit_or (b 0 * 2 ^ 8) (b 1))
    else to_int (bit_or (bit_or (bit_or (b 0 * 2 ^ 24) (b 1 * 2 ^ 16)) (b 2 * 2 ^ 8)) (b 3))

-- `db->size < db->header`, and the result, by the header.
check_size : ℤ → Databuffer → MessagePool → ℤ × Databuffer × MessagePool
check_size (pos n) db mp = if ltb db.size n then (negsuc 0, db, mp) else (pos n, db, mp)
check_size (negsuc n) db mp = (negsuc n, db, mp)

-- A header that is not read yet is read, if its bytes have come.
parse : ℤ → Databuffer → MessagePool → ℕ → Option (ℤ × Databuffer × MessagePool)
parse header db mp header_size =
    let parsed = read db mp header_size >>= λ (plen, db', mp').
    let n = decode header_size plen in some (check_size n (record db' { header = n }) mp') in
    elim header [
      | pos zero ↦ if ltb db.size header_size then some (negsuc 0, db, mp) else parsed
      | other ↦ some (check_size other db mp)
    ]

-- `databuffer_readheader`
unfoldable pub readheader : Databuffer → MessagePool → ℕ → Option (ℤ × Databuffer × MessagePool)
unfolding parse check_size
readheader db mp header_size = parse db.header db mp header_size

-- `databuffer_reset`
unfoldable pub reset : Databuffer → Databuffer
reset db = record db { header = pos 0 }

-- The loop of `databuffer_clear`.
pub clear_loop : List Chunk → MessagePool → MessagePool
clear_loop [] mp = mp
clear_loop (c ∷ cs) mp = clear_loop cs (give_cell c.cell mp)

-- `databuffer_clear`
unfoldable pub clear : Databuffer → MessagePool → Databuffer × MessagePool
clear db mp = (empty, clear_loop db.chunks mp)
