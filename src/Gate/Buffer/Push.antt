-- ===== src/Gate/Buffer/Push.antt =====
-- Pushing to a buffer and clearing it.
use crynet.Prelude.{
  ℕ, zero, suc, ◌+◌, ◌*◌, ◌≡◌, refl, sym, ap, ◌∙◌, List, [], ◌∷◌, ◌++◌, arith, drop, length,
  length-append,
}
use crynet.Gate.Buffer.{
  Chunk, Databuffer, MessagePool, messagepool, push, give_cell, take_cell, cells, clear_loop,
}
use crynet.Gate.Buffer.Read.{bytes_of, InHead, contents, IsValid, Conserved, InHead-start}
use mathlib.Core.List.{append-nil, append_assoc}

length-cells : (n from : ℕ) → length (cells n from) ≡ n
unfolding cells
length-cells zero from = refl
length-cells (suc n) from = ap suc (length-cells n (from + 1))

-- A cell less is free, or there is a new array.
take_cell-free :
    (pool : ℕ) (freelist : List ℕ)
    → let (m, mp') = take_cell (record { pool = pool; freelist = freelist }) in
      length mp'.freelist + 1 + pool * messagepool ≡ length freelist + mp'.pool * messagepool
unfolding take_cell
take_cell-free pool [] = omega (arith, length-cells 1022 (pool * messagepool + 1))
take_cell-free pool (m ∷ rest) = omega arith

bytes_of-append :
    (cs : List Chunk) (c : Chunk) (offset : ℕ)
    → InHead cs offset
    → bytes_of (cs ++ c ∷ []) offset ≡ bytes_of cs offset ++ c.buffer
bytes_of-append [] c offset h = rw h (append-nil c.buffer)
bytes_of-append (b ∷ cs) c offset h =
    ap (λ l. drop offset b.buffer ++ l) (bytes_of-append cs c 0 (InHead-start cs))
    ∙ sym (append_assoc (drop offset b.buffer) (bytes_of cs 0) c.buffer)

InHead-append :
    (cs : List Chunk) (c : Chunk) (offset : ℕ) → InHead cs offset → InHead (cs ++ c ∷ []) offset
InHead-append [] c offset h = omega arith
InHead-append (b ∷ cs) c offset h = h

-- A push appends the bytes, whatever chunks there are, and no cell is lost.
pub record Pushes (db : Databuffer) (mp : MessagePool) (bytes : List ℕ) (db' : Databuffer)
    (mp' : MessagePool) : Type 0 where
  pub valid : IsValid db'
  pub appended : contents db' ≡ contents db ++ bytes
  pub header : db'.header ≡ db.header
  pub cells : Conserved mp mp' (length db.chunks) (length db'.chunks)

pub push-Pushes :
    (db : Databuffer) (mp : MessagePool) (bytes : List ℕ)
    → IsValid db
    → let (db', mp') = push db mp bytes in Pushes db mp bytes db' mp'
unfolding push
push-Pushes db mp bytes v =
    let (m, mp') = take_cell mp in
    let c : Chunk = record { cell = m; buffer = bytes } in
    let e = bytes_of-append db.chunks c db.offset v.offset in
    record {
      valid = record {
        size = omega (arith, v.size, ap length e, length-append (contents db) bytes);
        offset = InHead-append db.chunks c db.offset v.offset;
      };
      appended = e;
      header = refl;
      cells = record {
        total = omega (arith, take_cell-free mp.pool mp.freelist, length-append db.chunks (c ∷ []));
      };
    }

clear_loop-free :
    (cs : List Chunk) (mp : MessagePool)
    → let mp' = clear_loop cs mp in
      (length mp'.freelist ≡ length mp.freelist + length cs) × (mp'.pool ≡ mp.pool)
unfolding clear_loop
clear_loop-free [] mp = (omega arith, refl)
clear_loop-free (c ∷ cs) mp =
    let (e, f) = clear_loop-free cs (give_cell c.cell mp) in (omega (arith, e), f)
