-- ===== src/Gate/Stream/Faults.antt =====
-- Bytes that are no frames of messages within the limit: what the gate does with them.
use crynet.Prelude.{
  ℕ, zero, suc, ◌+◌, ◌^◌, ◌≤◌, ◌≡◌, refl, sym, ap, ◌∙◌, List, [], ◌∷◌, ◌++◌, some, true, arith, leb,
  flatten,
}
use crynet.Prelude.Int.{pos, negsuc}
use crynet.Gate.{Gate, Connection, close, dispatch_message, dispatch_loop}
use crynet.Gate.Buffer.{
  Databuffer, MessagePool, readheader, empty, clear, clear_loop, reset, decode,
}
use crynet.Gate.Buffer
use crynet.Gate.Buffer.Read.{IsValid, contents}
use crynet.Gate.Buffer.Push.{push-Pushes}
use crynet.Gate.Buffer.Step.{readheader_negative}
use crynet.Gate.Stream.Receive.{receive_all}
use mathlib.Core.List.{append-nil, append_assoc}

module _ (data_line : ℕ → List ℕ) (g : Gate) (c : Connection) (id : ℕ) where
  waits_negative :
      (f : ℕ) (db : Databuffer) (mp : MessagePool) (n : ℕ)
      → db.header ≡ negsuc n
      → dispatch_loop data_line (suc f) g (record c { buffer = db }) id mp
        ≡ some ([], record c { buffer = db }, mp)
  unfolding dispatch_loop
  waits_negative f db mp n e = rw (dispatch_loop, readheader_negative db mp g.header_size n e) refl

  -- Once a header was read as a negative number, no byte that comes is used: nothing is sent or closed,
  -- and all the bytes pile up in the buffer.
  pub receive_all_stuck :
      (ds : List (List ℕ)) (db : Databuffer) (mp : MessagePool) (n : ℕ)
      → IsValid db
      → db.header ≡ negsuc n
      → (db' : Databuffer) × (mp' : MessagePool) × (receive_all data_line g
            (record c { buffer = db })
            id
            mp
            ds
          ≡ some ([], record c { buffer = db' }, mp'))
        × (contents db' ≡ contents db ++ flatten ds)
  unfolding dispatch_message
  receive_all_stuck [] db mp n v e = (db, mp, refl, sym (append-nil (contents db)))
  receive_all_stuck (d ∷ ds) db mp n v e =
      let p = push-Pushes db mp d v in
      let (db₁, mp₁) = Buffer.push db mp d in
      let fuel : db₁.size + 2 ≡ suc (db₁.size + 1) = omega arith in
      let (db', mp', run, all) = receive_all_stuck ds db₁ mp₁ n p.valid (p.header ∙ e) in
      (
        db',
        mp',
        rw (fuel, waits_negative (db₁.size + 1) db₁ mp₁ n (p.header ∙ e), run) refl,
        all ∙ ap (λ l. l ++ flatten ds) p.appended ∙ append_assoc (contents db) d (flatten ds),
      )

  -- A header that says 16M or more closes the socket, and the buffer is emptied.
  pub dispatch_loop-close :
      (f : ℕ) (db db' : Databuffer) (mp mp' : MessagePool) (n : ℕ)
      → readheader db mp g.header_size ≡ some (pos n, db', mp')
      → 2 ^ 24 ≤ n
      → dispatch_loop data_line (suc f) g (record c { buffer = db }) id mp
        ≡ some (close id ∷ [], record c { buffer = empty }, (clear db' mp').1)
  unfolding dispatch_loop clear
  dispatch_loop-close f db db' mp mp' zero r h = absurd (omega arith)
  dispatch_loop-close f db db' mp mp' (suc n) r h =
      let test : leb 0x1000000 (suc n) ≡ true = ground arith in rw (dispatch_loop, r, test) refl
