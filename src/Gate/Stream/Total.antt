-- ===== src/Gate/Stream/Total.antt =====
-- Whatever bytes come, `dispatch_message` ends, and its buffers stay valid.
use crynet.Prelude.{
  ℕ, zero, suc, ◌+◌, ◌≤◌, ◌<◌, ◌≡◌, refl, ap, ◌∙◌, List, [], ◌∷◌, ◌++◌, Option, some, false, arith,
  ltb, leb, length, inl, inr, Bool-cases, length-drop, take, ◌==◌, length-append,
}
use crynet.Prelude.Int.{ℤ, pos, negsuc}
use crynet.Gate.{
  Gate, Connection, Action, close, forward, deliver, dispatch_message, dispatch_loop, after, fd_of,
}
use crynet.Gate.Buffer.{Databuffer, MessagePool, readheader, empty, clear, reset, decode, read}
use crynet.Gate.Buffer
use crynet.Gate.Buffer.Read.{IsValid, contents, read-Reads}
use crynet.Gate.Buffer.Push.{push-Pushes}
use crynet.Gate.Buffer.Header.{IsHeaderSize}
use crynet.Gate.Buffer.Step.{
  answer, readheader_any, readheader_short, readheader_known, readheader_negative,
}

-- It ends, for the same socket, with a valid buffer of at most `size` bytes.
pub record Ends (c : Connection) (size : ℕ) (r : Option (List Action × Connection × MessagePool))
    : Type 0 where
  pub acts : List Action
  pub connection : Connection
  pub mp : MessagePool
  pub run : r ≡ some (acts, connection, mp)
  pub valid : IsValid connection.buffer
  pub id : connection.id ≡ c.id
  pub bound : connection.buffer.size ≤ size

deliver-Ends :
    (c : Connection) (mp : MessagePool) (n : ℕ) (act : List ℕ → Action)
    → IsValid c.buffer
    → 0 < n
    → n ≤ c.buffer.size
    → Ends c c.buffer.size (deliver c mp n act)
deliver-Ends c mp n act v pos_n enough =
    let (db, mp', r) = read-Reads c.buffer mp n v pos_n enough in
    record {
      acts = act (take n (contents c.buffer)) ∷ [];
      connection = record c { buffer = db };
      mp = mp';
      run = rw r.run refl;
      valid = r.valid;
      id = refl;
      bound =
          omega (arith, r.valid.size, ap length r.left, length-drop n (contents c.buffer), v.size);
    }

module _ (data_line : ℕ → List ℕ) (g : Gate) (id : ℕ) where
  forward-Ends :
      (c : Connection) (mp : MessagePool) (n : ℕ)
      → IsValid c.buffer
      → 0 < n
      → n ≤ c.buffer.size
      → Ends c c.buffer.size (forward data_line g c mp n)
  unfolding forward
  forward-Ends c mp n v pos_n enough =
      let skipped : Ends c c.buffer.size (some ([], c, mp)) = record {
        acts = [];
        connection = c;
        mp = mp;
        run = refl;
        valid = v;
        id = refl;
        bound = omega arith;
      } in
      let sent = λ (act : List ℕ → Action). deliver-Ends c mp n act v pos_n enough in
      elim (Bool-cases (fd_of c == 0)) [
        | inl e ↦ rw (forward, e) skipped
        | inr e ↦ elim (Bool-cases (ltb 0 g.broker)) [
          | inl b ↦ rw (forward, e, b) (sent _)
          | inr b ↦ elim (Bool-cases (ltb 0 c.agent)) [
            | inl a ↦ rw (forward, e, b, a) (sent _)
            | inr a ↦ elim (Bool-cases (ltb 0 g.watchdog)) [
              | inl w ↦ rw (forward, e, b, a, w) (sent _)
              | inr w ↦ rw (forward, e, b, a, w) skipped
            ]
          ]
        ]
      ]

  -- The loop with fuel `f`, for a connection whose next header is not read yet.
  abbrev Goes : ℕ → Type 0
  Goes f =
      (c : Connection) (mp : MessagePool)
      → IsValid c.buffer
      → c.buffer.header ≡ pos 0
      → c.buffer.size < f
      → Ends c c.buffer.size (dispatch_loop data_line f g c id mp)

  -- More actions in front, and fewer bytes before.
  Ends-after :
      (c c' : Connection) (acts : List Action) (size size' : ℕ)
      (r r' : Option (List Action × Connection × MessagePool))
      → c'.id ≡ c.id
      → size' ≤ size
      → r' ≡ after acts r
      → Ends c' size' r
      → Ends c size r'
  Ends-after c c' acts size size' r r' same le e d = record {
    acts = acts ++ d.acts;
    connection = d.connection;
    mp = d.mp;
    run = e ∙ ap (after acts) d.run;
    valid = d.valid;
    id = d.id ∙ same;
    bound = omega (arith, d.bound);
  }

  stop :
      (c : Connection) (db : Databuffer) (mp : MessagePool) (acts : List Action) (size : ℕ)
      → IsValid db
      → db.size ≤ size
      → Ends c size (some (acts, record c { buffer = db }, mp))
  stop c db mp acts size v le = record {
    acts = acts;
    connection = record c { buffer = db };
    mp = mp;
    run = refl;
    valid = v;
    id = refl;
    bound = le;
  }

  -- A message that has come, of `n + 1` bytes.
  ready :
      (f : ℕ)
      → Goes f
      → (c : Connection) (db : Databuffer) (mp mp' : MessagePool) (n size : ℕ)
      → readheader c.buffer mp g.header_size ≡ some (pos (suc n), db, mp')
      → IsValid db
      → suc n ≤ db.size
      → db.size < f
      → db.size ≤ size
      → Ends c size (dispatch_loop data_line (suc f) g c id mp)
  unfolding dispatch_loop reset clear
  ready f go c db mp mp' n size r v enough fuel le = elim (Bool-cases (leb 0x1000000 (suc n))) [
    | inl big ↦
        rw (dispatch_loop, r, big)
          (stop c empty (clear db mp').1 (close id ∷ []) size
            (record { size = refl; offset = refl }) (omega arith))
    | inr fits ↦
        let s = forward-Ends (record c { buffer = db }) mp' (suc n) v (omega arith) enough in
        let c' = record s.connection { buffer = reset s.connection.buffer } in
        let d =
          go c' s.mp (record { size = s.valid.size; offset = s.valid.offset }) refl
            (omega (arith, s.bound)) in
        Ends-after c c' s.acts size c'.buffer.size _ _ s.id (omega (arith, s.bound))
          (rw (dispatch_loop, r, fits, s.run) refl) d
  ]

  -- A round, by what the header says.
  round :
      (f : ℕ)
      → Goes f
      → (z : ℤ) (c : Connection) (db : Databuffer) (mp mp' : MessagePool) (size : ℕ)
      → readheader c.buffer mp g.header_size ≡ some (answer z db mp')
      → db.header ≡ z
      → IsValid db
      → db.size < f
      → db.size ≤ size
      → Ends c size (dispatch_loop data_line (suc f) g c id mp)
  unfolding dispatch_loop
  round f go (negsuc n) c db mp mp' size r hdr v fuel le =
      rw (dispatch_loop, r) (stop c db mp' [] size v le)
  round f go (pos zero) c db mp mp' size r hdr v fuel le =
      let none_short : ltb db.size 0 ≡ false = ground arith in
      let r' : readheader c.buffer mp g.header_size ≡ some (pos 0, db, mp') = rw none_short at r in
      let d = go (record c { buffer = db }) mp' v hdr fuel in
      rw (dispatch_loop, r')
        (record {
          acts = d.acts;
          connection = d.connection;
          mp = d.mp;
          run = d.run;
          valid = d.valid;
          id = d.id;
          bound = omega (arith, d.bound);
        })
  round f go (pos (suc n)) c db mp mp' size r hdr v fuel le =
      elim (Bool-cases (ltb db.size (suc n))) [
        | inl short ↦
            let r' : readheader c.buffer mp g.header_size ≡ some (negsuc 0, db, mp') =
              rw short at r in
            rw (dispatch_loop, r') (stop c db mp' [] size v le)
        | inr long ↦ ready f go c db mp mp' n size (rw long at r) v (ground arith) fuel le
      ]

  loop-Goes : (f : ℕ) → IsHeaderSize g.header_size → Goes f
  unfolding dispatch_loop
  loop-Goes zero hs c mp v hdr fuel = absurd (omega arith)
  loop-Goes (suc f) hs c mp v hdr fuel = elim (Bool-cases (ltb c.buffer.size g.header_size)) [
    | inl short ↦
        rw (dispatch_loop, readheader_short c.buffer mp g.header_size hdr (ground arith))
          (stop c c.buffer mp [] c.buffer.size v (omega arith))
    | inr long ↦
        let h = g.header_size in
        let positive : 0 < h = elim hs [ inl e ↦ omega arith | inr e ↦ omega arith ] in
        let (db, mp', r) = read-Reads c.buffer mp h v positive (ground arith) in
        let z = decode h (take h (contents c.buffer)) in
        let less : db.size + h ≡ c.buffer.size =
          let long' : h ≤ c.buffer.size = ground arith in
          omega
            (arith, r.valid.size, ap length r.left, length-drop h (contents c.buffer), v.size) in
        round f (loop-Goes f hs) z c (record db { header = z }) mp mp' c.buffer.size
          (readheader_any c.buffer mp h hdr (omega (arith, less)) db mp' r) refl
          (record { size = r.valid.size; offset = r.valid.offset }) (omega (arith, less))
          (omega (arith, less))
  ]

  -- With a header that is read already, one round more.
  loop-Ends :
      (f : ℕ)
      → IsHeaderSize g.header_size
      → (z : ℤ) (c : Connection) (mp : MessagePool) → IsValid c.buffer
      → c.buffer.header ≡ z
      → c.buffer.size + 1 < suc f
      → Ends c c.buffer.size (dispatch_loop data_line (suc f) g c id mp)
  loop-Ends f hs (pos zero) c mp v hdr fuel = loop-Goes (suc f) hs c mp v hdr (omega arith)
  loop-Ends f hs (pos (suc n)) c mp v hdr fuel =
      round f (loop-Goes f hs) (pos (suc n)) c c.buffer mp mp c.buffer.size
        (readheader_known c.buffer mp g.header_size n hdr) hdr v (omega arith) (omega arith)
  loop-Ends f hs (negsuc n) c mp v hdr fuel =
      round f (loop-Goes f hs) (negsuc n) c c.buffer mp mp c.buffer.size
        (readheader_negative c.buffer mp g.header_size n hdr) hdr v (omega arith) (omega arith)

  -- For any connection with a valid buffer, and any bytes: the call ends without a fault, leaves a valid
  -- buffer, and holds back no more bytes than there were.
  pub dispatch_message-Ends :
      (c : Connection) (mp : MessagePool) (bytes : List ℕ)
      → IsHeaderSize g.header_size
      → IsValid c.buffer
      → Ends c (c.buffer.size + length bytes) (dispatch_message data_line g c id mp bytes)
  unfolding dispatch_message
  dispatch_message-Ends c mp bytes hs v =
      let p = push-Pushes c.buffer mp bytes v in
      let (db, mp') = Buffer.push c.buffer mp bytes in
      let size : db.size ≡ c.buffer.size + length bytes = omega (
        arith,
        p.valid.size,
        ap length p.appended,
        length-append (contents c.buffer) bytes,
        v.size,
      ) in
      let fuel : db.size + 2 ≡ suc (db.size + 1) = omega arith in
      let d =
        loop-Ends (db.size + 1) hs db.header (record c { buffer = db }) mp' p.valid refl
          (omega arith) in
      rw fuel (record {
        acts = d.acts;
        connection = d.connection;
        mp = d.mp;
        run = d.run;
        valid = d.valid;
        id = d.id;
        bound = omega (arith, d.bound, size);
      })
