-- ===== src/Gate/Stream/Round.antt =====
-- One call of `dispatch_message`: the loop, for a connection that has a receiver.
use crynet.Prelude.{
  ℕ, zero, suc, ◌+◌, ◌≤◌, ◌<◌, ◌≡◌, refl, sym, ap, ◌∙◌, List, [], ◌∷◌, ◌++◌, Option, some, false,
  arith, ltb, leb, take, drop, length, Bool-cases, inl, inr, length-append, ◌^◌, length-drop,
}
use crynet.Prelude.Int.{pos, negsuc}
use crynet.Gate.{Gate, Connection, Action, forward, deliver, dispatch_loop, after}
use crynet.Gate.Buffer.{Databuffer, MessagePool, readheader, decode, reset}
use crynet.Gate.Buffer.Step.{asked, readheader_short, readheader_known, readheader_parse}
use crynet.Gate.Buffer.Read.{IsValid, contents, read-Reads}
use crynet.Gate.Buffer.Header.{be_bytes, limit, IsHeaderSize, decode-be_bytes, length-be_bytes}
use mathlib.Core.List.{append_assoc}
use mathlib.Core.Path.{subst}
use crynet.Gate.Stream.{frame, stream, AllFit, sent, Waits, between, inside, prefix, after_nil}

module _ (data_line : ℕ → List ℕ) (g : Gate) (c : Connection) (id : ℕ) (act : List ℕ → Action) where
  -- The connection with another buffer.
  abbrev pub with_buffer : Databuffer → Connection
  with_buffer db = record c { buffer = db }

  -- Every message of the connection is delivered in one way.
  abbrev pub Receives : Type 0
  Receives =
      (db : Databuffer) (mp : MessagePool) (size : ℕ)
      → forward data_line g (with_buffer db) mp size ≡ deliver (with_buffer db) mp size act

  -- What a round of the program leaves: some messages are sent, and others waited for; when no more
  -- bytes are to come, none is.
  pub record Done (ms : List (List ℕ)) (future : List ℕ)
      (r : Option (List Action × Connection × MessagePool)) : Type 0 where
    pub now : List (List ℕ)
    pub later : List (List ℕ)
    pub db : Databuffer
    pub mp : MessagePool
    pub run : r ≡ some (sent act now, with_buffer db, mp)
    pub valid : IsValid db
    pub split : ms ≡ now ++ later
    pub waits : Waits g.header_size db future later
    pub whole : future ≡ [] → later ≡ []

  stopped :
      (ms : List (List ℕ)) (future : List ℕ) (db : Databuffer) (mp : MessagePool)
      → IsValid db
      → Waits g.header_size db future ms
      → (future ≡ [] → ms ≡ [])
      → Done ms future (some ([], with_buffer db, mp))
  stopped ms future db mp v w last = record {
    now = [];
    later = ms;
    db = db;
    mp = mp;
    run = refl;
    valid = v;
    split = refl;
    waits = w;
    whole = last;
  }

  -- Before the end of a message no more can be read.
  pub stopped_between :
      (ms : List (List ℕ)) (future : List ℕ) (db : Databuffer)
      → IsHeaderSize g.header_size
      → IsValid db
      → db.size < g.header_size
      → contents db ++ future ≡ stream g.header_size ms
      → future ≡ []
      → ms ≡ []
  stopped_between [] future db hs v lt e last = refl
  stopped_between (m ∷ ms) future db hs v lt e last =
      let all : length (contents db) + length future ≡ length (stream g.header_size (m ∷ ms)) =
        sym (length-append (contents db) future) ∙ ap length e in
      absurd (
        omega (
          arith,
          v.size,
          ap length last,
          all,
          length-be_bytes g.header_size (length m) hs,
          length-append (frame g.header_size m) (stream g.header_size ms),
          length-append (be_bytes g.header_size (length m)) m,
        ))

  stopped_inside :
      (m : List ℕ) (ms : List (List ℕ)) (future : List ℕ) (db : Databuffer)
      → IsValid db
      → db.size < length m
      → contents db ++ future ≡ m ++ stream g.header_size ms
      → future ≡ []
      → m ∷ ms ≡ []
  stopped_inside m ms future db v lt e last =
      let all =
        sym (length-append (contents db) future)
        ∙ ap length e
        ∙ length-append m (stream g.header_size ms) in
      absurd (omega (arith, v.size, ap length last, all))

  nil_of_length : (m : List ℕ) → length m ≡ 0 → m ≡ []
  nil_of_length [] e = refl
  nil_of_length (b ∷ m) e = absurd (omega arith)

  -- One message more in front of what a round sends.
  more :
      (m : List ℕ) (acts : List Action) (ms : List (List ℕ)) (future : List ℕ)
      (r r' : Option (List Action × Connection × MessagePool))
      → ((now : List (List ℕ)) → sent act (m ∷ now) ≡ acts ++ sent act now)
      → r' ≡ after acts r
      → Done ms future r
      → Done (m ∷ ms) future r'
  more m acts ms future r r' front e d = record {
    now = m ∷ d.now;
    later = d.later;
    db = d.db;
    mp = d.mp;
    run =
        e ∙ ap (after acts) d.run ∙ ap (λ l. some (l, with_buffer d.db, d.mp)) (sym (front d.now));
    valid = d.valid;
    split = ap (λ l. m ∷ l) d.split;
    waits = d.waits;
    whole = d.whole;
  }

  sent-empty :
      (m : List ℕ) → length m ≡ 0 → (now : List (List ℕ)) → sent act (m ∷ now) ≡ [] ++ sent act now
  sent-empty [] e now = refl
  sent-empty (b ∷ m) e now = absurd (omega arith)

  sent-full :
      (m : List ℕ) (k : ℕ)
      → length m ≡ suc k
      → (now : List (List ℕ)) → sent act (m ∷ now) ≡ (act m ∷ []) ++ sent act now
  sent-full [] k e now = absurd (omega arith)
  sent-full (b ∷ m) k e now = refl

  -- What the loop does with any fuel `f`.
  abbrev pub Continues : ℕ → List ℕ → Type 0
  Continues f future =
      (db : Databuffer) (mp : MessagePool) (ms : List (List ℕ))
      → IsValid db
      → db.size < f
      → AllFit g.header_size ms
      → Waits g.header_size db future ms
      → Done ms future (dispatch_loop data_line f g (with_buffer db) id mp)

  -- The header of an empty message is passed over.
  passed :
      (f : ℕ) (future : List ℕ)
      → Continues f future
      → (db db' : Databuffer) (mp mp' : MessagePool) (m : List ℕ) (ms : List (List ℕ))
      → readheader db mp g.header_size ≡ some (pos 0, db', mp')
      → db'.header ≡ pos 0
      → length m ≡ 0
      → IsValid db'
      → db'.size < f
      → AllFit g.header_size ms
      → contents db' ++ future ≡ m ++ stream g.header_size ms
      → Done (m ∷ ms) future (dispatch_loop data_line (suc f) g (with_buffer db) id mp)
  unfolding dispatch_loop
  passed f future go db db' mp mp' m ms r hdr len v small fit e =
      more m [] ms future _ _ (sent-empty m len) (rw (dispatch_loop, r) (sym (after_nil _))) (
        go db' mp' ms v small fit
          (between ms hdr (e ∙ ap (λ l. l ++ stream g.header_size ms) (nil_of_length m len))))

  -- A message that has come is sent.
  delivered :
      (f : ℕ) (future : List ℕ)
      → Continues f future
      → Receives
      → (db db' : Databuffer) (mp mp' : MessagePool) (m : List ℕ) (ms : List (List ℕ)) (k : ℕ)
      → readheader db mp g.header_size ≡ some (pos (suc k), db', mp')
      → length m ≡ suc k
      → suc k < 2 ^ 24
      → IsValid db'
      → db'.size < f + suc k
      → suc k ≤ db'.size
      → AllFit g.header_size ms
      → contents db' ++ future ≡ m ++ stream g.header_size ms
      → Done (m ∷ ms) future (dispatch_loop data_line (suc f) g (with_buffer db) id mp)
  unfolding dispatch_loop reset
  delivered f future go receives db db' mp mp' m ms k r len small v fuel enough fit e =
      let (db₂, mp₂, reads) = read-Reads db' mp' (suc k) v (omega arith) enough in
      let (taken, left) =
        prefix (contents db') future m (stream g.header_size ms) e (omega (arith, v.size)) in
      let test : leb 0x1000000 (suc k) ≡ false = ground arith in
      more m (act m ∷ []) ms future _ _ (sent-full m k len)
        (rw (dispatch_loop, r, test, receives db' mp' (suc k), reads.run)
          (ap
            (λ (b : List ℕ).
              after (act b ∷ []) (dispatch_loop data_line f g (with_buffer (reset db₂)) id mp₂))
            (ap (λ (n : ℕ). take n (contents db')) (sym len) ∙ taken)))
        (go (reset db₂) mp₂ ms (record { size = reads.valid.size; offset = reads.valid.offset })
          (omega (
            arith,
            reads.valid.size,
            ap length reads.left,
            length-drop (suc k) (contents db'),
            v.size,
          ))
          fit
          (between ms refl (
            ap (λ l. l ++ future) (reads.left ∙ ap (λ (n : ℕ). drop n (contents db')) (sym len))
            ∙ left)))

  -- The rest of a round, once the header says `n`.
  answered :
      (f : ℕ) (future : List ℕ)
      → Continues f future
      → Receives
      → (db db' : Databuffer) (mp mp' : MessagePool) (m : List ℕ) (ms : List (List ℕ)) (n : ℕ)
      → readheader db mp g.header_size ≡ some (asked n db' mp')
      → db'.header ≡ pos n
      → length m ≡ n
      → n < 2 ^ 24
      → IsValid db'
      → db'.size < f + n
      → AllFit g.header_size ms
      → contents db' ++ future ≡ m ++ stream g.header_size ms
      → Done (m ∷ ms) future (dispatch_loop data_line (suc f) g (with_buffer db) id mp)
  unfolding dispatch_loop
  answered f future go receives db db' mp mp' m ms zero r hdr len small v fuel fit e =
      let ready : ltb db'.size 0 ≡ false = ground arith in
      passed f future go db db' mp mp' m ms (rw ready at r) hdr len v (omega arith) fit e
  answered f future go receives db db' mp mp' m ms (suc k) r hdr len small v fuel fit e =
      elim (Bool-cases (ltb db'.size (suc k))) [
        | inl short ↦
            let r' : readheader db mp g.header_size ≡ some (negsuc 0, db', mp') = rw short at r in
            let lt : db'.size < length m = ground arith in
            subst (Done (m ∷ ms) future) (sym (rw (dispatch_loop, r') refl)) (
              stopped (m ∷ ms) future db' mp' v (inside m ms k len hdr e)
                (stopped_inside m ms future db' v lt e))
        | inr ready ↦
            delivered f future go receives db db' mp mp' m ms k (rw ready at r) len small v fuel
              (ground arith) fit e
      ]

  positive : IsHeaderSize g.header_size → 0 < g.header_size
  positive (inl e) = omega arith
  positive (inr e) = omega arith

  limit-lt : (n : ℕ) → IsHeaderSize g.header_size → n < limit g.header_size → n < 2 ^ 24
  limit-lt n (inl e) h = let small : n < 2 ^ 16 = rw e at h in omega arith
  limit-lt n (inr e) h = rw e at h

  -- A header is read and answered.
  opened :
      (f : ℕ) (future : List ℕ)
      → Continues f future
      → Receives
      → IsHeaderSize g.header_size
      → (db : Databuffer) (mp : MessagePool) (ms : List (List ℕ)) → IsValid db
      → g.header_size ≤ db.size
      → db.size < suc f
      → AllFit g.header_size ms
      → db.header ≡ pos 0
      → contents db ++ future ≡ stream g.header_size ms
      → Done ms future (dispatch_loop data_line (suc f) g (with_buffer db) id mp)
  opened f future go receives hs db mp [] v long fuel fit hdr e =
      absurd (omega (arith, v.size, ap length e, length-append (contents db) future, positive hs))
  opened f future go receives hs db mp (m ∷ ms) v long fuel (fits, fit) hdr e =
      let h = g.header_size in
      let (db', mp', reads) = read-Reads db mp h v (positive hs) long in
      let size = length-be_bytes h (length m) hs in
      let e' : contents db ++ future ≡ be_bytes h (length m) ++ (m ++ stream h ms) =
        e ∙ append_assoc (be_bytes h (length m)) m (stream h ms) in
      let (taken, left) =
        prefix (contents db) future (be_bytes h (length m)) (m ++ stream h ms) e'
          (omega (arith, size, v.size)) in
      let decoded : decode h (take h (contents db)) ≡ pos (length m) =
        ap (decode h) (ap (λ (n : ℕ). take n (contents db)) (sym size) ∙ taken)
        ∙ decode-be_bytes h (length m) hs fits in
      let db'' = record db' { header = pos (length m) } in
      answered f future go receives db db'' mp mp' m ms (length m)
        (readheader_parse db mp h (length m) hdr long db' mp' reads decoded) refl refl
        (limit-lt (length m) hs fits)
        (record { size = reads.valid.size; offset = reads.valid.offset })
        (omega (
          arith,
          reads.valid.size,
          ap length reads.left,
          length-drop h (contents db),
          v.size,
          positive hs,
        ))
        fit
        (ap (λ l. l ++ future) (reads.left ∙ ap (λ (n : ℕ). drop n (contents db)) (sym size))
          ∙ left)

  -- With more fuel than there are bytes the loop comes to its end.
  pub loop-Continues :
      (f : ℕ) (future : List ℕ) → Receives → IsHeaderSize g.header_size → Continues f future
  unfolding dispatch_loop
  loop-Continues zero future receives hs db mp ms v fuel fit w = absurd (omega arith)
  loop-Continues (suc f) future receives hs db mp _ v fuel fit (inside m ms n len hdr e) =
      answered f future (loop-Continues f future receives hs) receives db db mp mp m ms (suc n)
        (readheader_known db mp g.header_size n hdr) hdr len
        (omega (arith, len, limit-lt (length m) hs fit.0)) v (omega arith) fit.1 e
  loop-Continues (suc f) future receives hs db mp _ v fuel fit (between ms hdr e) =
      elim (Bool-cases (ltb db.size g.header_size)) [
        | inl short ↦
            let lt : db.size < g.header_size = ground arith in
            subst (Done ms future)
              (sym (rw (dispatch_loop, readheader_short db mp g.header_size hdr lt) refl))
              (stopped ms future db mp v (between ms hdr e)
                (stopped_between ms future db hs v lt e))
        | inr long ↦
            opened f future (loop-Continues f future receives hs) receives hs db mp ms v
              (ground arith) fuel fit hdr e
      ]
