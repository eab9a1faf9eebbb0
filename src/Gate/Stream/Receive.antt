-- ===== src/Gate/Stream/Receive.antt =====
-- All the bytes that a connection receives, however they are cut.
use Prim.Native.Nat.{bit_or}
use crynet.Prelude.{
  ℕ, ◌+◌, ◌<◌, ◌≡◌, refl, sym, ap, ◌∙◌, List, [], ◌∷◌, ◌++◌, Option, some, arith, ltb,
  if◌then◌else◌, inl, inr, ◌⊎◌, ◌>>=◌, flatten,
}
use crynet.Prelude.Int.{pos}
use crynet.Gate.{
  Gate, Connection, Action, send, forward, dispatch_message, after, fd_of, ptype_text,
  ptype_tag_dontcopy,
}
use crynet.Gate.Buffer.{Databuffer, MessagePool, empty}
use crynet.Gate.Buffer
use crynet.Gate.Buffer.Read.{IsValid, contents}
use crynet.Gate.Buffer.Push.{push-Pushes}
use crynet.Gate.Buffer.Header.{IsHeaderSize}
use crynet.Gate.Stream.{
  stream, AllFit, sent, Waits, between, inside, append_assoc, append-nil, subst,
}
use crynet.Gate.Stream.Round.{Done, Receives, loop-Continues, stopped_between}
use mathlib.Core.List.{append_assoc, append-nil, cons-ne-nil}
use mathlib.Core.Path.{subst}

-- `dispatch_message` for each chunk that comes.
abbrev pub receive_all :
    (ℕ → List ℕ)
    → Gate
    → Connection
    → ℕ
    → MessagePool
    → List (List ℕ)
    → Option (List Action × Connection × MessagePool)
receive_all data_line g c id mp [] = some ([], c, mp)
receive_all data_line g c id mp (d ∷ ds) =
    dispatch_message data_line g c id mp d >>= λ (acts, c', mp').
    after acts (receive_all data_line g c' id mp' ds)

-- The connection is open, and there is someone to send its messages to.
abbrev pub HasReceiver : Gate → Connection → Type 0
HasReceiver g c = (0 < fd_of c) × ((0 < g.broker) ⊎ (0 < c.agent) ⊎ (0 < g.watchdog))

-- How a message is sent: to the broker, else to the agent, else to the watchdog.
abbrev pub message : (ℕ → List ℕ) → Gate → Connection → List ℕ → Action
message data_line g c bytes =
    if ltb 0 g.broker
    then send 0 g.broker (bit_or g.client_tag ptype_tag_dontcopy) (fd_of c) bytes
    else if ltb 0 c.agent
    then send c.client c.agent (bit_or g.client_tag ptype_tag_dontcopy) (fd_of c) bytes
    else send 0 g.watchdog (bit_or ptype_text ptype_tag_dontcopy) (fd_of c)
        (data_line (fd_of c) ++ bytes)

Waits-push :
    (h : ℕ) (db db' : Databuffer) (d future : List ℕ) (ms : List (List ℕ))
    → db'.header ≡ db.header
    → contents db' ≡ contents db ++ d
    → Waits h db (d ++ future) ms
    → Waits h db' future ms
Waits-push h db db' d future _ hdr c (between ms e f) =
    between ms (hdr ∙ e) (ap (λ l. l ++ future) c ∙ append_assoc (contents db) d future ∙ f)
Waits-push h db db' d future _ hdr c (inside m ms n len e f) =
    inside m ms n len (hdr ∙ e) (ap (λ l. l ++ future) c ∙ append_assoc (contents db) d future ∙ f)

module _ (data_line : ℕ → List ℕ) (g : Gate) (c : Connection) (id : ℕ) where
  message-Receives : HasReceiver g c → Receives data_line g c id (message data_line g c)
  unfolding forward
  message-Receives (open_fd, inl h) db mp size = ground arith
  message-Receives (open_fd, inr (inl h)) db mp size = ground arith
  message-Receives (open_fd, inr (inr h)) db mp size = ground arith

  -- One chunk.
  dispatch_message-Done :
      HasReceiver g c
      → IsHeaderSize g.header_size
      → (db : Databuffer) (mp : MessagePool) (d future : List ℕ) (ms : List (List ℕ)) → IsValid db
      → AllFit g.header_size ms
      → Waits g.header_size db (d ++ future) ms
      → Done data_line g c id
          (message data_line g c)
          ms
          future
          (dispatch_message data_line g (record c { buffer = db }) id mp d)
  unfolding dispatch_message
  dispatch_message-Done has hs db mp d future ms v fit w =
      let p = push-Pushes db mp d v in
      let (db', mp') = Buffer.push db mp d in
      loop-Continues data_line g c id (message data_line g c) (db'.size + 2) future
        (message-Receives has) hs db' mp' ms p.valid (omega arith) fit
        (Waits-push g.header_size db db' d future ms p.header p.appended w)

AllFit-later : (h : ℕ) (now later : List (List ℕ)) → AllFit h (now ++ later) → AllFit h later
AllFit-later h [] later fit = fit
AllFit-later h (m ∷ now) later fit = AllFit-later h now later fit.1

sent-append :
    (act : List ℕ → Action) (xs ys : List (List ℕ))
    → sent act (xs ++ ys) ≡ sent act xs ++ sent act ys
sent-append act [] ys = refl
sent-append act ([] ∷ xs) ys = sent-append act xs ys
sent-append act ((b ∷ m) ∷ xs) ys = ap (λ l. act (b ∷ m) ∷ l) (sent-append act xs ys)

-- With nothing to wait for and nothing to come, the buffer is empty.
Waits-end :
    (h : ℕ) (db : Databuffer) (ms : List (List ℕ))
    → Waits h db [] ms
    → ms ≡ []
    → (db.header ≡ pos 0) × (contents db ≡ [])
Waits-end h db _ (between ms e f) none_left =
    (e, sym (append-nil (contents db)) ∙ f ∙ ap (stream h) none_left)
Waits-end h db _ (inside m ms n len e f) none_left = absurd (cons-ne-nil m ms none_left)

module _ (data_line : ℕ → List ℕ) (g : Gate) (c : Connection) (id : ℕ) (has : HasReceiver g c)
    (hs : IsHeaderSize g.header_size) where
  -- What all the chunks lead to.
  abbrev pub Received : Databuffer → MessagePool → List (List ℕ) → List (List ℕ) → Type 0
  Received db mp ds ms =
      (db' : Databuffer) × (mp' : MessagePool) × (receive_all data_line g (record c { buffer = db })
          id mp ds
        ≡ some (sent (message data_line g c) ms, record c { buffer = db' }, mp'))
      × (db'.header ≡ pos 0)
      × (contents db' ≡ [])

  collect :
      (ds : List (List ℕ)) (db : Databuffer) (mp : MessagePool) (ms : List (List ℕ))
      → IsValid db
      → AllFit g.header_size ms
      → Waits g.header_size db (flatten ds) ms
      → (flatten ds ≡ [] → ms ≡ [])
      → Received db mp ds ms
  collect [] db mp ms v fit w last =
      let none_left = last refl in
      let (hdr, nothing) = Waits-end g.header_size db ms w none_left in
      (
        db,
        mp,
        ap (λ l. some (sent (message data_line g c) l, record c { buffer = db }, mp))
            (sym none_left),
        hdr,
        nothing,
      )
  collect (d ∷ ds) db mp ms v fit w last =
      let act = message data_line g c in
      let r = dispatch_message-Done data_line g c id has hs db mp d (flatten ds) ms v fit w in
      let (db', mp', run, hdr, nothing) =
        collect ds r.db r.mp r.later r.valid
          (AllFit-later g.header_size r.now r.later (subst (AllFit g.header_size) r.split fit))
          r.waits r.whole in
      (
        db',
        mp',
        rw (r.run, run)
            (ap (λ l. some (l, record c { buffer = db' }, mp'))
              (sym (sent-append act r.now r.later) ∙ ap (sent act) (sym r.split))),
        hdr,
        nothing,
      )

  -- The bytes that frame the messages `ms`, each within the limit of the header, give these messages
  -- in order, less the empty ones, in whatever chunks the bytes come; then the buffer is empty.
  pub receive_all-stream :
      (mp : MessagePool) (ds ms : List (List ℕ))
      → AllFit g.header_size ms
      → flatten ds ≡ stream g.header_size ms
      → Received empty mp ds ms
  receive_all-stream mp ds ms fit e =
      let v : IsValid empty = record { size = refl; offset = refl } in
      collect ds empty mp ms v fit (between ms refl e) (λ none_come.
        stopped_between data_line g c id (message data_line g c) ms [] empty hs v (ground arith)
          (sym none_come ∙ e) refl)
