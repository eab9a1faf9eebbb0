-- ===== src/Gate/Socket/Inv.antt =====
-- What holds of the gate between the messages of its sockets.
use crynet.Prelude.{
  ℕ, ◌+◌, ◌^◌, ◌≤◌, ◌≡◌, ◌≢◌, refl, sym, ap, ◌∙◌, List, Option, some, true, inl, inr, Option-cases,
  Bool-cases, update, update_cases, ==-eq, ==-ne, [], ◌⊎◌, false, none,
}
use crynet.Gate.{Gate, Connection, Action, with_conn, [], false, none}
use crynet.Gate.Buffer.{empty, clear}
use crynet.Gate.Buffer.Read
use crynet.Gate.Buffer.Header.{IsHeaderSize}
use crynet.Gate.Ids.{Hashid, full}
use crynet.Gate.Ids
use crynet.Gate.Ids.Valid
use crynet.Gate.Ids.Valid.{lookup_found, lookup_missed, found_or_missed}
use crynet.Gate.Ids.Insert.{insert-Inserted, not_full}
use crynet.Gate.Ids.Remove.{remove-Removed, remove_missed}
use crynet.Gate.Stream.Total.{dispatch_message-Ends}
use crynet.Gate.Socket.{
  init, SocketMessage, received, connected, closed, accepted, failed, warned, no_connection,
  on_data, on_accept, on_close, on_connect, dispatch_socket_message, same_id,
}
use native.Mathlib.Decide.{ℕ_discrete}
use mathlib.Core.Path.{subst}
use mathlib.Core.Option.{none-ne-some, some-injective}

-- Node and connection of one index have one id.
pub record IsValid (g : Gate) : Type 0 where
  pub size : IsHeaderSize g.header_size
  pub ids : Valid.IsValid g.hash
  pub same : (i : ℕ) → g.hash.id i ≡ (g.conn i).id
  pub buffers : (i : ℕ) → Read.IsValid (g.conn i).buffer

-- A socket that is accepted is new, and its id is not so great that
-- a sum with it overflows.
abbrev pub IsAllowed : Gate → SocketMessage → Type 0
IsAllowed g (received id bytes) = Unit {0}
IsAllowed g (connected id) = Unit {0}
IsAllowed g (closed id) = Unit {0}
IsAllowed g (accepted id ud text) = ((i : ℕ) → g.hash.id i ≢ some ud) × (g.hash.cap + ud ≤ 2 ^ 31)
IsAllowed g (failed id) = Unit {0}
IsAllowed g (warned id ud) = Unit {0}

-- A connection is accepted at a socket that the gate does not listen on, or no more.
abbrev pub IsStray : Gate → SocketMessage → Type 0
IsStray g (received id bytes) = ⊥
IsStray g (connected id) = ⊥
IsStray g (closed id) = ⊥
IsStray g (accepted id ud text) = g.listen_id ≢ some id
IsStray g (failed id) = ⊥
IsStray g (warned id ud) = ⊥

same_id_iff :
    (o : Option ℕ) (id : ℕ)
    → ((same_id o id ≡ true) × (o ≡ some id)) ⊎ ((same_id o id ≡ false) × (o ≢ some id))
same_id_iff none id = inr (refl, λ e. none-ne-some _ e)
same_id_iff (some j) id = elim (ℕ_discrete j id) [
  | yes e ↦ inl (==-eq j id e, ap some e)
  | no ne ↦ inr (==-ne j id ne, λ e. ne (some-injective _ _ e))
]

-- Another connection at one index.
with_conn-IsValid :
    {g : Gate}
    → IsValid g
    → (i : ℕ) (c : Connection) (hash : Hashid) (g' : Gate) → (g'.header_size ≡ g.header_size)
    → (g'.hash ≡ hash)
    → (g'.conn ≡ update g.conn i c)
    → Valid.IsValid hash
    → Read.IsValid c.buffer
    → ((j : ℕ) → hash.id j ≡ update g.hash.id i c.id j)
    → IsValid g'
with_conn-IsValid {g} v i c hash g' hs e f ids buffer same = record {
  size = subst IsHeaderSize (sym hs) v.size;
  ids = subst Valid.IsValid (sym e) ids;
  same = λ j.
      ap (λ (h : Hashid). h.id j) e
      ∙ same j
      ∙ pick j
      ∙ ap (λ (k : ℕ → Connection). (k j).id) (sym f);
  buffers = λ j. subst (λ (k : ℕ → Connection). Read.IsValid (k j).buffer) (sym f) (buffer_at j);
}
  where
    pick : (j : ℕ) → update g.hash.id i c.id j ≡ (update g.conn i c j).id
    pick j = elim (ℕ_discrete i j) [
      | yes here ↦ rw (==-eq i j here) refl
      | no ne ↦ rw (==-ne i j ne) (v.same j)
    ]

    buffer_at : (j : ℕ) → Read.IsValid (update g.conn i c j).buffer
    buffer_at j = elim (ℕ_discrete i j) [
      | yes here ↦ rw (==-eq i j here) buffer
      | no ne ↦ rw (==-ne i j ne) (v.buffers j)
    ]

-- A handler ends without a fault, and leaves a gate that is valid and listens as before.
pub record Handled (g : Gate) (r : Option (List Action × Gate)) : Type 0 where
  pub acts : List Action
  pub gate : Gate
  pub run : r ≡ some (acts, gate)
  pub valid : IsValid gate
  pub kept : (gate.listen_id ≡ g.listen_id) × (gate.header_size ≡ g.header_size)

unchanged : (g : Gate) (acts : List Action) → IsValid g → Handled g (some (acts, g))
unchanged g acts v = record { acts = acts; gate = g; run = refl; valid = v; kept = (refl, refl) }

module _ (data_line close_line : ℕ → List ℕ) (open_line : ℕ → List ℕ → List ℕ) (g : Gate)
    (v : IsValid g) where
  on_data-Handled :
      (id : ℕ) (bytes : List ℕ) → Handled g (on_data data_line close_line open_line g id bytes)
  unfolding on_data
  on_data-Handled id bytes = elim (Option-cases (Ids.lookup g.hash id)) [
    | inl e ↦ rw (on_data, e) (unchanged g _ v)
    | inr (i, e) ↦
        let d = dispatch_message-Ends data_line g id (g.conn i) g.mp bytes v.size (v.buffers i) in
        let c = d.connection in
        rw (on_data, e, d.run)
          (record {
            acts = d.acts;
            gate = record (with_conn g i c) { mp = d.mp };
            run = refl;
            valid =
                with_conn-IsValid v i c g.hash (record (with_conn g i c) { mp = d.mp }) refl refl
                  refl v.ids d.valid
                  (λ j. elim (update_cases g.hash.id i c.id j) [
                    | inl (here, now) ↦ ap g.hash.id (sym here) ∙ v.same i ∙ sym d.id ∙ sym now
                    | inr (_, old) ↦ sym old
                  ]);
            kept = (refl, refl);
          })
  ]

  on_connect-Handled : (id : ℕ) → Handled g (some (on_connect data_line close_line open_line g id))
  unfolding on_connect
  on_connect-Handled id = elim (Bool-cases (same_id g.listen_id id)) [
    | inl e ↦ rw (on_connect, e) (unchanged g _ v)
    | inr e ↦ rw (on_connect, e) (unchanged g _ v)
  ]

  on_close-Handled : (id : ℕ) → Handled g (some (on_close data_line close_line open_line g id))
  unfolding on_close clear
  on_close-Handled id = elim (found_or_missed v.ids id) [
    | inr out ↦
        rw (on_close, remove_missed g.hash id v.ids out, remove_missed g.hash id v.ids out)
          (unchanged g _ v)
    | inl (i, at) ↦
        let (hash, run, r) = remove-Removed g.hash i id v.ids at in
        let empty_valid : Read.IsValid empty = record { size = refl; offset = refl } in
        rw (on_close, run, run)
          (record {
            acts = _;
            gate = _;
            run = refl;
            valid =
                with_conn-IsValid v i no_connection hash _ refl refl refl r.valid empty_valid r.ids;
            kept = (refl, refl);
          })
  ]

  on_accept-Handled :
      (id ud : ℕ) (text : List ℕ)
      → IsAllowed g (accepted id ud text)
      → Handled g (on_accept data_line close_line open_line g id ud text)
        ⊎ (IsStray g (accepted id ud text)
            × (on_accept data_line close_line open_line g id ud text ≡ none))
  unfolding on_accept
  on_accept-Handled id ud text (new, small) = elim (same_id_iff g.listen_id id) [
    | inr (stray, ne) ↦ inr (ne, rw (on_accept, stray) refl)
    | inl (heard, _) ↦ inl (elim (Bool-cases (full g.hash)) [
      | inl e ↦ rw (on_accept, heard, e) (unchanged g _ v)
      | inr e ↦
          let (i, hash, run, r) = insert-Inserted g.hash ud v.ids (not_full v.ids e) small new in
          rw (on_accept, heard, e, run)
            (record {
              acts = _;
              gate = _;
              run = refl;
              valid = with_conn-IsValid v i _ hash _ refl refl refl r.valid (v.buffers i) r.ids;
              kept = (refl, refl);
            })
    ])
  ]

  -- A message of the sockets, which for an accepted connection brings an id that the gate does not have
  -- and that is not too great: either no assertion fails, no null pointer is read, the loops end, and the
  -- gate stays valid, listening as before and with headers of the same size; or a connection is accepted
  -- at a socket that the gate does not listen on, or no more, and the assertion on this fails.
  pub dispatch_socket_message-Handled :
      (m : SocketMessage)
      → IsAllowed g m
      → Handled g (dispatch_socket_message data_line close_line open_line g m)
        ⊎ (IsStray g m × (dispatch_socket_message data_line close_line open_line g m ≡ none))
  unfolding dispatch_socket_message
  dispatch_socket_message-Handled (received id bytes) h = inl (on_data-Handled id bytes)
  dispatch_socket_message-Handled (connected id) h = inl (on_connect-Handled id)
  dispatch_socket_message-Handled (closed id) h = inl (on_close-Handled id)
  dispatch_socket_message-Handled (accepted id ud text) h = on_accept-Handled id ud text h
  dispatch_socket_message-Handled (failed id) h = inl (on_close-Handled id)
  dispatch_socket_message-Handled (warned id ud) h = inl (unchanged g [] v)

-- The gate is valid when it starts, whether its headers have 2 bytes or 4.
pub init-IsValid :
    (watchdog client_tag header_size max : ℕ)
    → IsHeaderSize header_size
    → IsValid (init watchdog client_tag header_size max)
unfolding init
init-IsValid watchdog client_tag header_size max hs = record {
  size = hs;
  ids = Valid.init-IsValid max;
  same = λ i. Valid.init-id max i;
  buffers = λ i. record { size = refl; offset = refl };
}
