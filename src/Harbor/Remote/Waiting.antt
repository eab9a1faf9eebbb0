-- ===== src/Harbor/Remote/Waiting.antt =====
-- Messages to a node that is not connected yet wait in its queue, and are written in order once it is.
use crynet.Prelude.{
  ℕ, zero, suc, ◌/◌, ◌^◌, ◌<◌, ◌≡◌, ◌≢◌, refl, sym, ap, ◌∙◌, List, [], ◌∷◌, ◌++◌, Option, none,
  some, ◌==◌, ==-ne, true, false, ◌||◌, inl, inr, update_self, length, arith, Option-cases, ◌%◌,
  leb, ==-eq,
}
use crynet.Harbor.Remote.Frames.{frames, write_all-frames, header_for, header_of-header_for}
use crynet.Harbor.{RemoteHeader, HarborMsg, HarborMsgQueue, new_queue, push_queue, push_queue_msg}
use crynet.Harbor.Ring.{
  Holds, new_queue-Holds, push_queue_msg-Holds, pop_queue-Holds, pop_queue-Holds_empty,
}
use crynet.Harbor.Remote.{
  connect_command, handshake_of, start_socket, send_socket, header, Slave, Harbor, HarborAction,
  is_handshake, is_down, with_slave, drain, write_all, dispatch_queue, header_of,
  remote_send_handle, leb,
}
use mathlib.Core.Path.{subst}
use mathlib.Core.List.{append-nil, append_assoc}

-- A call of `remote_send_handle`.
pub record Call : Type 0 where
  pub source : ℕ
  pub destination : ℕ
  pub type : ℕ
  pub session : ℕ
  pub msg : List ℕ

-- The message that waits for a call.
abbrev pub waiting_of : Call → HarborMsg
waiting_of c = record {
  header = header_for c.source c.destination c.type c.session;
  buffer = c.msg;
}

coded-waiting_of :
    (c : Call)
    → ◌≡◌ {A = HarborMsg}
        (record { header = header_of c.source c.destination c.type c.session; buffer = c.msg })
        (waiting_of c)
coded-waiting_of c =
    ap (λ (h : RemoteHeader). record { header = h; buffer = c.msg })
      (header_of-header_for c.source c.destination c.type c.session)

-- The calls one after the other: what they do, and what becomes of the harbor.
abbrev pub send_all : Harbor → List Call → List HarborAction × Harbor
send_all h [] = ([], h)
send_all h (c ∷ cs) =
    let (_, acts, h') = remote_send_handle h c.source c.destination c.type c.session c.msg in
    let (later, end) = send_all h' cs in (acts ++ later, end)

abbrev pub AllTo : ℕ → List Call → Type 0
AllTo i [] = Unit {0}
AllTo i (c ∷ cs) = (c.destination / 2 ^ 24 ≡ i) × AllTo i cs

abbrev pub all_waiting : List Call → List HarborMsg
all_waiting [] = []
all_waiting (c ∷ cs) = waiting_of c ∷ all_waiting cs

-- A node that messages wait for: it is not connected, or its handshake is awaited, and it is not down.
abbrev pub IsAwaited : Slave → Type 0
IsAwaited s = ((s.fd == 0 || is_handshake s.status) ≡ true) × (is_down s.status ≡ false)

-- The messages in the queue of a node, if it has one.
abbrev pub Queued : Option HarborMsgQueue → List HarborMsg → Type 0
Queued none ms = ms ≡ []
Queued (some q) ms = Holds q ms

pub drain-Holds :
    (n : ℕ) {q : HarborMsgQueue} (ms : List HarborMsg) → Holds q ms → length ms < n → drain n q ≡ ms
unfolding drain
drain-Holds zero ms h lt = absurd (omega arith)
drain-Holds (suc n) {q} [] h lt = rw (drain, pop_queue-Holds_empty h) refl
drain-Holds (suc n) {q} (m ∷ ms) h lt =
    let (out, h') = pop_queue-Holds h in
    rw (drain, out) (ap (λ l. m ∷ l) (drain-Holds n ms h' (omega arith)))

-- The node is connected, as `harbor_command` does it for `A`.
abbrev pub connected : Harbor → ℕ → ℕ → Harbor
connected h i fd = with_slave h i (record (h.s i) { fd = fd; status = header })

dispatch_queue-none :
    (h : Harbor) (i : ℕ)
    → ((h.s i).fd == 0) ≡ false
    → (h.s i).queue ≡ none
    → dispatch_queue h i ≡ some ([], h)
unfolding dispatch_queue
dispatch_queue-none h i open_fd e = rw (dispatch_queue, open_fd, e) refl

dispatch_queue-some :
    (h : Harbor) (i fd : ℕ) (q : HarborMsgQueue) (ms : List HarborMsg)
    → (h.s i).fd ≡ fd
    → (fd == 0) ≡ false
    → (h.s i).queue ≡ some q
    → drain q.size q ≡ ms
    → dispatch_queue h i ≡ some (write_all fd ms, with_slave h i (record (h.s i) { queue = none }))
unfolding dispatch_queue
dispatch_queue-some h i fd q ms same open_fd e all =
    let open_slave : ((h.s i).fd == 0) ≡ false = ap (λ n. n == 0) same ∙ open_fd in
    rw (dispatch_queue, open_slave, e, all)
      (ap (λ n. some (write_all n ms, with_slave h i (record (h.s i) { queue = none }))) same)

dispatch_queue-Queued :
    (h : Harbor) (i fd : ℕ) (ms : List HarborMsg)
    → 0 < fd
    → Queued (h.s i).queue ms
    → (h' : Harbor) × (dispatch_queue (connected h i fd) i ≡ some (write_all fd ms, h'))
      × ((h'.s i).queue ≡ none)
unfolding dispatch_queue with_slave write_all
dispatch_queue-Queued h i fd ms pos held =
    let open_fd : (fd == 0) ≡ false = ground arith in
    let s : Slave = record (h.s i) { fd = fd; status = header } in
    let h' = connected h i fd in
    let here : h'.s i ≡ s = update_self h.s i s in
    elim (Option-cases (h.s i).queue) [
      | inl e ↦
          let none_wait : ms ≡ [] = subst (λ o. Queued o ms) e held in
          let left : (h'.s i).queue ≡ none = ap (λ (t : Slave). t.queue) here ∙ e in
          (
            h',
            rw none_wait
                (dispatch_queue-none h' i (ap (λ (t : Slave). t.fd == 0) here ∙ open_fd) left),
            left,
          )
      | inr (q, e) ↦
          let holds : Holds q ms = subst (λ o. Queued o ms) e held in
          let all = drain-Holds q.size ms holds holds.room in
          let s' : Slave = record (h'.s i) { queue = none } in
          (
            with_slave h' i s',
            dispatch_queue-some h' i fd q ms (ap (λ (t : Slave). t.fd) here) open_fd
                (ap (λ (t : Slave). t.queue) here ∙ e) all,
            ap (λ (t : Slave). t.queue) (update_self h'.s i s'),
          )
    ]

-- The queue that `remote_send_handle` adds to.
kept_queue :
    (o : Option HarborMsgQueue) (ms : List HarborMsg)
    → Queued o ms
    → Holds (elim o as (λ _. HarborMsgQueue) [ none ↦ new_queue | some q ↦ q ]) ms
kept_queue none ms e = subst (Holds new_queue) (sym e) new_queue-Holds
kept_queue (some q) ms h = h

call-Queued :
    (h : Harbor) (i : ℕ) (c : Call) (ms : List HarborMsg)
    → i ≢ h.id
    → IsAwaited (h.s i)
    → c.destination / 2 ^ 24 ≡ i
    → Queued (h.s i).queue ms
    → (h' : Harbor) × (remote_send_handle h c.source c.destination c.type c.session c.msg
        ≡ (true, [], h'))
      × (h'.id ≡ h.id)
      × ((h'.s i).fd ≡ (h.s i).fd)
      × IsAwaited (h'.s i)
      × Queued (h'.s i).queue (ms ++ waiting_of c ∷ [])
unfolding remote_send_handle with_slave push_queue
call-Queued h i c ms ne await to held =
    let kept : HarborMsgQueue = elim (h.s i).queue [ none ↦ new_queue | some q ↦ q ] in
    let coded : HarborMsg = record {
      header = header_of c.source c.destination c.type c.session;
      buffer = c.msg;
    } in
    let q' = push_queue_msg kept coded in
    let s' : Slave = record (h.s i) { queue = some q' } in
    let h' = with_slave h i s' in
    let here : h'.s i ≡ s' = update_self h.s i s' in
    (
      h',
      rw (remote_send_handle, to, ==-ne i h.id ne, await.0, await.1) refl,
      refl,
      ap (λ (s : Slave). s.fd) here,
      subst IsAwaited (sym here) await,
      subst (λ (s : Slave). Queued s.queue (ms ++ waiting_of c ∷ [])) (sym here)
          (subst (λ (m : HarborMsg). Holds q' (ms ++ m ∷ [])) (coded-waiting_of c)
            (push_queue_msg-Holds coded (kept_queue (h.s i).queue ms held))),
    )

send_all-Queued :
    (cs : List Call) (h : Harbor) (i : ℕ) (ms : List HarborMsg)
    → i ≢ h.id
    → IsAwaited (h.s i)
    → AllTo i cs
    → Queued (h.s i).queue ms
    → (h' : Harbor) × (send_all h cs ≡ ([], h'))
      × (h'.id ≡ h.id)
      × ((h'.s i).fd ≡ (h.s i).fd)
      × Queued (h'.s i).queue (ms ++ all_waiting cs)
send_all-Queued [] h i ms ne await to held =
    (h, refl, refl, refl, subst (Queued (h.s i).queue) (sym (append-nil ms)) held)
send_all-Queued (c ∷ cs) h i ms ne await (to, rest) held =
    let (h', run, same, fd, await', held') = call-Queued h i c ms ne await to held in
    let (h'', runs, same', fd', held'') =
      send_all-Queued cs h' i (ms ++ waiting_of c ∷ []) (λ e. ne (e ∙ same)) await' rest held' in
    (
      h'',
      rw (run, runs) refl,
      same' ∙ same,
      fd' ∙ fd,
      subst (Queued (h''.s i).queue) (append_assoc ms (waiting_of c ∷ []) (all_waiting cs)) held'',
    )

connect_command-Queued :
    (h : Harbor) (i fd : ℕ) (ms : List HarborMsg)
    → 0 < fd
    → 0 < i
    → i < 256
    → (h.s i).fd ≡ 0
    → Queued (h.s i).queue ms
    → (h' : Harbor) × (connect_command false h fd i
        ≡ some (start_socket fd ∷ send_socket fd (h.id % 2 ^ 8 ∷ []) ∷ write_all fd ms, h'))
      × ((h'.s i).queue ≡ none)
unfolding connect_command handshake_of with_slave
connect_command-Queued h i fd ms pos low high free held =
    let (h', wrote, gone) = dispatch_queue-Queued h i fd ms pos held in
    let some_fd : (fd == 0) ≡ false = ground arith in
    let some_node : (i == 0) ≡ false = ground arith in
    let known : leb 256 i ≡ false = ground arith in
    let here = update_self h.s i (record (h.s i) { fd = fd; status = header }) in
    (
      h',
      rw (connect_command, some_fd, some_node, known, ==-eq (h.s i).fd 0 free, wrote)
          (ap
            (λ (s : Slave).
              some (start_socket fd ∷ send_socket s.fd (h.id % 2 ^ 8 ∷ []) ∷ write_all fd ms, h'))
            here),
      gone,
    )

-- Messages to handles of another node that is not connected yet and not down are kept, and nothing is
-- sent. When the command `A` connects the node, its socket is started, the number of this node is
-- written, and then its queue: first what waited before, then these messages, in their order. Each is
-- written with its length in front, and the numbers of its header behind it: the source, the destination
-- with the type above, and the session. Then no queue is left.
pub connect_command-send_all :
    (h : Harbor) (i fd : ℕ) (cs : List Call) (ms : List HarborMsg)
    → i ≢ h.id
    → 0 < i
    → i < 256
    → (h.s i).fd ≡ 0
    → is_down (h.s i).status ≡ false
    → AllTo i cs
    → Queued (h.s i).queue ms
    → 0 < fd
    → (h' : Harbor) × (h'' : Harbor) × (send_all h cs ≡ ([], h'))
      × (connect_command false h' fd i
          ≡ some (
            start_socket fd ∷ send_socket fd (h.id % 2 ^ 8 ∷ []) ∷ frames fd (ms ++ all_waiting cs),
            h'',
          ))
      × ((h''.s i).queue ≡ none)
connect_command-send_all h i fd cs ms ne low high free alive to held pos =
    let await : IsAwaited (h.s i) = (rw (==-eq (h.s i).fd 0 free) refl, alive) in
    let (h', run, same, fd', held') = send_all-Queued cs h i ms ne await to held in
    let (h'', wrote, gone) =
      connect_command-Queued h' i fd (ms ++ all_waiting cs) pos low high (fd' ∙ free) held' in
    let wrote' =
      wrote
      ∙ ap
          (λ (l : List HarborAction).
            some (start_socket fd ∷ send_socket fd (h'.id % 2 ^ 8 ∷ []) ∷ l, h''))
          (write_all-frames fd (ms ++ all_waiting cs)) in
    (
      h',
      h'',
      run,
      subst
          (λ (n : ℕ).
            connect_command false h' fd i
            ≡ some (
              start_socket fd ∷ send_socket fd (n % 2 ^ 8 ∷ []) ∷ frames fd (ms ++ all_waiting cs),
              h'',
            ))
          same wrote',
      gone,
    )
