-- ===== src/Harbor/Remote/Named.antt =====
-- A name of the harbor service becomes known: what happens to the messages that wait for it.
use Prim.Native.Nat.{bit_and, bit_or}
use crynet.Prelude.{
  ℕ, zero, suc, ◌/◌, ◌^◌, ◌<◌, ◌≡◌, ◌≢◌, refl, sym, ap, List, [], ◌∷◌, ◌++◌, Option, none, some,
  ◌==◌, ==-ne, ==-eq, if◌then◌else◌, true, false, update_self, arith, map, Option-cases, inl, inr,
  ◌+◌, ◌%◌, ◌∙◌,
}
use crynet.Handle.{handle_mask, handle_remote_shift}
use crynet.Gate.{ptype_tag_dontcopy}
use crynet.Harbor.{HarborMsg, HarborMsgQueue, push_queue_msg, pop_queue}
use crynet.Harbor.Ring.{Holds, push_queue_msg-Holds}
use crynet.Harbor.Remote.{Slave, Harbor, HarborAction, send, is_down, with_slave, drain, write_all}
use crynet.Prelude.Bits.{bit_and_mask, bit_or_above}
use crynet.Harbor.Remote.Frames.{frames, write_all-frames}
use crynet.Harbor.Remote.Waiting.{Queued, drain-Holds}
use mathlib.Core.Path.{subst}
use mathlib.Core.List.{append-nil, append_assoc}

-- `struct keyvalue`, less its link.
pub record KeyValue : Type 0 where
  pub key : List ℕ
  pub hash : ℕ
  pub value : ℕ
  pub queue : Option HarborMsgQueue

-- The queue after `while ((m = pop_queue(queue)) != NULL)`, on fuel.
pub drained : ℕ → HarborMsgQueue → HarborMsgQueue
drained zero q = q
drained (suc n) q =
    let rest = drained n (pop_queue q).1 in elim (pop_queue q).0 [ none ↦ q | some m ↦ rest ]

pub push_all : HarborMsgQueue → List HarborMsg → HarborMsgQueue
push_all q [] = q
push_all q (m ∷ ms) = push_all (push_queue_msg q m) ms

-- `m->header.destination |= (handle & HANDLE_MASK)`
pub addressed : ℕ → HarborMsg → HarborMsg
addressed handle m = record m {
  header = record m.header {
    destination = bit_or m.header.destination (bit_and handle handle_mask);
  };
}

-- A message to a handle of this node.
pub send_local : ℕ → HarborMsg → HarborAction
send_local handle m =
    send m.header.source handle
      (bit_or (m.header.destination / 2 ^ handle_remote_shift) ptype_tag_dontcopy) m.header.session
      m.buffer

-- `dispatch_name_queue`, for the queue that the name has: what is done, the harbor, and what is left of
-- the queue.
pub dispatch_name_queue :
    Harbor → ℕ → HarborMsgQueue → List HarborAction × Harbor × Option HarborMsgQueue
dispatch_name_queue h handle q =
    let i = handle / 2 ^ handle_remote_shift in
    let s = h.s i in
    let moved : HarborMsgQueue = elim s.queue [ none ↦ q | some t ↦ push_all t (drain q.size q) ] in
    let left : Option HarborMsgQueue = elim s.queue [
      | none ↦ none
      | some t ↦ some (drained q.size q)
    ] in
    if s.fd == 0
    then (if is_down s.status
        then ([], h, some q)
        else if i == h.slave / 2 ^ handle_remote_shift
        then (
          map (send_local handle) (drain moved.size moved),
          with_slave h i (record s { queue = none }),
          left,
        )
        else ([], with_slave h i (record s { queue = some moved }), left))
    else (write_all s.fd (map (addressed handle) (drain q.size q)), h, some (drained q.size q))

-- The rest of `update_name`, for the node that the name has: its queue is released.
pub name_node : Harbor → KeyValue → ℕ → List HarborAction × Harbor × KeyValue
name_node h node handle = elim node.queue [
  | none ↦ ([], h, record node { value = handle })
  | some q ↦
      let (acts, h', _) = dispatch_name_queue h handle q in
      (acts, h', record node { value = handle; queue = none })
]

-- Naming a node keeps its name, and its queue goes.
pub name_node_result :
    (h : Harbor) (node : KeyValue) (handle : ℕ)
    → (name_node h node handle).2 ≡ record node { value = handle; queue = none }
unfolding name_node
name_node_result h node handle = elim (Option-cases node.queue) [
  | inl e ↦ rw (name_node, e) (λ i. record node { value = handle; queue = e i })
  | inr (q, e) ↦ rw (name_node, e) refl
]

push_all-Holds :
    (ms : List HarborMsg) {q : HarborMsgQueue} {held : List HarborMsg}
    → Holds q held
    → Holds (push_all q ms) (held ++ ms)
unfolding push_all
push_all-Holds [] {q} {held} h = subst (Holds q) (sym (append-nil held)) h
push_all-Holds (m ∷ ms) {q} {held} h =
    subst (Holds (push_all (push_queue_msg q m) ms)) (append_assoc held (m ∷ []) ms)
      (push_all-Holds ms (push_queue_msg-Holds m h))

-- The lower part of the handle is added to the destination of a message, which has only the type yet.
abbrev pub to_handle : ℕ → HarborMsg → HarborMsg
to_handle handle m = record {
  header = record {
    source = m.header.source;
    destination = m.header.destination + handle % 2 ^ 24;
    session = m.header.session;
  };
  buffer = m.buffer;
}

-- What a service of this node is sent for a message: its bytes, not copied, with the type of the message.
abbrev pub delivery : ℕ → HarborMsg → HarborAction
delivery handle m =
    send m.header.source handle (bit_or (m.header.destination / 2 ^ 24) 0x10000) m.header.session
      m.buffer

abbrev pub AllUnaddressed : List HarborMsg → Type 0
AllUnaddressed [] = Unit {0}
AllUnaddressed (m ∷ ms) = (m.header.destination % 2 ^ 24 ≡ 0) × AllUnaddressed ms

map-to_handle :
    (handle : ℕ) (ms : List HarborMsg)
    → AllUnaddressed ms
    → map (addressed handle) ms ≡ map (to_handle handle) ms
unfolding addressed
map-to_handle handle [] free = refl
map-to_handle handle (m ∷ ms) (free, rest) =
    let d = m.header.destination in
    let sum : bit_or d (bit_and handle handle_mask) ≡ d + handle % 2 ^ 24 =
      ap (λ (n : ℕ). bit_or d n) (bit_and_mask 24 handle)
      ∙ bit_or_above 24 (handle % 2 ^ 24) d (omega arith) free in
    λ i.
      record {
        header = record {
          source = m.header.source;
          destination = sum i;
          session = m.header.session;
        };
        buffer = m.buffer;
      }
      ∷ map-to_handle handle ms rest i

map-delivery :
    (handle : ℕ) (ms : List HarborMsg) → map (send_local handle) ms ≡ map (delivery handle) ms
unfolding send_local
map-delivery handle [] = refl
map-delivery handle (m ∷ ms) = ap (λ l. delivery handle m ∷ l) (map-delivery handle ms)

-- What becomes of the messages `ms` that wait for a name when it gets a handle of the node `i`, whose
-- own queue holds `held`.
pub record Forwards (h : Harbor) (handle i : ℕ) (held ms : List HarborMsg)
    (acts : List HarborAction) (h' : Harbor) : Type 0 where
  pub connected : 0 < (h.s i).fd → (acts ≡ frames (h.s i).fd (map (to_handle handle) ms)) × (h' ≡ h)
  pub dropped : (h.s i).fd ≡ 0 → is_down (h.s i).status ≡ true → (acts ≡ []) × (h' ≡ h)
  pub local :
      (h.s i).fd ≡ 0
      → is_down (h.s i).status ≡ false
      → i ≡ h.slave / 2 ^ 24
      → (acts ≡ map (delivery handle) (held ++ ms)) × ((h'.s i).queue ≡ none)
  pub unaddressed :
      (h.s i).fd ≡ 0
      → is_down (h.s i).status ≡ false
      → i ≢ h.slave / 2 ^ 24
      → (acts ≡ []) × Queued (h'.s i).queue (held ++ ms)

moved-Holds :
    (o : Option HarborMsgQueue) (q : HarborMsgQueue) (held ms : List HarborMsg)
    → Queued o held
    → Holds q ms
    → Holds
        (elim o as (λ _. HarborMsgQueue) [ none ↦ q | some t ↦ push_all t (drain q.size q) ])
        (held ++ ms)
moved-Holds none q held ms e h = subst (λ l. Holds q (l ++ ms)) (sym e) h
moved-Holds (some t) q held ms w h = rw (drain-Holds q.size ms h h.room) (push_all-Holds ms w)

-- When a name gets a handle, what waits for it, with only the type in the upper byte of its destination,
-- is written to the node of the handle if the node is connected: each message with its length in front,
-- and behind it its header with the lower part of the handle as its destination. It is dropped if the node
-- is down; sent to the handle, after what waits for the node and with its type and session, if that is this
-- node; and else put as it is, without the handle, behind what waits for the node.
pub name_node-Forwards :
    (h : Harbor) (node : KeyValue) (handle : ℕ) (q : HarborMsgQueue) (held ms : List HarborMsg)
    → node.queue ≡ some q
    → Holds q ms
    → AllUnaddressed ms
    → Queued (h.s (handle / 2 ^ 24)).queue held
    → (acts : List HarborAction) × (h' : Harbor) × (name_node h node handle
        ≡ (acts, h', record node { value = handle; queue = none }))
      × Forwards h handle (handle / 2 ^ 24) held ms acts h'
unfolding name_node dispatch_name_queue with_slave
name_node-Forwards h node handle q held ms e holds free waits =
    let i = handle / 2 ^ 24 in
    let out = dispatch_name_queue h handle q in
    let all = drain-Holds q.size ms holds holds.room in
    let moved = moved-Holds (h.s i).queue q held ms waits holds in
    (
      out.0,
      out.1,
      rw (name_node, e) refl,
      record {
        connected = λ pos.
            let test : ((h.s i).fd == 0) ≡ false = ground arith in
            rw (dispatch_name_queue, test, all)
              (
                write_all-frames (h.s i).fd (map (addressed handle) ms)
                    ∙ ap (frames (h.s i).fd) (map-to_handle handle ms free),
                refl,
              );
        dropped =
            λ closed gone. rw (dispatch_name_queue, ==-eq (h.s i).fd 0 closed, gone) (refl, refl);
        local = λ closed alive here.
            rw
              (
                dispatch_name_queue,
                ==-eq (h.s i).fd 0 closed,
                alive,
                ==-eq i (h.slave / 2 ^ 24) here,
              )
              (
                ap (map (send_local handle)) (drain-Holds _ (held ++ ms) moved moved.room)
                    ∙ map-delivery handle (held ++ ms),
                ap (λ (t : Slave). t.queue) (update_self h.s i (record (h.s i) { queue = none })),
              );
        unaddressed = λ closed alive away.
            rw
              (
                dispatch_name_queue,
                ==-eq (h.s i).fd 0 closed,
                alive,
                ==-ne i (h.slave / 2 ^ 24) away,
              )
              (
                refl,
                subst (λ (t : Slave). Queued t.queue (held ++ ms)) (sym (update_self h.s i _))
                    moved,
              );
      },
    )
