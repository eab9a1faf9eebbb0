-- ===== src/SocketServer/Delivery.antt =====
-- What a socket writes, for any steps of the threads that use it.
use crynet.Prelude.{
  ℕ, ◌≡◌, refl, sym, ap, ◌∙◌, List, [], ◌++◌, Bool, true, false, inl, inr, Option, none, some,
  if◌then◌else◌, flatten,
}
use crynet.SocketServer.{SocketType, is_connected}
use crynet.SocketServer.Buffers.{nomore_sending_data}
use crynet.SocketServer.Threads.{Text, Channel, SocketEvent, run, new_socket, new_channel}
use crynet.SocketServer.Loop.{texts_of}
use crynet.SocketServer.Order.{
  texts, texts-nil, texts-append, flatten-append, keep, direct_texts, Over, Stands-Over, pending,
}
use crynet.SocketServer.Cases.{not_both, append_nils}
use crynet.SocketServer.Calls.{IsGood}
use crynet.SocketServer.Begin.{idle, no_text_left}
use crynet.SocketServer.Steps.{AllPlainEvents, GoesWell, run-GoesWell}
use mathlib.Core.List.{append_assoc, append-nil}
use mathlib.Core.Path.{subst}

-- A socket that is being connected, or is.
abbrev pub first_type : Bool → SocketType
first_type connecting = if connecting then SocketType.connecting else SocketType.connected

pub new_channel-IsGood : (connecting : Bool) → IsGood (new_channel (first_type connecting))
unfolding new_channel new_socket
new_channel-IsGood true = (
  refl,
  tt,
  λ _. (refl, tt),
  inl (
    refl,
    record {
      begun = [];
      first = [];
      second = [];
      late = [];
      front = [];
      written = refl;
      high_texts = refl;
      low_texts = refl;
      low_only = refl;
      coming = λ _. refl;
      order = λ p. refl;
    },
  ),
)
new_channel-IsGood false = (
  refl,
  tt,
  λ _. (refl, tt),
  inl (
    refl,
    record {
      begun = [];
      first = [];
      second = [];
      late = [];
      front = [];
      written = refl;
      high_texts = refl;
      low_texts = refl;
      low_only = refl;
      coming = λ _. refl;
      order = λ p. refl;
    },
  ),
)

-- The messages `sent` are those that were asked for, and those of one priority stand in the order of
-- the calls.
abbrev pub KeepsOrder : (asked sent : List Text) → Type 0
KeepsOrder asked sent = (keep true asked ≡ keep true sent) × (keep false asked ≡ keep false sent)

-- The bytes `wire` are some first bytes of the texts of `sent`, one text after the other.
abbrev pub IsPrefix : (wire : List ℕ) (sent : List Text) → Type 0
IsPrefix wire sent = (unsent : List ℕ) × (wire ++ unsent ≡ flatten (texts sent))

Over-prefix :
    (wire : List ℕ) (asked : List Text)
    → Over wire asked
    → (sent : List Text) × KeepsOrder asked sent × IsPrefix wire sent
Over-prefix wire asked v =
    let rest = flatten (texts v.late) in
    (
      v.begun ++ v.late,
      (v.order true, v.order false),
      (
        flatten v.front ++ rest,
        sym (append_assoc wire (flatten v.front) rest)
            ∙ ap (λ l. l ++ rest) v.written
            ∙ sym (flatten-append (texts v.begun) (texts v.late))
            ∙ ap flatten (sym (texts-append v.begun v.late)),
      ),
    )

good-prefix :
    (o : Option Channel)
    → GoesWell o
    → (x : Channel) × (o ≡ some x)
      × ((sent : List Text) × KeepsOrder x.asked sent × IsPrefix x.wire sent)
good-prefix none good = absurd good
good-prefix (some x) good = (x, refl, Over-prefix x.wire x.asked (Stands-Over x.socket good.3))

pub some-IsGood : (o : Option Channel) (x : Channel) → o ≡ some x → GoesWell o → IsGood x
some-IsGood o x e good = subst GoesWell e good

-- For a socket that is being connected or is connected, and for any steps of its threads, in any order,
-- of which no low-priority text is a user object: no assertion of the code fails, and the bytes that are
-- written are some first bytes of the texts that were asked to be sent, each of them whole and one after
-- the other, in an order that keeps the order of the calls for each of the two priorities.
pub run-KeepsOrder :
    (connecting : Bool) (es : List SocketEvent)
    → AllPlainEvents es
    → (x : Channel) × (run es (new_channel (first_type connecting)) ≡ some x)
      × ((sent : List Text) × KeepsOrder x.asked sent × IsPrefix x.wire sent)
run-KeepsOrder connecting es plain =
    good-prefix (run es (new_channel (first_type connecting)))
      (run-GoesWell es (new_channel (first_type connecting)) plain (new_channel-IsGood connecting))

-- Nothing waits in a socket that is good and idle.
pub idle_sent :
    (x : Channel)
    → IsGood x
    → is_connected x.socket.type ≡ true
    → x.socket.closing ≡ false
    → nomore_sending_data x.socket ≡ true
    → (sent : List Text) × KeepsOrder x.asked sent × (x.wire ≡ flatten (texts sent))
idle_sent x (sending, _, _, inr (dead, _)) is_open going more =
    absurd (not_both (sym (idle x.socket more is_open).5 ∙ dead))
idle_sent x (sending, _, _, inl (_, v)) is_open going more =
    let (high, low, dw, zero_sending, _, _) = idle x.socket more is_open in
    let nothing : [] ≡ v.front ++ texts v.first =
      ap (λ d. direct_texts d) (sym dw)
      ∙ sym (append-nil (direct_texts x.socket.dw))
      ∙ ap (λ l. direct_texts x.socket.dw ++ texts_of l) (sym high)
      ∙ v.high_texts in
    let (no_front, no_texts) = append_nils v.front (texts v.first) nothing in
    let no_first = texts-nil v.first no_texts in
    let no_second = texts-nil v.second (sym v.low_texts ∙ ap texts_of low) in
    let no_late = v.coming going ∙ no_text_left (pending x.pipe) (sym sending ∙ zero_sending) in
    let all : v.begun ++ (v.first ++ (v.second ++ v.late)) ≡ v.begun =
      ap (λ l. v.begun ++ (l ++ (v.second ++ v.late))) no_first
      ∙ ap (λ l. v.begun ++ (l ++ v.late)) no_second
      ∙ ap (λ l. v.begun ++ l) no_late
      ∙ append-nil v.begun in
    (
      v.begun,
      (v.order true ∙ ap (keep true) all, v.order false ∙ ap (keep false) all),
      sym (append-nil x.wire) ∙ ap (λ l. x.wire ++ flatten l) (sym no_front) ∙ v.written,
    )

-- For such steps, when the socket is connected and not being closed, and says that it has no more data
-- to send: the bytes that are written are the texts of all that were asked to be sent, whole and one
-- after the other, in an order that keeps the order of the calls for each of the two priorities.
pub run-all_sent :
    (connecting : Bool) (es : List SocketEvent) (x : Channel)
    → AllPlainEvents es
    → run es (new_channel (first_type connecting)) ≡ some x
    → is_connected x.socket.type ≡ true
    → x.socket.closing ≡ false
    → nomore_sending_data x.socket ≡ true
    → (sent : List Text) × KeepsOrder x.asked sent × (x.wire ≡ flatten (texts sent))
run-all_sent connecting es x plain runs is_open going more =
    idle_sent x
      (some-IsGood _ x runs (
        run-GoesWell es (new_channel (first_type connecting)) plain
          (new_channel-IsGood connecting)))
      is_open going more
