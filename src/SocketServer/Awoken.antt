-- ===== src/SocketServer/Awoken.antt =====
-- About `writing`, as in Wakes, for the calls of other threads and for all steps.
use crynet.Prelude.{
  ℕ, ◌≡◌, sym, List, [], ◌∷◌, Bool, true, false, ◌||◌, ◌&&◌, inr, Option, none, some, if◌then◌else◌,
  if_both, ◌==◌, length, ◌>>=◌,
}
use crynet.SocketServer.{is_invalid, SendObject, Socket, Outcome, Answer, is_nil}
use crynet.SocketServer.Buffers.{no_direct}
use crynet.SocketServer.Threads.{
  Request, send, direct_bytes, can_direct_write, send_request, server_send, server_send_lowpriority,
  Text, Channel, SocketEvent, call_send, call_send_low, call_other, command, writable, readable,
  eof, other_request, asked_by, socket_event, step, run, new_socket, new_channel,
}
use crynet.SocketServer.Cases.{not_both}
use crynet.SocketServer.Delivery.{first_type}
use crynet.SocketServer.Wakes.{HasTrigger-last, Wakes, Wakes-append, Woken, poll_write-Wakes}
use mathlib.Core.Path.{subst}
use crynet.SocketServer.Awake.{Taken, ctrl_cmd-Taken, poll_read-Wakes, poll_eof-Wakes}

-- The result of a step.
abbrev IsAwake : Option Channel → Type 0
IsAwake none = Unit
IsAwake (some x) = Wakes x.socket x.pipe

module _ (x : Channel) (m : Text) (w : Wakes x.socket x.pipe) where
  abbrev Asked : Option (List ℕ × Socket × List Request) → Type 0
  Asked r = Wakes (asked_by x m r).socket (asked_by x m r).pipe

  send_request-Asked : (low : Bool) (o : SendObject) → Asked (send_request low o x.socket)
  unfolding send_request asked_by
  send_request-Asked low o =
      if_both Asked (x.socket.sending == 0xffff) {x = none} (λ _. w)
        (λ _. Wakes-append x.socket x.pipe (send low o ∷ []) w)

  server_send-Asked :
      (locked : Bool) (answer : Answer) (o : SendObject)
      → Asked (server_send locked answer o x.socket)
  unfolding server_send asked_by
  server_send-Asked locked answer o =
      let s = x.socket in
      let n = direct_bytes answer o.bytes in
      if_both Asked (is_invalid s.type || s.closing) (λ _. Wakes-append s x.pipe [] w)
        (λ _.
          if_both Asked (can_direct_write s && (if locked then false else true))
            (λ _.
              if_both Asked (n == length o.bytes) (λ _. Wakes-append s x.pipe [] w)
                (λ _ _ _. inr (HasTrigger-last x.pipe)))
            (λ _. send_request-Asked false o))

  server_send_lowpriority-Asked : (o : SendObject) → Asked (server_send_lowpriority o x.socket)
  unfolding server_send_lowpriority asked_by
  server_send_lowpriority-Asked o =
      if_both Asked (is_invalid x.socket.type) (λ _. Wakes-append x.socket x.pipe [] w)
        (λ _. send_request-Asked true o)

written-IsAwake :
    (x : Channel) (r : Option (Outcome × List ℕ × Socket))
    → Woken x.pipe r
    → IsAwake (socket_event x r)
unfolding socket_event
written-IsAwake x none h = tt
written-IsAwake x (some (out, bytes, s)) h = h

Taken-IsAwake :
    (rs : List Request) (x : Channel) (o : Option (Outcome × Socket))
    → Taken rs o
    → IsAwake (o >>= λ (r : Outcome × Socket). some (record x { socket = r.1; pipe = rs }))
Taken-IsAwake rs x none h = tt
Taken-IsAwake rs x (some r) h = h

command-IsAwake :
    (poll_fails : Bool) (pipe : List Request) (x : Channel)
    → Wakes x.socket pipe
    → IsAwake (step (command poll_fails) (record x { pipe = pipe }))
unfolding step
command-IsAwake poll_fails [] x w = w
command-IsAwake poll_fails (r ∷ rs) x w =
    Taken-IsAwake rs x _ (ctrl_cmd-Taken poll_fails r rs x.socket w)

step-IsAwake : (e : SocketEvent) (x : Channel) → Wakes x.socket x.pipe → IsAwake (step e x)
unfolding step
step-IsAwake (call_send locked answer o) x w = server_send-Asked x _ w locked answer o
step-IsAwake (call_send_low o) x w = server_send_lowpriority-Asked x _ w o
step-IsAwake (call_other r) x w = Wakes-append x.socket x.pipe (other_request r) w
step-IsAwake (command poll_fails) x w = command-IsAwake poll_fails x.pipe x w
step-IsAwake (writable locked poll_fails error answers) x w =
    if_both IsAwake x.socket.writing
      (λ set.
        written-IsAwake x _
          (poll_write-Wakes x.pipe locked poll_fails error answers x.socket x.socket.type set))
      (λ _. w)
step-IsAwake (readable poll_fails error answer) x w =
    poll_read-Wakes x.pipe poll_fails error answer x.socket x.socket.type w
step-IsAwake (eof poll_fails error) x w =
    poll_eof-Wakes x.pipe poll_fails error x.socket x.socket.type w

bind-IsAwake :
    (o : Option Channel) (f : Channel → Option Channel)
    → IsAwake o
    → ((x : Channel) → Wakes x.socket x.pipe → IsAwake (f x))
    → IsAwake (o >>= f)
bind-IsAwake none f w h = tt
bind-IsAwake (some x) f w h = h x w

run-IsAwake : (es : List SocketEvent) (x : Channel) → Wakes x.socket x.pipe → IsAwake (run es x)
unfolding run
run-IsAwake [] x w = w
run-IsAwake (e ∷ es) x w = bind-IsAwake (step e x) (run es) (step-IsAwake e x w) (run-IsAwake es)

-- Any steps that end keep `Wakes`.
pub run-Wakes :
    (es : List SocketEvent) (x y : Channel)
    → Wakes x.socket x.pipe
    → run es x ≡ some y
    → Wakes y.socket y.pipe
run-Wakes es x y w runs = subst IsAwake runs (run-IsAwake es x w)

pub new_channel-Wakes :
    (connecting : Bool)
    → Wakes (new_channel (first_type connecting)).socket (new_channel (first_type connecting)).pipe
unfolding new_channel new_socket is_nil no_direct
new_channel-Wakes true = λ _ waits. absurd (not_both (sym waits))
new_channel-Wakes false = λ _ waits. absurd (not_both (sym waits))
