-- ===== src/SocketServer/Threads.antt =====
-- The threads that use one TCP socket of skynet/skynet-src/socket_server.c: other threads call
-- `socket_server_send` and the like, which write at once or put requests in the pipe, and the socket
-- thread takes requests from the pipe and events from the poll. A call under the lock is one step.
use crynet.Prelude.{
  ℕ, ◌+◌, ◌-◌, List, [], ◌∷◌, ◌++◌, Option, none, some, Bool, true, false, ◌||◌, ◌&&◌, ◌==◌,
  if◌then◌else◌, length, take, ◌>>=◌,
}
use crynet.SocketServer.{
  SocketType, is_invalid, is_connected, is_halfclose_read, is_halfclose_write, SendObject, Socket,
  Outcome, ignore, socket_err, socket_close, socket_open, Answer, wrote, interrupted, again, failed,
  min_of, enable_write, enable_read, force_close,
}
use crynet.SocketServer.Buffers.{
  send_buffer, send_socket, nomore_sending_data, close_socket, report_connect, ReadAnswer,
  forward_message_tcp,
}

-- The requests for this socket: `D` and `P`, `W`, `K`, `R` and `S`.
pub data Request : Type 0 where
  send : (low : Bool) (object : SendObject) → Request
  trigger : Request
  close : (shutdown : Bool) → Request
  resume : Request
  pause : Request

-- `can_direct_write`, of a socket that has this id.
unfoldable pub can_direct_write : Socket → Bool
can_direct_write s = nomore_sending_data s && is_connected s.type

-- The bytes that a direct write writes: an error is no byte.
unfoldable pub direct_bytes : Answer → List ℕ → ℕ
direct_bytes (wrote n) bytes = min_of n (length bytes)
direct_bytes interrupted bytes = 0
direct_bytes again bytes = 0
direct_bytes failed bytes = 0

-- `inc_sending_ref` and the request. `none` is a thread that waits for the count to fall.
unfoldable pub send_request : Bool → SendObject → Socket → Option (List ℕ × Socket × List Request)
send_request low o s =
    if s.sending == 0xffff
    then none
    else some ([], record s { sending = s.sending + 1 }, send low o ∷ [])

-- `socket_server_send`: what it writes, the socket, and what it puts in the pipe.
unfoldable pub server_send :
    Bool → Answer → SendObject → Socket → Option (List ℕ × Socket × List Request)
server_send locked answer o s =
    let n = direct_bytes answer o.bytes in
    let s' = record s { written = s.written + n } in
    if is_invalid s.type || s.closing
    then some ([], s, [])
    else if can_direct_write s && (if locked then false else true)
    then (if n == length o.bytes
        then some (o.bytes, s', [])
        else some (
          take n o.bytes,
          record s' { dw = some (record { object = o; offset = n }) },
          trigger ∷ [],
        ))
    else send_request false o s

-- `socket_server_send_lowpriority`
unfoldable pub server_send_lowpriority :
    SendObject → Socket → Option (List ℕ × Socket × List Request)
server_send_lowpriority o s = if is_invalid s.type then some ([], s, []) else send_request true o s

-- `dec_sending_ref`, of a socket that has this id. `none` is the assertion.
unfoldable pub dec_sending_ref : Socket → Option Socket
dec_sending_ref s = if s.sending == 0 then none else some (record s { sending = s.sending - 1 })

-- `trigger_write`
unfoldable pub trigger_write : Bool → Socket → Outcome × Socket
trigger_write poll_fails s =
    if is_invalid s.type
    then (ignore, s)
    else if poll_fails && (if s.writing then false else true)
    then (socket_err, enable_write true s)
    else (ignore, enable_write true s)

-- `resume_socket`
unfoldable pub resume_socket : Bool → Socket → Outcome × Socket
resume_socket poll_fails s =
    if is_invalid s.type || is_halfclose_read s.type
    then (socket_err, s)
    else if poll_fails && (if s.reading then false else true)
    then (socket_err, enable_read true s)
    else elim s.type [
      | SocketType.paccept ↦
          (socket_open, enable_read true (record s { type = SocketType.connected }))
      | SocketType.plisten ↦ (socket_open, enable_read true (record s { type = SocketType.listen }))
      | SocketType.connected ↦ (socket_open, enable_read true s)
      | _ ↦ (ignore, enable_read true s)
    ]

-- `pause_socket`
unfoldable pub pause_socket : Bool → Socket → Outcome × Socket
pause_socket poll_fails s =
    if is_invalid s.type
    then (ignore, s)
    else (if poll_fails && s.reading then socket_err else ignore, enable_read false s)

-- `ctrl_cmd`, for the request that it reads.
unfoldable pub ctrl_cmd : Bool → Request → Socket → Option (Outcome × Socket)
ctrl_cmd poll_fails (send low o) s =
    let (r, s') = send_socket poll_fails low o s in dec_sending_ref s' >>= λ t. some (r, t)
ctrl_cmd poll_fails trigger s = some (trigger_write poll_fails s)
ctrl_cmd poll_fails (close shutdown) s = some (close_socket shutdown s)
ctrl_cmd poll_fails resume s = some (resume_socket poll_fails s)
ctrl_cmd poll_fails pause s = some (pause_socket poll_fails s)

-- Once the writing end is shut down, every write fails.
unfoldable pub answers_of : Socket → List Answer → List Answer
answers_of s answers = if is_halfclose_write s.type then failed ∷ [] else answers

-- The cases of `socket_server_poll`, for an event of this socket that says write, read, or the end.
unfoldable pub poll_write :
    Bool → Bool → Bool → List Answer → Socket → Option (Outcome × List ℕ × Socket)
poll_write locked poll_fails error answers s =
    let (r, s') = report_connect error poll_fails s in
    elim s.type [
      | SocketType.connecting ↦ some (r, [], s')
      | SocketType.invalid ↦ some (ignore, [], s)
      | _ ↦ send_buffer locked poll_fails (answers_of s answers) s
    ]

unfoldable pub poll_read : Bool → Bool → ReadAnswer → Socket → Outcome × Socket
poll_read poll_fails error answer s = elim s.type [
  | SocketType.connecting ↦ report_connect error poll_fails s
  | SocketType.invalid ↦ (ignore, s)
  | _ ↦ forward_message_tcp answer s
]

unfoldable pub poll_eof : Bool → Bool → Socket → Outcome × Socket
poll_eof poll_fails error s = elim s.type [
  | SocketType.connecting ↦ report_connect error poll_fails s
  | SocketType.invalid ↦ (ignore, s)
  | _ ↦ (if is_halfclose_read s.type then ignore else socket_close, force_close s)
]

-- A text that a thread asks to be sent, with its priority.
pub record Text : Type 0 where
  pub low : Bool
  pub bytes : List ℕ

-- A socket with what stands in the pipe, the bytes that were written so far, and the texts that threads
-- have asked to be sent, in the order of their calls.
pub record Channel : Type 0 where
  pub socket : Socket
  pub pipe : List Request
  pub wire : List ℕ
  pub asked : List Text

-- One step of some thread.
pub data SocketEvent : Type 0 where
  call_send : (locked : Bool) (answer : Answer) (object : SendObject) → SocketEvent
  call_send_low : (object : SendObject) → SocketEvent
  call_other : (request : Request) → SocketEvent
  command : (poll_fails : Bool) → SocketEvent
  writable : (locked poll_fails error : Bool) (answers : List Answer) → SocketEvent
  readable : (poll_fails error : Bool) (answer : ReadAnswer) → SocketEvent
  eof : (poll_fails error : Bool) → SocketEvent

-- The calls that only put a request in the pipe: `socket_server_close`, `_shutdown`, `_start`, `_pause`.
unfoldable pub other_request : Request → List Request
other_request (send low o) = []
other_request r = r ∷ []

-- A call of a thread that has to wait changes nothing.
unfoldable pub asked_by : Channel → Text → Option (List ℕ × Socket × List Request) → Channel
asked_by x m none = x
asked_by x m (some (bytes, s, requests)) = record {
  socket = s;
  pipe = x.pipe ++ requests;
  wire = x.wire ++ bytes;
  asked = x.asked ++ m ∷ [];
}

unfoldable pub socket_event : Channel → Option (Outcome × List ℕ × Socket) → Option Channel
socket_event x none = none
socket_event x (some (r, bytes, s)) = some (record x { socket = s; wire = x.wire ++ bytes })

-- The poll reports that a socket is writable only while `writing` is set.
unfoldable pub step : SocketEvent → Channel → Option Channel
step (call_send locked answer o) x =
    some
      (asked_by x (record { low = false; bytes = o.bytes }) (server_send locked answer o x.socket))
step (call_send_low o) x =
    some (asked_by x (record { low = true; bytes = o.bytes }) (server_send_lowpriority o x.socket))
step (call_other r) x = some (record x { pipe = x.pipe ++ other_request r })
step (command poll_fails) x = elim x.pipe [
  | [] ↦ some x
  | r ∷ rs ↦
      ctrl_cmd poll_fails r x.socket >>= λ (out, s). some (record x { socket = s; pipe = rs })
]
step (writable locked poll_fails error answers) x =
    let written = socket_event x (poll_write locked poll_fails error answers x.socket) in
    if x.socket.writing then written else some x
step (readable poll_fails error answer) x =
    some (record x { socket = (poll_read poll_fails error answer x.socket).1 })
step (eof poll_fails error) x = some (record x { socket = (poll_eof poll_fails error x.socket).1 })

unfoldable pub run : List SocketEvent → Channel → Option Channel
run [] x = some x
run (e ∷ es) x = step e x >>= run es

-- `new_fd`, of the socket that it sets up, with the type that its caller stores; `open_socket` sets
-- `writing` of a socket that is being connected.
unfoldable pub new_socket : SocketType → Socket
new_socket type = record {
  high = [];
  low = [];
  wb_size = 0;
  written = 0;
  sending = 0;
  type = type;
  reading = true;
  writing = elim type [ SocketType.connecting ↦ true | _ ↦ false ];
  closing = false;
  warn_size = 0;
  read_size = 64;
  dw = none;
}

unfoldable pub new_channel : SocketType → Channel
new_channel type = record { socket = new_socket type; pipe = []; wire = []; asked = [] }
