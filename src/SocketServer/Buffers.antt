-- ===== src/SocketServer/Buffers.antt =====
-- Sending in skynet/skynet-src/socket_server.c: what waits to be sent, what one event of the socket
-- thread writes, and the calls of other threads, which reach the socket thread through a pipe.
use crynet.Prelude.{
  ℕ, ◌+◌, ◌*◌, List, [], ◌∷◌, ◌++◌, Option, none, some, Bool, true, false, ◌||◌, ◌&&◌, ltb, leb,
  ◌==◌, if◌then◌else◌, length, drop, ◌/◌,
}
use crynet.SocketServer.{
  SocketType, is_invalid, is_halfclose_read, is_halfclose_write, is_paccept, is_listen, SendObject,
  WriteBuffer, DirectWrite, Socket, Outcome, ignore, socket_err, socket_close, socket_open,
  socket_warning, socket_data, socket_more, Answer, warning_size, enable_write, enable_read,
  force_close, close_write, send_loop, count_written, list_uncomplete, is_nil, send_buffer_empty,
  raise_uncomplete,
}

-- A write that failed: `SOCKET_RST` is ignored.
unfoldable pub broken_write : List ℕ → Socket → Outcome × List ℕ × Socket
broken_write bytes s =
    let (r, s') = close_write s in
    (elim r [ Outcome.socket_err ↦ socket_err | _ ↦ ignore ], bytes, s')

-- Step 4 of `send_buffer_`, with nothing left to send. `none` is the assertion.
unfoldable pub sent_all : Bool → List ℕ → Socket → Option (Outcome × List ℕ × Socket)
sent_all poll_fails bytes s =
    if send_buffer_empty s && (s.wb_size == 0)
    then (if s.closing
        then some (ignore, bytes, force_close s)
        else if poll_fails && s.writing
        then some (socket_err, bytes, enable_write false s)
        else if ltb 0 s.warn_size
        then some (socket_warning, bytes, record (enable_write false s) { warn_size = 0 })
        else some (ignore, bytes, enable_write false s))
    else none

-- Steps 2 and 3 of `send_buffer_`, with the high list empty.
unfoldable pub send_low : Bool → List Answer → List ℕ → Socket → Option (Outcome × List ℕ × Socket)
send_low poll_fails answers before s =
    let sending = send_loop answers s.low in
    let bytes = before ++ sending.bytes in
    let s' = count_written (length sending.bytes) (record s { low = sending.list }) in
    if sending.broken
    then some (broken_write bytes s')
    else if list_uncomplete s'.low
    then some (ignore, bytes, raise_uncomplete s')
    else if is_nil s'.low
    then sent_all poll_fails bytes s'
    else some (ignore, bytes, s')

-- `send_buffer_`: its outcome, the bytes that are written, and the socket.
unfoldable pub send_lists : Bool → List Answer → Socket → Option (Outcome × List ℕ × Socket)
send_lists poll_fails answers s =
    let sending = send_loop answers s.high in
    let s' = count_written (length sending.bytes) (record s { high = sending.list }) in
    if list_uncomplete s.low
    then none
    else if sending.broken
    then some (broken_write sending.bytes s')
    else if is_nil s'.high
    then send_low poll_fails sending.rest sending.bytes s'
    else some (ignore, sending.bytes, s')

-- The rest of a direct write goes before the high list.
unfoldable pub take_direct : Socket → Socket
take_direct s = elim s.dw [
  | none ↦ s
  | some d ↦
      let buf : WriteBuffer = record {
        buffer = d.object.buffer;
        ptr = d.object.text + d.offset;
        bytes = drop d.offset d.object.bytes;
        userobject = d.object.userobject;
      } in
      record s { high = buf ∷ s.high; wb_size = s.wb_size + length buf.bytes; dw = none }
]

-- `send_buffer`, for a lock that another thread has or not.
unfoldable pub send_buffer : Bool → Bool → List Answer → Socket → Option (Outcome × List ℕ × Socket)
send_buffer locked poll_fails answers s =
    if locked then some (ignore, [], s) else send_lists poll_fails answers (take_direct s)

-- The buffer that `append_sendbuffer_` makes.
unfoldable pub buffer_of : SendObject → WriteBuffer
buffer_of o = record { buffer = o.buffer; ptr = o.text; bytes = o.bytes; userobject = o.userobject }

-- `append_sendbuffer` and `append_sendbuffer_low`
unfoldable pub append_sendbuffer : SendObject → Socket → Socket
append_sendbuffer o s = record s {
  high = s.high ++ buffer_of o ∷ [];
  wb_size = s.wb_size + length o.bytes;
}

unfoldable pub append_sendbuffer_low : SendObject → Socket → Socket
append_sendbuffer_low o s = record s {
  low = s.low ++ buffer_of o ∷ [];
  wb_size = s.wb_size + length o.bytes;
}

-- The warning at the end of `send_socket`.
unfoldable pub warn : Socket → Outcome × Socket
warn s =
    if leb warning_size s.wb_size && leb s.warn_size s.wb_size
    then (
      socket_warning,
      record s { warn_size = if s.warn_size == 0 then warning_size * 2 else s.warn_size * 2 },
    )
    else (ignore, s)

-- `send_socket`, of a request for this socket.
unfoldable pub send_socket : Bool → Bool → SendObject → Socket → Outcome × Socket
send_socket poll_fails low o s =
    let first = append_sendbuffer o s in
    if is_invalid s.type || (is_halfclose_write s.type || (is_paccept s.type || s.closing))
    then (ignore, s)
    else if is_listen s.type
    then (ignore, s)
    else if send_buffer_empty s
    then (if poll_fails && (if s.writing then false else true)
        then (socket_err, enable_write true first)
        else warn (enable_write true first))
    else warn (if low then append_sendbuffer_low o s else first)

unfoldable pub no_direct : Option DirectWrite → Bool
no_direct none = true
no_direct (some d) = false

-- `nomore_sending_data`
unfoldable pub nomore_sending_data : Socket → Bool
nomore_sending_data s =
    (send_buffer_empty s && (no_direct s.dw && (s.sending == 0))) || is_halfclose_write s.type

-- `close_read`
unfoldable pub close_read : Socket → Socket
close_read s = enable_read false (record s { type = SocketType.halfclose_read })

-- `close_socket`
unfoldable pub close_socket : Bool → Socket → Outcome × Socket
close_socket shutdown s =
    let shutdown_read = is_halfclose_read s.type in
    if is_invalid s.type
    then (ignore, s)
    else if shutdown || nomore_sending_data s
    then (if shutdown_read then ignore else socket_close, force_close s)
    else if shutdown_read
    then (ignore, record s { closing = true })
    else (socket_close, close_read (record s { closing = true }))

-- `report_connect`, for what `getsockopt` says.
unfoldable pub report_connect : Bool → Bool → Socket → Outcome × Socket
report_connect error poll_fails s =
    let s' = record s { type = SocketType.connected } in
    if error
    then (socket_err, force_close s)
    else if nomore_sending_data s'
    then (if poll_fails && s.writing
        then (socket_err, force_close (enable_write false s'))
        else (socket_open, enable_write false s'))
    else (socket_open, s')

-- What `read` answers: bytes, the end, or an error.
pub data ReadAnswer : Type 0 where
  got : ℕ → ReadAnswer
  ended : ReadAnswer
  read_again : ReadAnswer
  read_failed : ReadAnswer

abbrev pub min_read_buffer : ℕ
min_read_buffer = 64

-- `forward_message_tcp`
unfoldable pub forward_message_tcp : ReadAnswer → Socket → Outcome × Socket
forward_message_tcp read_failed s = (socket_err, s)
forward_message_tcp read_again s = (ignore, s)
forward_message_tcp ended s =
    if s.closing
    then (ignore, if nomore_sending_data s then force_close s else s)
    else if is_halfclose_read s.type
    then (ignore, s)
    else if is_halfclose_write s.type
    then (socket_close, force_close s)
    else (socket_close, close_read s)
forward_message_tcp (got n) s =
    if is_halfclose_read s.type
    then (ignore, s)
    else if n == s.read_size
    then (socket_more, record s { read_size = s.read_size * 2 })
    else if ltb min_read_buffer s.read_size && ltb (n * 2) s.read_size
    then (socket_data, record s { read_size = s.read_size / 2 })
    else (socket_data, s)
