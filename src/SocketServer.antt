-- ===== src/SocketServer.antt =====
-- skynet/skynet-src/socket_server.c: one TCP socket, the buffers that wait to be written to it, and the
-- functions that close it. The poll functions are those of socket_poll.h; what they and the system
-- calls answer is an argument.
pub mod Slots
pub mod Buffers
pub mod Threads
pub mod Loop
pub mod Fresh
pub mod Order
pub mod Cases
pub mod Advance
pub mod Writes
pub mod Dead
pub mod Polls
pub mod Append
pub mod Taken
pub mod Commands
pub mod Begin
pub mod Calls
pub mod Steps
pub mod Delivery
pub mod Wakes
pub mod Awake
pub mod Awoken
pub mod Drain
pub mod Emptied
pub mod Progress
pub mod Tests
use crynet.Prelude.{
  ℕ, ◌+◌, ◌-◌, ◌*◌, List, [], ◌∷◌, ◌++◌, Option, none, Bool, true, false, ◌||◌, ◌&&◌, ltb, ◌==◌,
  if◌then◌else◌, length, take, drop,
}

-- `SOCKET_TYPE_INVALID` to `SOCKET_TYPE_BIND`
pub data SocketType : Type 0 where
  invalid : SocketType
  reserve : SocketType
  plisten : SocketType
  listen : SocketType
  connecting : SocketType
  connected : SocketType
  halfclose_read : SocketType
  halfclose_write : SocketType
  paccept : SocketType
  bind : SocketType

pub is_invalid : SocketType → Bool
is_invalid SocketType.invalid = true
is_invalid _ = false

pub is_connected : SocketType → Bool
is_connected SocketType.connected = true
is_connected _ = false

pub is_halfclose_read : SocketType → Bool
is_halfclose_read SocketType.halfclose_read = true
is_halfclose_read _ = false

pub is_halfclose_write : SocketType → Bool
is_halfclose_write SocketType.halfclose_write = true
is_halfclose_write _ = false

pub is_paccept : SocketType → Bool
is_paccept SocketType.paccept = true
is_paccept _ = false

-- `SOCKET_TYPE_PLISTEN` and `SOCKET_TYPE_LISTEN`
pub is_listen : SocketType → Bool
is_listen SocketType.plisten = true
is_listen SocketType.listen = true
is_listen _ = false

-- What a caller wants to be sent: the address of a block of memory, or of a user object, with the
-- address and the bytes of the text in it, which for a block is the block.
pub record SendObject : Type 0 where
  pub buffer : ℕ
  pub text : ℕ
  pub bytes : List ℕ
  pub userobject : Bool

-- `struct write_buffer`: the bytes are those from `ptr` on, `sz` of them.
pub record WriteBuffer : Type 0 where
  pub buffer : ℕ
  pub ptr : ℕ
  pub bytes : List ℕ
  pub userobject : Bool

-- What stands in `dw_buffer`, `dw_size` and `dw_offset`.
pub record DirectWrite : Type 0 where
  pub object : SendObject
  pub offset : ℕ

-- `struct socket`, of a TCP socket, less its statistics of reading; `read_size` is `p.size`. The list of buffers stands for
-- `head`, with `tail` its last one. `sending` is the lower half of the field, which counts the requests
-- in the pipe; the upper half is a copy of a part of the id.
pub record Socket : Type 0 where
  pub high : List WriteBuffer
  pub low : List WriteBuffer
  pub wb_size : ℕ
  pub written : ℕ
  pub sending : ℕ
  pub type : SocketType
  pub reading : Bool
  pub writing : Bool
  pub closing : Bool
  pub warn_size : ℕ
  pub read_size : ℕ
  pub dw : Option DirectWrite

-- `SOCKET_ERR` and the like; `ignore` is -1.
pub data Outcome : Type 0 where
  ignore : Outcome
  socket_err : Outcome
  socket_rst : Outcome
  socket_close : Outcome
  socket_open : Outcome
  socket_warning : Outcome
  socket_data : Outcome
  socket_more : Outcome

-- What `write` answers: at most as many bytes as it is given, or an error.
pub data Answer : Type 0 where
  wrote : ℕ → Answer
  interrupted : Answer
  again : Answer
  failed : Answer

abbrev pub warning_size : ℕ
warning_size = 1024 * 1024

abbrev pub min_of : ℕ → ℕ → ℕ
min_of a b = if ltb a b then a else b

-- `enable_write` and `enable_read`; whether `sp_enable` fails is not stored.
pub enable_write : Bool → Socket → Socket
enable_write enable s = record s { writing = enable }

pub enable_read : Bool → Socket → Socket
enable_read enable s = record s { reading = enable }

-- `force_close`, of a socket that is not reserved.
pub force_close : Socket → Socket
unfolding is_invalid
force_close s =
    if is_invalid s.type
    then s
    else record s { high = []; low = []; type = SocketType.invalid; dw = none }

-- `close_write`
pub close_write : Socket → Outcome × Socket
unfolding force_close is_halfclose_read is_halfclose_write enable_write
close_write s =
    if s.closing || is_halfclose_read s.type
    then (socket_rst, force_close s)
    else if is_halfclose_write s.type
    then (socket_rst, s)
    else (socket_err, enable_write false (record s { type = SocketType.halfclose_write }))

-- The loop of `send_list_tcp`: whether a write failed, what is left of the list, the bytes that were
-- written and the answers that are left. Where no answer is left, the socket takes no more.
pub record Sending : Type 0 where
  pub broken : Bool
  pub list : List WriteBuffer
  pub bytes : List ℕ
  pub rest : List Answer

abbrev pub advance : ℕ → WriteBuffer → WriteBuffer
advance n b = record b { ptr = b.ptr + n; bytes = drop n b.bytes }

pub send_loop : List Answer → List WriteBuffer → Sending
send_loop answers [] = record { broken = false; list = []; bytes = []; rest = answers }
send_loop [] (b ∷ bs) = record { broken = false; list = b ∷ bs; bytes = []; rest = [] }
send_loop (interrupted ∷ answers) (b ∷ bs) = send_loop answers (b ∷ bs)
send_loop (again ∷ answers) (b ∷ bs) = record {
  broken = false;
  list = b ∷ bs;
  bytes = [];
  rest = answers;
}
send_loop (failed ∷ answers) (b ∷ bs) = record {
  broken = true;
  list = b ∷ bs;
  bytes = [];
  rest = answers;
}
send_loop (wrote n ∷ answers) (b ∷ bs) =
    let sz = min_of n (length b.bytes) in
    let done = send_loop answers bs in
    if sz == length b.bytes then record done { bytes = b.bytes ++ done.bytes } else record {
      broken = false;
      list = advance sz b ∷ bs;
      bytes = take sz b.bytes;
      rest = answers;
    }

-- `stat_write`, and `wb_size`, for all that one loop writes.
pub count_written : ℕ → Socket → Socket
count_written n s = record s { wb_size = s.wb_size - n; written = s.written + n }

-- `list_uncomplete`
pub list_uncomplete : List WriteBuffer → Bool
list_uncomplete [] = false
list_uncomplete (b ∷ bs) = if b.ptr == b.buffer then false else true

pub is_nil : List WriteBuffer → Bool
is_nil [] = true
is_nil (b ∷ bs) = false

-- `send_buffer_empty`
pub send_buffer_empty : Socket → Bool
unfolding is_nil
send_buffer_empty s = is_nil s.high && is_nil s.low

-- `raise_uncomplete`, of a socket with an empty high list.
pub raise_uncomplete : Socket → Socket
raise_uncomplete s = elim s.low [ [] ↦ s | b ∷ bs ↦ record s { high = b ∷ []; low = bs } ]
