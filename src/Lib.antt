-- ===== src/Lib.antt =====
-- Verification of the C core of skynet (skynet/skynet-src).
--
-- The program is a runtime of services. Each service has a context, which is found by its
-- handle, and a message queue. A message is pushed to the queue of its destination; a queue that
-- gets its first message is pushed to the global queue, from which worker threads take queues to
-- dispatch their messages. The timer pushes messages when timeouts are due.
--
-- Which file models which part, its functions under their own names less the prefix `skynet_`:
-- - Queue.antt: one message queue of skynet/skynet-src/skynet_mq.c, a ring that doubles. `put`
--   is the part of skynet_mq_push before the global queue, `pop` is skynet_mq_pop. The children
--   say what a queue holds (Valid), when it marks an overload (Overload), how its flags change
--   (Flags) and that it is a first-in first-out list (Fifo).
-- - Global.antt: the global queue of the same file, linked through the queues. A queue is known
--   by its address. Chain relates the links to a list.
-- - World.antt: the functions of the same file that use both, over a store of queues.
-- - System.antt: the threads of skynet/skynet-src/skynet_server.c as events on that store, in
--   any order. An event is one call that the code makes under a queue's lock. Inv says what
--   holds between the events, Steps and Release that every event keeps it. Contexts counts the
--   references to the contexts, which say what a thread may do with a queue.
-- - Timer.antt: the timing wheel of skynet/skynet-src/skynet_timer.c. Wheel reads and writes its
--   lists, Place and Tick say where a node stands and how a tick changes that, Inv, Shift and
--   Update carry the invariant through the functions, OnTime and Elapsed state when nodes are
--   given.
-- - Handle.antt: the table of contexts of skynet/skynet-src/skynet_handle.c, less
--   skynet_handle_retireall. Names is its sorted array of names: Search and Insert are about its
--   two loops, Map about what is found. Valid says what holds of the table, Scan what the search
--   for a slot finds, Grow, Double and Room that a doubling keeps every context and leaves room,
--   Register and Retire what changes for a handle, Reach what holds after any number of both.
--   `new_context` is `register` and then the store of the handle in the context, which
--   skynet_context_new makes after the lock is released: with no other call between the two. What is
--   used of strcmp is a parameter.
-- - Gate.antt: the gate service of skynet/service-src/service_gate.c, which cuts the bytes of
--   its connections into messages. Gate/Buffer.antt is databuffer.h, Gate/Ids.antt is hashid.h,
--   with what they do to a list of bytes and to a map of ids in their children. Gate/Stream.antt
--   is about dispatch_message (Receive: frames in any chunks; Total: any bytes; Faults: bytes
--   that it cannot use), Gate/Socket.antt about the events of sockets, Gate/Ctrl.antt has the
--   commands.
-- - Lock.antt: the locks of skynet/skynet-src, rwlock.h in Lock/Rw.antt and spinlock.h in
--   Lock/Spin.antt, in their variants on atomic operations: where a thread stands, and one
--   function for its next operation. Progress is about the steps that take the read-write lock.
-- - Harbor.antt: of the harbor service of skynet/service-src/service_harbor.c, the queues of
--   messages to other nodes (Ring), the header of a message between nodes (Header), and in
--   Harbor/Remote.antt what is sent to other nodes: Waiting is about nodes that are not
--   connected yet, Named has dispatch_name_queue, and Table the hash table of names, update_name
--   and remote_send_name. What is used of strncmp is a parameter. The words of a name are read
--   with the lowest byte first.
-- - SocketServer.antt: one TCP socket of skynet/skynet-src/socket_server.c. Slots has
--   reserve_id, Buffers what the socket thread does with a socket, Threads the calls of other
--   threads, the pipe between them and the steps of both. Order has what holds between the
--   steps, and the files from Loop to Steps that every step keeps it; Delivery is about what
--   reaches the connection, Wakes, Awake and Awoken about `writing` and the requests to set it,
--   and Progress, with Drain and Emptied, about when all texts reach the connection. The poll
--   reports that a socket is writable only while `writing` is set, also where sp_enable fails.
--   A call of socket_server_send or its like is one step, the request that it puts in the
--   pipe included, and so is a request that is taken from the pipe, or an event.
-- - Monitor.antt: skynet/skynet-src/skynet_monitor.c, which tells a message that takes long.
-- - Prelude.antt: shared names, tests on numbers, lists, and masks of low bits.
--
-- Conventions. C integers are natural numbers; the 32-bit times of the timer wrap, by `% 2 ^
-- 32`. The int fields of a queue do not wrap in the model: the source would need a queue of 2 ^
-- 30 messages. A failed assertion is a result of its own. Memory that malloc leaves unset is
-- `none`, so a theorem that a queue gives `some m` says that no unset cell is read. A critical
-- section is one step, except in Lock.antt, whose operations come in any order on one memory
-- that all threads see alike.
--
-- Fuel. The threshold of an overload doubles, so the length is enough fuel for its loop. The
-- loop of _drop_queue has one round more than there are messages. timer_shift looks at four
-- levels, and timer_execute finds its list empty in the second round. A registration doubles the
-- slots once at most, so two rounds of it are enough. The search of a name has one round more
-- than there are names. A queue of the harbor has fewer messages than cells, so its size is
-- enough rounds to empty it. dispatch_message reads a header in each round but the first, so two
-- rounds more than there are bytes are enough; a chain of hashid.h has at most `cap` nodes.
-- reserve_id looks at 2 ^ 16 slots, which are all. The theorems hold for these bounds.
--
-- Not modelled: locks on pthreads, the reading of the clocks, memory allocation, the Lua
-- binding and the other services, of the harbor service what it reads from other nodes and
-- the texts of its commands, which are other components. Of the socket server, the reuse of
-- ids, UDP, the sockets that listen, host names, and the messages to the services are left
-- out; the answers of read, write, getsockopt and of the poll functions are arguments. What
-- the gate logs is left out; the texts that snprintf makes and the numbers that strtol and
-- sscanf read are parameters.
pub mod SocketServer
pub mod Lock
pub mod Monitor
pub mod Harbor
pub mod Prelude
pub mod Queue
pub mod Global
pub mod World
pub mod System
pub mod Timer
pub mod Handle
pub mod Gate
