-- ===== src/Lib.antt =====
-- The core of the bee library of cassobee: what travels between two programs, from the bytes of a
-- number up to the sessions that receive protocols, the timers and what they stand on, and small
-- components beside them.
--
-- The parts, from the lowest one up:
-- * Varint (source/bee/common/varint.h): zigzag coding, write_varint, read_varint and the table of
--   encoded sizes. A signed integer of w bits is its bit pattern, below 2 ^ w.
-- * Octets (source/bee/common/octets.h): the growing byte buffer. The block is the list of all its
--   bytes, so that a write past its end would make the list longer, and a position stands for a
--   pointer. The allocator is a record: new blocks have the length that is asked for and any content.
-- * Stream (source/bee/common/marshal.h): octetsstream, over one Octets. A call takes the stream and
--   gives its result, or none where it throws, beside the stream that it leaves in either case. A value
--   of a template parameter is given by the calls that write and read it, and the elements of a contiguous
--   container of PODs by their bytes in memory.
-- * SessionState, Session (source/bee/io/session.h, session.cpp): the states and the buffers of a
--   connection, and on_recv, which moves bytes from _readbuf to _reados and runs what decode finds there.
-- * Protocol (source/bee/io/protocol.h, protocol.cpp): the registry of stubs, and encode and decode of the
--   frame of a protocol. The virtual members of a protocol class are the record Kind.
-- * SessionManager (source/bee/io/session_manager.h, session_manager.cpp): the table of sessions and
--   what is sent to one of them. Its sessions are those of Session, and what it sends is what encode wrote.
-- * LoadBalance (source/bee/utility/load_balance.h): the strategies and the balancer.
-- * Shaper (source/bee/io/traffic_shaper.h): the token bucket.
-- * ObjectPool (source/bee/common/objectpool.h): objectpool, a free list of nodes that keep their objects.
-- * FixedBuffer (source/bee/utility/fixed_buffer.h): a buffer with one cursor.
-- * Uri (source/bee/http/uri.cpp, uri.h): the parser and the printer of URIs, on lists of bytes.
-- * Ring (source/bee/utility/ring_buffer.h): the ring buffer with its two cursors.
-- * LeftRight (source/bee/thread/left_right.h): apply_read by any number of readers and apply_write, one
--   atomic access at a time, with the counters of ri_distributed_counter.
-- * LockfreePool (source/bee/common/objectpool.h): lockfree_objectpool, one atomic access of any thread at
--   a time, and its calls by themselves.
-- * TimerList (source/bee/common/timewheel.h): timer nodes in a store, and the circular lists of them.
-- * TimeWheel (source/bee/common/timewheel.cpp): the timer wheel over TimerList and LockfreePool. The
--   handlers are a parameter: what a handler does with the wheel, and what it returns.
-- * Rpc (source/bee/io/rpc.h, rpc.cpp): calls, answers, relays and timeouts of the table of pending calls
--   over a store of objects, and the wire format. What a class does as a server is a parameter.
-- * Locks (source/bee/thread/lock.h): spinlock, atomic_spinlock and ticket_spinlock, one atomic access of
--   any thread at a time.
-- * DoubleBuffer (source/bee/thread/double_buffer.h): one_reader_double_buffer, with writers between the
--   steps of one reader.
-- * Cli (source/bee/cli/command_line.cpp): the tables of commands and aliases.
-- Base has the names, tests and lemmas that they share. Each component has its definitions in the file
-- of its name and its theorems in the modules below it, by what they are about; Tests has the examples.
--
-- size_t arithmetic wraps at 2 ^ 64 where the model writes add64 and sub64. The loops of write_varint
-- recurse on the value, which falls. read_varint recurses on the bytes. The loop of on_recv has fuel: one
-- round for each frame and one more are enough, as a round takes one frame or ends the loop. The loops of
-- the ring buffer have as much fuel as there are bytes to copy, since a round copies one or more; those of the
-- wheel make as many rounds as the list's count says. The counter of the pool's head is told apart for
-- fewer than 2 ^ 64 steps. Atomic accesses are sequentially consistent.
--
-- Not modelled: logging, the reactor with its events and sockets, SSL, mutexes and read-write
-- locks (a lock that is held for the whole of a call makes the call one step), HTTP, the terminal of the command line, the
-- monitor and the database. The elements of std::array, sets and maps are read and written by the same
-- loops as those of other containers and have no definitions of their own. session::set_open, close and the permissions of events
-- belong to the reactor.
pub mod Base
pub mod Cli
pub mod DoubleBuffer
pub mod FixedBuffer
pub mod LeftRight
pub mod LoadBalance
pub mod LockfreePool
pub mod Locks
pub mod ObjectPool
pub mod Octets
pub mod Protocol
pub mod Ring
pub mod Rpc
pub mod Session
pub mod SessionManager
pub mod SessionState
pub mod Shaper
pub mod Stream
pub mod TimeWheel
pub mod TimerList
pub mod Uri
pub mod Varint
