-- ===== src/Lib.antt =====
-- sancus-core is a C library of small parts for event-driven network programs: string buffers,
-- durations, linked lists, retrying system calls, a formatter for C strings, netlink messages, and on
-- top of these a logger, streams, TCP connections and servers. This development models the parts
-- that hold its own logic, each in a file named for it, and proves what they promise.
--
--   Base      what the other files share: Boolean tests and lists over the native numbers, signed
--             integers, memory objects as lists of bytes, outcomes, and the widths of the platform
--   Buffer    src/sancus/buffer.c, include/sancus/buffer.h: a struct as a record, a function as one
--             from the struct to the result and the new struct; Buffer.Inv has the invariant, and
--             Buffer.Runs takes a buffer for a text with a capacity
--   Time      src/sancus/time.c, include/sancus/time.h
--   Clock     src/sancus/clock.c, include/sancus/clock.h
--   Bit       include/sancus/bit.h
--   Alloc     include/sancus/alloc.h, src/sancus/alloc.c
--   Fd        include/sancus/fd.h, src/sancus/fd.c: what the kernel answers is a list
--   Links     include/sancus/list.h: elements in a store from addresses to links; Links.Runs
--             takes a list for the addresses on it
--   Cstr      src/sancus/fmt_cstr.c
--   Netlink   src/netlink/netlink_msg.c, src/netlink/netlink_attr.c and the macros of
--             include/sancus/netlink.h: a message is the bytes of its buffer
--   Sys       system calls in a state: a kernel that gives a list of answers, the log of the calls,
--             `errno`; Sys.Ledger reads from the log which descriptors are open
--   Ev        include/sancus/ev.h: the interface of an event library, with the header as an instance;
--             Ev.Owned is the interface of a struct that owns a descriptor, which connections,
--             servers and receivers fill
--   Socket    include/sancus/socket.h
--   Open      the part of src/sancus/fd.c that opens files
--   Serial    src/sancus/sancus_serial.c, include/sancus/serial.h, on top of Open
--   Conn      src/sancus/tcp_conn.c, include/sancus/tcp_conn.h: connections as a state machine; the
--             application is a record of callbacks
--   Server    src/sancus/tcp_server.c, include/sancus/tcp_server.h
--   Receiver  src/netlink/netlink_io.c and the receiver of include/sancus/netlink.h
--   Logger    src/sancus/logger.c, include/sancus/logger.h, on top of Buffer and Cstr: a logger and its
--             parents are a list; the bytes given to a back end are arguments of a function;
--             Logger.Default is the back end that writes to a descriptor, Logger.Masks sets masks,
--             and Logger.Levels has the macros that log at a level
--   Legacy    src/sancus/buffer_legacy.c, include/sancus/buffer_legacy.h, on the record of Buffer
--   Stream    src/sancus/stream.c, include/sancus/stream.h, on top of Legacy;
--             Stream.Story is what a stream can live through
--   Strings   include/sancus/string.h
--   Types     include/sancus/types.h: the conversions between integers and from text
--
-- A function keeps the name of the C function without the prefix that names its part. A pointer that
-- the code compares with NULL is an option, other pointers are offsets into a memory object. A memory
-- access outside its object is the outcome `fault`, a failed assert is `abort`, and the model stops
-- at either; what a theorem states with `ok` therefore includes that the accesses are in bounds.
-- Widths are those of a 64-bit GNU/Linux platform: size_t, ssize_t, long and uint_fast16_t have 64
-- bits, int has 32. Unsigned arithmetic wraps in the model as in C; the signed overflow that C leaves
-- undefined is not modelled, nor are doubles.
--
-- Loops are recursive functions of the data that they read, or of fuel: a walk over a list takes the
-- number of its elements and one more, the parser of a message takes the message's length and one
-- more, which is enough because every attribute takes up four bytes or more.
--
-- The loop over the messages of a datagram takes a sixteenth of its bytes and one step more, and the
-- loops of a stream the size of its buffer and one more. A dump takes the length of its data.
--
-- An event handler (Conn.io_cb, Server.connect_cb, Receiver.recv_cb, Stream.read_cb) takes the bits of
-- `revents` and a world: the struct of the watcher, the event loop, and what the application keeps.
-- A callback of the application is any function on the world that may make calls; the pointer to
-- the settings is the argument that holds them. A run returns, waits for an answer, or ends at a
-- failed assertion or a faulting access; `Ensures` excludes the last two, `Partially` does not.
--
-- vsnprintf is a parameter (Buffer.Printer), and a theorem about it assumes what the C standard says
-- of its result and its writes (Buffer.Chunk.Prints). So are strtol (Types.Strto), inet_pton (in Conn
-- and Server) and what recvmsg stores (Receiver.Delivery). System calls are given by their answers.
--
-- Where the logger's default back end prints a time, the time is an argument, and so is what vsnprintf
-- makes of it. What tcgetattr stores is a function of the kernel's state, and the functions of the C
-- library that set a speed are parameters (Serial), and so is `realloc` (Alloc). The bits of `struct
-- termios` are those of Linux.
--
-- Not modelled: the addresses of peers, which the handlers only pass on; the mutex of the default back
-- end, since one thread runs; the conversions through double in include/sancus/time.h and
-- include/sancus/clock.h and those to floating point in include/sancus/types.h; the macros of
-- include/sancus/common.h, which are for the compiler.
pub mod Base
pub mod Bit
pub mod Alloc
pub mod Buffer
pub mod Time
pub mod Clock
pub mod Fd
pub mod Sys
pub mod Ev
pub mod Socket
pub mod Open
pub mod Serial
pub mod Conn
pub mod Server
pub mod Links
pub mod Cstr
pub mod Netlink
pub mod Receiver
pub mod Logger
pub mod Legacy
pub mod Stream
pub mod Strings
pub mod Types
