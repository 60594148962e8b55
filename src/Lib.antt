-- ===== src/Lib.antt =====
-- Verification of the core of cxFramework, a C++ library of authentication, threading, memory,
-- network and protocol components.
--
-- The model is a shallow embedding: a class is a record, a member that changes it is a function
-- to the new record, and a region under a mutex is one step. Numbers are natural numbers; a byte
-- is one below 256, and a fixed width stands written out where the code can reach it. Parts and
-- their files:
--
-- - AuthStrings: cxAuth/libcx_auth/src/helpers/hlp_auth_strings.cpp, the escaping of names in the
--   paths of the file backend and the hexadecimal form of salts (`toURLEncoded`,
--   `fromURLEncoded`, `strToHex`, `strFromHex`).
-- - Auth: cxAuth/libcx_auth/src. Auth/Reason has the enumerations of datastructs/, Auth/Password
--   `genPassword` and `validatePassword` of iauth_validation_account.cpp, Auth/Account `IAuth` of
--   iauth.cpp over the virtual functions that a subclass implements, Auth/Session
--   `IAuth_Session`, and Auth/Methods `IAuth_Methods_Attributes`. A session calls the account's
--   `authenticate`, and a method is validated against a session.
-- - AuthFs: cxAuth/libcx_auth_fs/src, `IAuth_FS`, which keeps what Auth reads as directories and
--   files of escaped names.
-- - JsonExpr: cxScripts/libcx_scripts_jsonexpreval/src, expressions on JSON values:
--   `AtomicExpressionSide`, `AtomicExpression`, and `evaluate` and `detectSubExpr` of
--   `JSONExprEval`.
-- - Protocols/Base64: cxProtocols/libcx_protocols_http/src/helpers/base64std.cpp.
-- - Threads/MutexMap: cxThreads/libcx_thr_mutex_map/src/mutex_map.h, with its users as a step
--   relation over the locked regions.
-- - Threads/ThreadPool: cxThreads/libcx_thr_threadpool/src/threadpool.cpp, `ThreadPool` with its
--   workers and waiting calls as a step relation; what a generator draws is an argument.
-- - Network/Stream: cxNetwork/libcx_net_sockets/src/streams, the numbers and texts of
--   `Stream_Reader` and `Stream_Writer`, and `readBlock` of socket_base_stream.cpp.
-- - Network/Line: cxNetwork/libcx_net_multiplexer/src/socket_multiplexed_line.cpp, a line with
--   its window, and two ends of one as a step relation.
-- - Network/Multiplexer: the multiplexer beside it, its lines and its messages; it reads and
--   writes by Network/Stream and fills the buffers of Network/Line.
-- - Mem/Memory, Mem/Search, Mem/Strings: cxMem/libcx_mem_containers/src, the comparisons of
--   common.cpp, and `compare`, `find`, `copyOut`, `copyToString` and `toString` of
--   binarycontainer_base.cpp, over a record of the virtual functions that a kind of container
--   implements.
-- - Mem/Linear: binarycontainer_mem.cpp beside it, views of memory.
-- - Mem/Reference: binarycontainer_ref.cpp beside it, a range of another container.
-- - Mem/Chunks: cxMem/libcx_mem_containers/src, the chunked container of
--   binarycontainer_chunks.cpp and the checks of binarycontainer_base.cpp before it, while the
--   bytes are in memory.
-- - Threads/Queue: cxThreads/libcx_thr_mutex_queue/src/ts_queue.h, `TS_Queue`.
-- - Threads/RwLock: cxThreads/libcx_thr_mutex/src, the guards of the read-write lock.
-- - Mem/SubParser: cxMem/libcx_mem_streamparser/src/substreamparser.cpp, the parse modes of a
--   `SubStreamParser` over a container of chunks.
-- - Mem/UrlCoder: cxMem/libcx_mem_streamencoders/src, `StreamEncoder_URL` and
--   `StreamDecoder_URL`, over the stream that they write to.
-- - Mem/StreamParser: cxMem/libcx_mem_streamparser/src/streamparser.cpp, `parseData` over the
--   parsers of a protocol, which may call itself `maxTTL + 1` times.
--
-- Base has what they share: Boolean tests, lists, byte strings, and association lists for
-- `std::map`.
--
-- Loops are recursions on the list or on the text that they read, but for the one that cuts a
-- buffer in chunks: its fuel is the number of bytes, and a chunk takes at least one. Times are
-- seconds; what a call reads from the clock is an argument of it. The digests of OpenSSL, the
-- file system, jsoncpp, boost, the lock of pthreads, the random devices and the storage behind
-- `IAuth` are parameters. Not modelled: system calls of sockets, TLS, the SQLite backend, JSON,
-- printing and threads as such.
pub mod Auth
pub mod AuthFs
pub mod AuthStrings
pub mod Base
pub mod JsonExpr
pub mod Mem
pub mod Network
pub mod Protocols
pub mod Threads
