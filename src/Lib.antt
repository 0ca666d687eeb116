-- ===== src/Lib.antt =====
-- A verification library for the game servers of this repository: the tables of the gate, the
-- records of a round, the players, the draw by weights, the names and errors of the log, the clients
-- of the database, and the ciphers and codecs of texts.
--
-- The program's parts. A client's connection reaches the gate (Framework/game_gate), which keeps it in
-- tables by session and by user, closes it when it is idle, gives it a worker thread and passes its
-- messages to the hall and the game servers, as far as these are not under repair. The game servers
-- seat players (Framework/game_serv), run a round and write its replay and its score lines
-- (public/gameStruct.h), and draw by weights (thirdpart/Logger); the game of thirteen cards
-- (Games/Game_s13s) splits a hand into three duns. Each thread talks to the database through its own
-- client (thirdpart/MongoDB), and reads the fields of a hash from Redis (public/RedisClient). Each
-- message is logged under the names of its ids (Framework/game_tracemsg, thirdpart/TraceMsg) by the
-- macros of the log (thirdpart/Logger/src/log), and the API's texts are
-- enciphered (thirdpart/https).
--
-- The files.
--   Prelude: names of the libraries, Boolean tests, lists under native lengths, signed integers, and
--     `std::map` as a list of entries in the order of the keys.
--   Gate: Framework/game_gate. Gate/Entities is `STR::Entities`, Gate/Users `INT::Entities`,
--     Gate/Sessions `INT::Sessions` of Entities.h; Gate/Buckets is the wheel, Gate/Context and
--     Gate/Workers are `Entry` and `Context` of EntryPtr.h; Gate/Repair is `Repair` and
--     Gate/Repair/Container `Container` of clients/Container.h. A connection is a number, a weak
--     pointer an optional one; Gate/World says which connections are alive and what session each
--     holds, and `lock` reads it. `History`, `Service` and `Timeout` run sequences of calls.
--   Replay, Score: `tagGameReplay`, `tagScoreInfo` and `tagSpecialScoreInfo` of public/gameStruct.h.
--   Log: the macros of thirdpart/Logger/src/log, as the calls of the Logger that they make: Log/Blocks
--     has the families of Logger.h, Log/Impl those of impl/LoggerImpl.h, Log/Assertions is Assert.h, and
--     Log/Order runs programs that use them.
--   Weight, Rand: `WeightImpl` (Weight/Service with its engines), and `GeneratorImpl` with `RandomImpl`, of
--     thirdpart/Logger/src/rand/impl/StdRandomImpl.h.
--   Trace: `strMessageId` and `fmtMessageId` of Framework/game_tracemsg/TraceMsg.cc, with their tables;
--     Trace/Logged is the macro of thirdpart/TraceMsg/TraceMsg.h.
--   Names: the macros of thirdpart/Logger/src/const.h, with the enumerations of public/gameConst.h,
--     public/errorCode.h and thirdpart/Logger/src/Macro.h; Names/Api the codes of
--     thirdpart/https/BackCodeSet.h.
--   Thirteen: `dundata_t` and `groupdun_t`, Thirteen/Hand `classify_t` and `handinfo_t` of
--     Games/Game_s13s/s13s.h.
--   Animate: `AnimatePlay` of Games/Game_s13s/AnimatePlay.h.
--   Api: `ConnBucket`, `Context` and `EventLoopContext` of thirdpart/https/ApiServer.h.
--   Html: `Encode` and `Decode` of thirdpart/https/htmlcodec.h.
--   SpinLock: thirdpart/Logger/src/lock/impl/SpinLockImpl.h, as a step relation on the threads.
--   Excp: the errors and macros of thirdpart/Logger/src/excp/excp.h; Excp/Handled joins them to Log.
--   Guards: `CGuardLock` of thirdpart/RedisLock/redlock.h, `zkLockGuard` of
--     thirdpart/zookeeperclient/zookeeperclient.h, `Mutex::Guard` of thirdpart/Logger/src/lock/mutex.h.
--   Atomic: the macros of thirdpart/Logger/src/atomic/Atomic.h, for Windows and for Linux.
--   Mongo: `ThreadLocalSingleton` of thirdpart/MongoDB/MongoDBClient.h.
--   Player: `CPlayer` and `CRobot` of Framework/game_serv/interface/impl.
--   Redis: `RedisValItem` and `RedisValue` of public/RedisClient/RedisClient.h.
--   Texas, Table: `handinfo_t` of Games/Game_texas/texas.h, and what TableFrameSink.h there keeps of
--     the users, the bets and the states; Table/Suoha, Thirteen/Status and Table/States are the states
--     in Games/Game_suoha, in Games/Game_s13s, and in Framework/game_serv/interface/impl/Table.h.
--   Endian: the readers of thirdpart/libwebsocket/private/Endian.h.
--   Crypto: `Des_Encrypt`, `Des_Decrypt`, `AES_ECBEncrypt` and `AES_ECBDecrypt` of
--     thirdpart/https/aes.h.
--   Tests: each property at a concrete input.
--
-- Conventions. A failed `assert`, an access outside an object, and whatever else the language or POSIX
-- leaves undefined, is `none`, and so is an exception of `new` or of a vector in aes.h; `debug` says whether asserts are compiled in, where the source makes it
-- depend on that. Loops are structural recursion; a loop that counts is given the number of its rounds,
-- and there is no other fuel. The atomic counter of the workers, `ssize_t`, the error numbers, the
-- lengths of aes.h, the sum of the weights and the shifts of Endian.h are written with their wrap-around or their bound; the numbers that are only
-- stored are plain integers. Weights are taken not to be negative.
--
-- Not modelled. Locks: each call is one step, and an interleaving is a sequence of calls or, for
-- SpinLock, of steps of the threads. The servers, the flow of the games and the analysis of hands have
-- no bodies in the repository; the Logger, its files and its timers are declarations around
-- operating-system calls, so that a macro ends at the calls that it makes. OpenSSL, the Base64 codec, boost::replace_all, the engines of random numbers,
-- `std::hash`, the conversions of numbers to texts and back, and the numbers of the protobuf
-- enumerators are parameters. Most other bodies of the repository are copies of modelled ones
-- (RpcContainer.h, Player.h of Framework/game_serv_club, excpImpl.h, the hands of Games/Game_suoha) or
-- plain records and constants. muduo and the driver of the database are other projects' libraries, and so are the clients of
-- ZooKeeper and of the Redis lock.
pub mod Prelude
pub mod Replay
pub mod Score
pub mod Gate
pub mod Weight
pub mod Rand
pub mod Excp
pub mod Player
pub mod Mongo
pub mod Guards
pub mod Atomic
pub mod Log
pub mod Trace
pub mod Crypto
pub mod Thirteen
pub mod Api
pub mod Names
pub mod Html
pub mod Endian
pub mod Animate
pub mod Redis
pub mod Texas
pub mod Table
pub mod SpinLock
pub mod Tests
