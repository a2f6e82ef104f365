-- ===== src/Lib.antt =====
-- gopher: a model of the repository's Go programs, with theorems about them.
--
-- The repository holds a TCP server framework (go-server), the code framework of a course on
-- distributed systems (6.5840), a web service for user accounts (go-proj), solutions of exercises
-- (go-leetcode), and many small examples. Modelled are the first three and some of the solutions.
-- All paths are from the repository's root.
--
-- Prelude: what the parts share. Prelude/Tests has Boolean tests and case splits, Prelude/Lists the
-- list functions on the native numbers, Prelude/Classes keys with a decidable equality,
-- Prelude/Dict association lists for Go's maps, Prelude/Words names with dots, and
-- Prelude/Integers Go's int with its 64 bits.
--
-- Gnet: go-server/gnet with go-server/global. A server accepts connections; each has a reader that
-- cuts the stream into messages and hands requests to a pool of workers or to a goroutine, and a
-- writer that sends packets.
--   Gnet/Base        configuration and errors (go-server/global/global.go: conf, init)
--   Gnet/Outcome     what a statement can do: be done, block for ever, or panic
--   Gnet/Msg         msg.go: NewMsg, SetLen, SetId, SetData
--   Gnet/Serializer  msg_serializer.go: Pack, Unpack; proofs in Serializer/RoundTrip
--   Gnet/Reader      conn.go: StartReader, with and without the serializer; proofs in
--                    Reader/Framing, Reader/Sound, Reader/Raw
--   Gnet/Handler     req.go, route.go, req_handler.go: BindRoute, UseRoute, StartWorkerPool,
--                    StartWorker, PushToReqChan; proofs in Handler/Routes and Handler/Order
--   Gnet/Dispatch    the end of StartReader's loop; proofs in Dispatch/Queues
--   Gnet/Conn        conn.go: SendPacket, SetProp, GetProp, DelProp, StartWriter, Stop; proofs in
--                    Conn/Closing and Conn/Wire
--   Gnet/Server      server.go and conn_man.go: Start's accept loop, AddConn, DelConn,
--                    GetConnById, GetConnNum, DelAllConn, NewConn, Stop; proofs in Server/Steps,
--                    Server/Registry with Server/Registry/History, and Server/Shutdown. There
--                    `Stop` runs without others in between; Server/Stages has its steps and those
--                    of DelAllConn one by one, with Stages/Tracked and Stages/Registered.
--   Gnet/Program     go-server/main.go: the two routes, the two hooks and main; proofs in
--                    Program/Talk
-- Goroutines that interleave are step relations on the state: senders and writer in Conn/Wire,
-- readers and workers in Handler/Order, the accept loop and the stops in Server/Steps and
-- Server/Stages. A channel is a bounded list, a lock a flag in the state, so that blocking and
-- deadlock are outcomes. A write may fail, and on a closed socket it does; then the writer ends.
-- uint32 values wrap around at 2^32. The reader's loop has a round for each byte of the stream and
-- one more as its fuel, which Reader/Sound proves to be enough, since each round takes a head.
--
-- Labs: 6.5840/src.
--   Labs/Labrpc      labrpc/labrpc.go: Network and its operations
--   Labs/Calls       labrpc/labrpc.go: MakeService, AddService, dispatch, processReq, Call; proofs
--                    in Calls/Delivery. What chance and other goroutines decide on the way of one
--                    request is a `Fate`; delays are not timed.
--   Labs/Persister   raft/persister.go, with the arrays in a store so that sharing shows
--   Labs/KvModel     models/kv.go: Partition, Init and Step of KvModel
--   Labs/Clerks      shardctrler/client.go and shardkv/client.go; proofs in Clerks/Asking,
--                    Clerks/Holding and Clerks/Owners. The clerks' loops have no end: they run on fuel, and the
--                    theorems say for which fuel there is a result.
--   Labs/Harness     kvraft/config.go: connectUnlocked, disconnectUnlocked, ConnectAll, partition;
--                    proofs in Harness/Links (each loop as a change of the matrix of links) and
--                    Harness/Sides
--   Labs/Cluster     kvraft/config.go and server.go: StartServer, ShutdownServer, make_config,
--                    makeClient and its connections, over Labs/Labrpc, Labs/Calls and
--                    Labs/Persister; proofs in Cluster/Ends, Cluster/Starting, Cluster/Making and
--                    Cluster/Stopping. The random names are handed in.
--   Labs/Minority    kvraft/config.go: Leader and make_partition; proofs in Minority/Filling and
--                    Minority/Groups
--   Labs/RaftNet     raft/config.go: connect and disconnect; proofs in RaftNet/Flags
--   Labs/RaftLogs    raft/config.go: checkLogs, applier, nCommitted; proofs in RaftLogs/Agreement.
--                    RaftLogs/Snapshots has ingestSnap and applierSnap, with labgob as a parameter.
--   Labs/Leaders     raft/config.go: checkOneLeader, checkTerms, checkNoLeader, on what is seen of
--                    the servers; proofs in Leaders/Terms, Leaders/Claimants, Leaders/Election
--   Labs/Labgob      labgob/labgob.go: checkType, with a program's types as a table; proofs in
--                    Labgob/Types, Labgob/Walk and Labgob/Report. Its fuel is above the number of types.
-- MapReduce: 6.5840/src/main/mrsequential.go and mrapps/wc.go; proofs in MapReduce/Groups and
-- MapReduce/WordCount. `sort.Sort` and `unicode.IsLetter` are parameters. The grouping loop has as
-- many rounds as there are pairs for its fuel, and each round takes a pair.
--
-- Proj: go-proj/src. A handler binds a request, calls the service, which calls the data access, and
-- answers; a middleware checks the token of a request.
--   Proj/Base        data/user.go; `Deps`: gorm, go-redis, bcrypt, jwt, viper and encoding/json as
--                    far as they are called. What a theorem needs of them is a record of laws, and
--                    Proj/Memory has an implementation that keeps these laws.
--   Proj/Dto         dto/common_dto.go, dto/user_dto.go
--   Proj/Dao         dao/common_dao.go, dao/user_dao.go, util/encrypt.go; proofs in Dao/Pages
--   Proj/Service     service/user_service.go, util/jwt.go; proofs in Service/Accounts
--   Proj/Resp        api/resp.go, api/tag_validate.go
--   Proj/Authorize   middleware/authorize.go; proofs in Authorize/Passing, Authorize/Sessions
--   Proj/Api         api/user_api.go; proofs in Api/Answers
--
-- Leetcode: go-leetcode/src.
--   Leetcode/Seats   solution1845.go; proofs in Seats/Reserving and Seats/Returning. Its loop has a
--                    round for each cell as its fuel.
--   Leetcode/Tickets solution983.go, with a call for each day of the year as its fuel; proofs in
--                    Tickets/Passes
--   Leetcode/Pairs   solution3162.go and solution3164.go; proofs in Pairs/Counting
--
-- The modules whose names end in Tests, below a part, have runs of the code and the theorems at
-- concrete inputs.
--
-- Not modelled: input and output, logging, the set-up of libraries, the command lines, of the test
-- harnesses of 6.5840 what waits and measures time and the two for shards, its Raft and key/value
-- servers, which are skeletons without a body, the copied checker 6.5840/src/porcupine, and the
-- examples of libraries and of the language in cpp-socket, go-kafka, go-redis, go-concurrent and
-- go-design-pattern. Go's two goroutines that write one connection's fields without a lock are not
-- given a weak memory: each step reads and writes at once. A failed write is taken to leave nothing
-- on the socket. The code in C++, Java and TypeScript is not modelled either.
pub mod Gnet
pub mod Labs
pub mod Leetcode
pub mod MapReduce
pub mod Prelude
pub mod Proj
