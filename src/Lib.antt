-- ===== src/Lib.antt =====
-- DistributedSystemsHW, a replicated log: one master, any number of secondaries, and the protocol
-- between them.
--
-- The program. A client posts a message to the master with a write concern. The master appends it to
-- its log and sends it to every secondary that is connected; the http request is answered when as
-- many secondaries as the write concern asks for have confirmed it. A secondary that connects later,
-- or reconnects, asks the master for the messages from its first gap on. Messages reach a secondary
-- in any order and more than once, and it shows the run of messages before its first gap.
--
-- The files, and the code they model:
--   Base: the names that the others share, lists, and std::unordered_map and
--     tbb::concurrent_unordered_map as association lists (find, insert, assign, erase).
--   Scan: the loops that both storages run over their map (storage.cpp of both applications).
--   Master/Storage: app/master-node/storage. fetch_id and store_message are the two atomic steps of
--     Storage::addMessage; Storage/Log is about calls one after the other, Storage/Writers about
--     calls whose steps interleave.
--   Master/AddMessageRequest: app/master-node/addmessagerequest, one function for each method. The
--     calls on the promise are a list, sends and timers are actions. Session is a request with the
--     callbacks that are to come, and its relation Reach lets them come in any order; Message,
--     Session/Answers, Session/Snapshots and Session/Finished are about its message, the secondaries
--     it asks, and where it ends.
--   Master/MasterNode: app/master-node/masternode and app/master-node/secondary: addMessage,
--     pingSecondaries, and the slots of the signals of a secondary as functions on the state.
--   Secondary/Storage: app/secondary-node/storage; Replica, CatchUp and Answers are about deliveries.
--   Secondary/MasterSession, Secondary/SecondaryNode: app/secondary-node/mastersession and
--     app/secondary-node/secondarynode. What a session asks of its endpoint and emits are effects,
--     which emit turns into calls of the node's slots; sessions are named by handles.
--   NetUtils/Json, NetUtils/HttpSession: boost::json as it is used, and
--     libs/net-utils/src/httpsession.cpp; Master/HttpSession and Secondary/HttpSession are
--     processRequest() of app/master-node/httpsession and app/secondary-node/httpsession.
--   System: a master's storage and one secondary as one step relation. Links is about connections,
--     Steps, Callbacks and Replication about messages, Recovery about the ways on from a state,
--     Clients about what http clients see. System/Writing: the request of one message and the
--     storages of all secondaries. System/Joining: the request of one message, the atomic steps of
--     all calls of addMessage, and a secondary that connects in between; Knowing is about what that
--     secondary has stored, Sending about what the request sends it.
--   Proto/HostBytes, Proto/Deserializer, Proto/Serializer: libs/proto/src/deserialization and
--     libs/proto/src/serialization.
--   Proto/Parser: the shape that every fromPayload and parse function has, reads and tests in a row,
--     as a monad; its lemmas are what the round trips use.
--   Proto/Codes, Proto/Frame, Proto/Request, Proto/Response: libs/proto/src/codes, frame, request and
--     response; Request/Objects is about requests that give their text away.
--   Proto/Platform: what the code leaves to the allocator, as a parameter; Exec is a call that an
--     exception may leave.
--   Proto/OutcomingContext, Proto/OutcomingRequests: libs/proto/src/outcomingrequestcontext and
--     libs/proto/src/outcomingrequestsmanager. Runs is any sequence of the events of a manager.
--   Proto/IncomingContext, Proto/IncomingRequests: libs/proto/src/incomingrequestcontext and
--     libs/proto/src/incomingrequestsmanager; Runs is any sequence of the events of a manager.
--   Proto/Endpoint: libs/proto/src/endpoint.cpp, the calls that it makes on the two managers and the
--     signals it emits. Calls and Replies follow a request and its response between two endpoints.
--   Proto/SocketWrapper: libs/proto/src/socketwrapper. What the class calls on the socket, the
--     callbacks and the signals are effects; Writes and Runs are about writes, Reads about the buffer.
--   NetUtils/IoContextPool: libs/net-utils/src/iocontextpool.cpp; a context is its index. Load is
--     about the guards that are alive.
--   NetUtils/SocketAcceptor: libs/net-utils/src/socketacceptor.cpp, over that pool.
--   CmdLine, Master/Main, Secondary/Main: app/master-node/main.cpp and app/secondary-node/main.cpp.
--     Launch is about command lines; Serving, Counts, Guards and Balance are about the secondaries of
--     a master that runs, the acceptor that gives them contexts, and the pool that counts them.
--   Logger: libs/logger/src/setup.cpp and severity.cpp, and the file name that a line shows.
--   Tests: the theorems at concrete inputs, and runs.
--
-- How the parts meet. MasterNode.add_message calls Storage.add_message and runs an
-- AddMessageRequest on the ids of secondaries_snapshot. The response of a secondary goes through
-- OutcomingRequests.on_incoming_frame to the context of the request, and its promise is what
-- AddMessageRequest.on_response_received is given. Endpoint.on_request_frame registers a context
-- with the IncomingRequests of the other side, whose promise leads to the frame of the response. A
-- MasterSession asks for get_first_gap and stores what the master's get_contiguous_chunk returns; in
-- System the requests and answers between the two wait in `asked`, and any of them may be lost.
--
-- Bounds and fuel. size_t has 64 bits, and `next_u64` wraps; the host is little-endian, as on x86-64,
-- and its size_t has eight bytes. The two loops over a storage run on fuel, one round more than
-- there are messages: each round but the last finds another message. A secondary stands for its id
-- and an endpoint for its secondary. Where an order of a hash map would show, it is the order of the
-- association list. A string is the list of its bytes.
--
-- The request counts in an int and keeps ids in a set of ints: what is proved of its promise and of
-- its end is for ids of secondaries below 2^31 - 1, of which there are too few for the int to
-- overflow.
--
-- Concurrency. What runs on one io_context is a sequence of steps; which step comes next is open.
-- Of the calls that run on several threads, those of the storage of the master are split into their
-- atomic steps, in Master/Storage/Writers and System/Joining. Master/MasterNode and the other step
-- relations of System take MasterNode::addMessage as a whole.
--
-- Not modelled: the records and the formatter of the logger, signals, timers, thenPost and
-- launchWithDelay, whose callbacks are events here, and the calls into boost and tbb themselves;
-- boost::json is a parameter, and so are the sizes for which a reserve throws, which ports can be
-- listened on and which strings are addresses. What boost::program_options finds on a command line
-- is an input of readCmdArgs. The warnings that the code logs leave no trace here.
pub mod Base
pub mod Scan
pub mod CmdLine
pub mod Master
pub mod Secondary
pub mod System
pub mod Proto
pub mod NetUtils
pub mod Logger
mod Tests
