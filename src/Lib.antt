-- ===== src/Lib.antt =====
-- The archival node of the Push network: it receives blocks of transactions from validator nodes,
-- checks their signatures against the validators that a smart contract registered, stores them in
-- a database and tells its subscribers. Paths are from the root of the repository.
--
-- Collections: JavaScript's Map and Set as lists in insertion order.
-- Util: src/utilz/ (bitUtil.ts, strUtil.ts, chainUtil.ts), and the JSON form of a block
--   (recursivelyConvertToJSON of src/modules/archive/archive-node.service.ts).
-- Wire: the messages of src/proto/push/block.proto as records; the codec, the hashes and the
--   recovery of an address from a signature are parameters (`Libraries`), of which theorems use
--   only that the message in question is read back as it was written (`IsReadBack`). Jspb is
--   google-protobuf as an interface of a writer and a reader with their documented behaviour
--   (`IsWriter`, `IsReader`, `IsForward`); Push has the generated code of
--   src/generated/push/block_pb.js for a block and the messages in it over that interface, and
--   Generated puts it in the place of the codec.
-- Validator: src/modules/validator/. Signers has signing and the check of a block (blockUtil.ts);
--   Check has the answers of checks, Sdk the signatures of users (pushSdkUtil.ts), Transactions
--   the checks of one transaction and its signing by a user, Attestor those of a whole block and
--   of a finalized one, and Shards the shards that a block concerns (all blockUtil.ts); ethers,
--   nacl, bs58, bech32 and UTF-8 are parameters (`Wallets`); Contract has the registered nodes and
--   the events that change them, Load the reading of the contract at the start, and Status is
--   about the status of a node (validator-contract-state.service.ts).
-- Sockets: src/modules/websockets/: the subscribers, what is sent to them, and the monitor of
--   connections (subscriptionHandler.ts, eventBroadcaster.ts, connectionManager.ts); and in Server
--   the authentication of a socket (websockerServer.ts, errorHandler.ts). A socket is a number;
--   the network keeps what was sent.
-- Archive: src/modules/archive/. Database is the interface to the tables of prisma/schema.prisma
--   with the documented behaviour of the four calls (`IsDatabase`); Rows makes the rows; Blocks
--   has handleBlock and accept, and its children what they do: Outcomes lists the ways a run can
--   end, from which Safety, Linked, Complete and Retry follow. Steps has handleBlock one await at
--   a time: Alone is about an uninterrupted call, and Together about any order of the turns of
--   many calls. Put has push_putBlock (src/modules/block/block.service.ts), and Queue the polling
--   of the queues of other nodes (src/modules/queue/queue-client.service.ts), with the records of
--   the client in Helper (queue-client-helper.service.ts); Offered is about the blocks that
--   polling adds, Pages and Delivery about the items that it gets. Sync has the synchronisation
--   with other archival nodes (src/modules/archieveSync/) and, in Records, the job that deletes
--   its records; Laws is about what it keeps, Ends and Stuck about the end of its loop, which runs
--   for a number of rounds, and Fresh about a node that is new.
-- Queries: what the node answers to readers. Order is the order of rows by time, Reads the
--   interface to count, findMany and the join of hashes with their documented behaviour
--   (`IsReads`), Pages the arithmetic of pages, Views the objects of the answers; Blocks has the
--   queries of src/modules/block/block.service.ts, Txs those of src/modules/tx/tx.service.ts,
--   Recent push_getTransactions of the block service, whose SQL text is an interface, and Rpc the
--   defaults and the search of src/rpc.service.ts.
-- Tests: concrete runs, with a codec, tables and contract that meet the assumptions.
--
-- An exception is a value (`Result`), and a method that changes state gives the state back beside
-- it (`Prelude.Actions`). Numbers are natural numbers: timestamps and sizes in the code are below
-- 2 ^ 53, where JavaScript's numbers are exact. Loops run over lists, but for the requests to a
-- queue, which the code bounds, the fields of a message, for which the bytes that are left are
-- enough, and the rounds of the synchronisation (for which see Ends). Logging is left out, as it
-- changes nothing that the code reads. Not modelled are the reading of the environment at the
-- start, the schedules by which the jobs start, the interleaving of the clients of one round of
-- the synchronisation, and utilities that nothing here calls.
pub mod Prelude
pub mod Collections
pub mod Util
pub mod Wire
pub mod Validator
pub mod Sockets
pub mod Archive
pub mod Queries
mod Tests
