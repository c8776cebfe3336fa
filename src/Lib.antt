-- ===== src/Lib.antt =====
-- A verification library for the Gradido node, a C++ server that keeps the blockchains of communities
-- in files. Paths are from the root of the repository.
--
-- The parts and how they interact. Confirmed transactions arrive as messages of a hiero topic. The
-- ordering manager of a community (src/controller/SimpleOrderingManager) hands them on in the order of
-- their sequence numbers. A block keeps them in a block file (src/model/files/Block), and a block index
-- (src/cache/BlockIndex) knows for each of them its month, its addresses and where it stands in the
-- file; the index is saved in an index file (src/model/files/BlockIndex) through a buffer with a cursor
-- (src/lib/VirtualFile). Public keys stand in the index as numbers of a dictionary
-- (src/cache/Dictionary), and src/cache/Block keeps new transactions in a cache and in a task that writes
-- them later. A blockchain (src/blockchain/FileBased) searches its blocks and keeps numbers in
-- src/cache/State. Deferred events wait in src/cache/TransactionTriggerEvent, transactions that
-- wait to be written in src/controller/TaskObserver, and src/lib/FuzzyTimer calls what is due.
--
-- The files.
--   Prelude: Boolean tests, lists over the native numbers, signed integers, and the result of code that
--   may throw (Outcome, with one constructor for each class of exception).
--   Bytes, OrderedMap: little-endian bytes; std::map and std::multimap as sorted lists.
--   VirtualFile: src/lib/VirtualFile.cpp. `of_bytes` and `contents` are readFromFile and writeToFile.
--   IndexFile: src/model/files/BlockIndex.{h,cpp}; IndexFile/Reader has readFromFile with its receiver as
--   a parameter.
--   BlockIndex: src/cache/BlockIndex.{h,cpp}, the state and adding; BlockIndex/Search the searches,
--   BlockIndex/Persist saving, loading and the wait for a file cursor.
--   BlockFile: src/model/files/Block.cpp, getOpenFile, readLine, appendLines, rebuildBlockIndex,
--   calculateHash and validateHash.
--   OrderingManager: src/controller/SimpleOrderingManager.{h,cpp}; `round` is the body of the loop of
--   ThreadFunction, `thread_function` the loop, `others` is what other threads do to the transactions between
--   two rounds, and `history` stands for what was told of each message.
--   FuzzyTimer, Dictionary, TriggerEvents, TaskObserver: src/lib/FuzzyTimer, src/cache/Dictionary,
--   src/cache/TransactionTriggerEvent and src/controller/TaskObserver.
--   ExpireCache, Decimal, LevelDb: the expiring caches of gradido_blockchain as an interface with laws, the
--   decimal text of std::to_string and atoi, and src/model/files/LevelDBWrapper.
--   State, TransactionIds, TransactionHash: src/cache/State, src/cache/HieroTransactionId and
--   src/cache/TransactionHash.
--   WriteTask: src/task/WriteTransactionsToBlockTask and the entries of src/blockchain/NodeTransactionEntry.
--   CacheBlock: src/cache/Block; `call_from_timer`, `work` and `exit` are where the write task leaves it.
--   FileBased: src/blockchain/FileBased, the blocks and the searches over them; FileBased/Filtering has
--   findAll, FileBased/Adding createAndAddConfirmedTransaction.
--   Scheduler: src/task/CPUSheduler, CPUShedulerThread, CPUTask and Task.
--   Tests: the theorems at concrete inputs.
--
-- Bounds and fuel. The machine's integers wrap where the code can reach it (sizes of buffers, uint8_t
-- counts, uint16_t line sizes, uint32_t indices and file sizes, uint64_t sequence numbers). `read_blocks`
-- and `read_lines` run on as many rounds as there are bytes and one, since each round reads a byte or
-- more, and `hash_loop` on one more than the size; `iterate_from` runs on one round more than there are blocks,
-- which its theorem shows to be enough, and `find_ready` on the sizes of the pending tasks, whose parents
-- are the only tasks that are put behind them. `thread_loop` runs on a number of rounds, and its theorem says how many are enough.
--
-- What is not in the source is a parameter: the hash of libsodium, the enum of transaction types and
-- fresh memory (Platform), leveldb (LevelDb, with the laws IsLevelDb, and Store with IsStore for the
-- dictionary), the expiring caches (ExpireCache, with the laws IsCache), SignatureOctet (`octet`), the
-- clock, the other communities and their transactions (World), the iteration over months
-- (Surroundings), the deserialization of transactions, and the confirmation with the roles of a transaction
-- (AddingCalls, whose calls may change the rest of the blockchain; the last block number that getBlock
-- may raise in the state is left out). Mutexes and file locks are taken as held for a
-- whole operation, and streams as working; a run of the write task is one step.
--
-- Not modelled: the start and the end of a blockchain, the trigger events' rescan, the provider
-- of blockchains, the clients, the JSON-RPC server and the start of the server; JSON output,
-- logging and the exceptions' texts.
pub mod Prelude
pub mod Bytes
pub mod LevelDb
pub mod OrderedMap
pub mod VirtualFile
pub mod WriteTask
pub mod IndexFile
pub mod BlockIndex
pub mod CacheBlock
pub mod BlockFile
pub mod OrderingManager
pub mod ExpireCache
pub mod FileBased
pub mod FuzzyTimer
pub mod Decimal
pub mod Dictionary
pub mod TransactionIds
pub mod TransactionHash
pub mod TriggerEvents
pub mod Scheduler
pub mod State
pub mod TaskObserver
mod Tests
