-- ===== src/Lib.antt =====
-- A model of the core of Paima Engine, which turns blocks of several chains into the state of a game.
--
-- The parts and how they interact. The funnels (packages/node-sdk/paima-funnel) read the chains and
-- hand over a `ChainData` for each block. The runtime (packages/node-sdk/paima-runtime) takes one after
-- the other through the state machine (packages/node-sdk/paima-sm), each in a database transaction. For
-- a block, the state machine writes the row of the block, applies the datums of the primitives and the
-- internal events, runs the inputs that are due, then those that users submitted, and finishes the row
-- with a hash of it all. An input is run by the game's state transition function; before that, a wallet
-- command is carried out, or an address gets its id. A batcher (packages/batcher) takes signed inputs of
-- users beside all this, and posts them to the chain in the concise encoding that the funnels unpack.
--
-- The files:
--   Base       names, lists, tests on numbers.
--   Batcher    packages/batcher, which takes inputs of users and posts them in batches. Limits models
--              authenticateUserAddress of address-validator/src/index.ts; Store the tables and db/src/sql;
--              Submit and Handlers webserver/src and the rest of the address validator; Rounds
--              game-input-validator/src/index.ts and batcher-transaction-poster/src/transactionPoster.ts.
--              Requests and rounds take their turns, in the step relation of Reach.
--   Chain      packages/paima-sdk/paima-chain-types/src: the data that is handed over, and in
--              Chain.Hash what the hashes are taken of.
--   Cde        packages/node-sdk/paima-sm/src/cde-*.ts, with createScheduledData of
--              packages/node-sdk/paima-db/src/scheduled-constructors.ts and the queries beside it. A
--              processor makes updates of a datum, and Tables runs them; a module for each kind of token,
--              and Engine for the loop over all datums.
--   Concise    packages/paima-sdk/paima-concise/src, on texts as lists of code units. Value, Builder and
--              Consumer model v1, builder.ts and consumer.ts, and Coding relates what is built to what is
--              read. Batch models batcher.ts, with its lemmas in Split, Fill and Round.
--   Funnel     packages/node-sdk/paima-funnel/src/utils.ts: Search (findBlockByTimestamp,
--              getUpperBoundBlock), Grouping (groupCdeData, groupEvmCdeData), Mapping
--              (buildParallelBlockMappings, addInternalCheckpointingEvent), Compose (composeChainData).
--              Emulated models funnels/emulated/funnel.ts beside it (feedData, getNextBlock,
--              getNextBlockBatch), L2 paima-l2-processing.ts with the batches of
--              packages/paima-sdk/paima-concise/src/batcher.ts, and Namespaces
--              packages/paima-sdk/paima-utils/src/security/parse.ts.
--   Wallet     Tables and Lookup model packages/node-sdk/paima-db/src/delegate-wallet.ts with its tables
--              and queries; Commands and Process model packages/node-sdk/paima-sm/src/delegate-wallet.ts.
--              A command is a function of the wallets' state with a result; what was written before an
--              error stays written, and a broken constraint marks the transaction as aborted.
--   Machine    packages/node-sdk/paima-sm/src/index.ts: Events (tryOrRollback, handleEvents,
--              sendEventsToBroker, indexForEventByTx), Inputs (processUserInputs), Scheduled
--              (processScheduledData), Primitives (processCdeData, processInternalEvents,
--              presyncProcess), Randomness (randomness.ts), Block (process). The state is `Machine`: the
--              engine's tables, the game's own as a parameter, and what was sent. A call that may throw
--              has an `Outcome`, which holds the state in both cases.
--   Runtime    packages/node-sdk/paima-runtime/src: Presync (getPresyncStartBlockheight,
--              runPresyncRound and runPresync, of runtime-loops.ts), Sync (processSyncBlockData and the loop around it,
--              of the same file), Nonces (nonce-gc.ts).
--
-- Bounds. Heights, ids and timestamps are natural numbers; the source's are doubles, and exact below
-- 2 ^ 53. Two loops are on fuel: that of findBlockByTimestamp, with the length of the range and one,
-- and that of runPresync, with one more than the rounds until the funnel is done; their theorems show
-- that this is enough. The batcher's times are milliseconds since the epoch.
--
-- Parameters, where the code is not the program's own or belongs to the game: the state transition
-- function and the game's queries, keccak, the decimal form of numbers, lower-casing, the signature
-- schemes, the concise parser of wallet commands, Prando, the message broker, the data migrations, and the
-- JSON texts and addresses of datums, and for the batcher the chain, Carp, reCAPTCHA, the dry run of the
-- game node and the namespaces (which Funnel.Namespaces models).
--
-- Not modelled: network and file access, failures of the database other than those of constraints, delays
-- and retries, snapshots, the flags that stop a process, the batcher's start-up and providers, and the
-- funnels of the single chains. The order in which the database returns rows that a query leaves open is
-- the order of the table.
pub mod Base
pub mod Batcher
pub mod Chain
pub mod Concise
pub mod Funnel
pub mod Wallet
pub mod Machine
pub mod Cde
pub mod Runtime
