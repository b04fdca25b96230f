-- ===== src/Lib.antt =====
-- The World Tree service: it follows the contract `WorldIDIdentityManager` on an Ethereum chain,
-- keeps the contract's Merkle tree of identities in memory, writes each change to a database, and
-- serves inclusion proofs. This library models the service's own code and proves what it does.
--
-- The parts, and how they interact:
--   * BlockScanner (src/tree/block_scanner.rs): `next` asks the provider for the logs of the blocks
--     behind the last one it has seen, window by window. The updaters call it.
--   * TreeData (src/tree/tree_data.rs): the tree, the trees before it, and the identities with the
--     times of their insertion. A method is a function from the state to an outcome and a state.
--     LeafMap is the `HashMap` of the identities.
--   * Indices (src/tree/tree_updater.rs, `pack_indices` and `unpack_indices`): indices as bytes.
--   * Updater (src/tree/tree_updater.rs, `TreeUpdater`): `sync_to_head` fetches the transactions of
--     the new logs, sorts them by block (BlockMap is the `BTreeMap`), and `sync_from_transaction`
--     decodes each, writes its rows and calls the tree. The state is the updater, the tree and the
--     database. Rows makes the rows of the tables, and Foreign holds their types (src/entities) and
--     the calls that the bindings decode (src/abi.rs).
--   * WorldTree (src/tree/mod.rs): the task of `spawn` as a step relation: a first sync, then rounds
--     of a loop until one fails. WorldTree.Run has the same task as a function of a list of rounds,
--     and WorldTree.Traced relates its rounds to runs of batches on the tree (TreeData.Runs).
--   * Service (src/tree/service.rs, src/tree/error.rs): the handlers of `/inclusionProof`, `/synced`
--     and `/health` on the state of the world tree, and the response to an error. Error has the
--     types of src/tree/error.rs. Service.Serve is the service as a whole, and the tasks of `serve`.
--   * Claims (src/claims/mod.rs, `ClaimUpdater`): the same scanner on another contract, its claims
--     printed. Claims.Task is the task of `ClaimStorage::spawn`.
--   * Logging (crates/axum-middleware/src/logging.rs): the middleware around the handlers, with the
--     limit on bodies.
--   * Http (src/tree/service.rs, the router of `serve`): the routes to the handlers, in the
--     middleware, from the head and body of a request to a response.
--   * Config (src/tree/config.rs, src/serde_utils/url.rs): the settings, how they are read and
--     written, and their defaults.
--   * Throttle (crates/ethers-throttle/src/lib.rs): the provider that waits for a rate limiter.
--     Throttle.Paced has the limiter as governor documents it, and the pace that requests keep.
--   * Retry (bin/tree_availability_service.rs, `CustomRetryPolicy`): the failures of the provider
--     that are tried again.
--   * Program (bin/tree_availability_service.rs, `main`): from the settings to the throttled
--     provider, the retry client over it and the service, and the wait for the tasks.
-- Contract is the specification that these parts together are held against: a chain with the contract,
-- whose calls change its leaves block by block, and providers that answer for it honestly. Blocks and
-- Tables have the transactions of a range of blocks and the statements for their rows, Passage and
-- Rounds a round of the task that meets them, Follow any number of such rounds from the service at its
-- Start. Served, OldRoots, Session and Database have what clients and the database get then.
-- Faults has rounds in which anything may fail, Partial, Safe and Faulty what such rounds leave, and
-- AnyRound what the service keeps then. What
-- a call means without its padding is described apart from the updater, in Updater.Padding: the
-- identities before the first zero, and the 32-bit indices before the first 2 ^ depth, in a tree of a
-- depth below 32. A provider need only know the blocks up to the chain's head of its round. A
-- contract of this specification changes at most once in a block, because the updater keeps one
-- transaction of each block (Updater.Sorted has what becomes of several).
-- Prelude has the shared names and list lemmas, Exec the outcomes (a value, an error, a panic, a
-- loop out of fuel) and the monad over a state, Merkle the tree library as an interface of
-- operations and laws, Chain what a provider answers with. Tests has an instance of each interface,
-- and runs of the code in it.
--
-- What stands outside is a parameter: the Merkle tree library of the semaphore crate, whose laws are
-- for indices in range; the provider, whose answers are fixed during one round, and the order in
-- which requested transactions arrive; the decoders, texts and statements of ethers and sea-orm; the
-- extractors and responses of axum; the sources and values of the crates config and serde, and the
-- URLs; the limiter of governor, with the times at which its waits end, and the retry client of ethers,
-- which is made of the throttled provider, the settings and the policy;  the results of the tasks; the
-- clock, read once while a transaction is handled, with none for a clock before the epoch. The
-- statements of one round see the database that the earlier ones left.
--
-- Numbers: sums of u64 wrap at 2 ^ 64 and the power of the padding index at 2 ^ 32, as in a release
-- build. `as i64` is two's complement. The indices and counts that stay within lengths of lists are
-- unbounded. Fuel: only the loop of the scanner takes fuel, one unit a window; a window moves on by
-- at least one block unless a sum wraps, so more fuel than there are missing blocks is enough.
--
-- The write lock on the tree makes the changes of one `sync_to_head` a single step for requests; what
-- was changed before an error or a panic stays changed, as the lock is not poisoned.
--
-- Not modelled: a panic of the tree library when it makes an empty tree with a dense prefix, the order
-- of requests that are in flight at once, the runtime below `main` (environment file, tracer, sockets, spawning, the connection
-- to the database), the command line options, which are never read, log lines, metrics and sleeps,
-- the code that abigen! and sea-orm-codegen generate, and the tests, benches and their local chain.
pub mod Prelude
pub mod Exec
pub mod Merkle
pub mod LeafMap
pub mod TreeData
pub mod Indices
pub mod Chain
pub mod BlockScanner
pub mod Error
pub mod Foreign
pub mod BlockMap
pub mod Rows
pub mod Updater
pub mod WorldTree
pub mod Service
pub mod Logging
pub mod Http
pub mod Config
pub mod Contract
pub mod Throttle
pub mod Program
pub mod Claims
pub mod Retry
pub mod Tests
