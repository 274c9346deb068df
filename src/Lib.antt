-- ===== src/Lib.antt =====
-- noydb keeps encrypted records in pluggable stores. A vault has collections, a collection maps
-- an id to an envelope: a version, a time and a ciphertext. Cryptography happens in packages/hub
-- before an envelope reaches a store; what stands here is the part of the program that moves,
-- merges, caches and counts envelopes.
--
-- Base collects the shared names, the Boolean tests, lists measured by native numbers, and texts
-- as lists of UTF-16 code units. Dict is the insertion-ordered Map of JavaScript as an
-- association list.
--
-- Objects has the plain objects of JavaScript, whose lookups also see the members that objects
-- inherit.
--
-- Store is the contract of packages/hub/src/types.ts (NoydbStore, EncryptedEnvelope): six methods
-- that change a state and settle to a value or to an error. IsLawful states what the hub relies
-- on, in terms of the records that a store shows. It is the interface between the parts: the
-- memory store fills it, the retrying store passes it on, and the sync engine takes it for its
-- two stores.
--
-- Memory is the store of packages/to-memory/src/index.ts: nested maps, with the methods under
-- their own names; Memory/Lawful makes it a NoydbStore.
--
-- Lru is packages/hub/src/cache/lru.ts (class Lru). The eviction loop runs on fuel, the number of
-- entries: each round drops one.
--
-- Sync is packages/hub/src/sync.ts (class SyncEngine): Sync/Meta has ensureLoaded, persistMeta
-- and trackChange, Sync/Push push, pushFiltered and handleConflict, Sync/Pull pull and sync. The
-- engine state has the fields of the class with the states of the two stores. Each try block is a
-- function over the outcome of a call (after_local_get is what follows the local get). An
-- operation runs to its end before the next: what other calls do at an await is left out. Times
-- are arguments. A thrown value is a StoreError; the JSON of the metadata and the resolvers of
-- conflicts are parameters.
--
-- Crdt is packages/hub/src/crdt.ts: the states, their merge, their snapshot, and how they are
-- built from a record. Values are of any type, with JSON.stringify and the id generator as
-- parameters.
--
-- Middleware is packages/hub/src/store-middleware.ts: Retry, Breaker, Cache and Health wrap a
-- store in another one. Clock readings are arguments; the clock does not run backwards; delays
-- are left out.
--
-- Refs is packages/hub/src/refs.ts (ref, class RefRegistry).
--
-- Scheduler is packages/hub/src/sync-policy.ts (class SyncScheduler); executePush and executePull
-- are two steps each, around the call that they await.
--
-- History is packages/hub/src/history.ts (saveHistory, getHistory, pruneHistory, clearHistory);
-- History/Answered is about a store that answers.
--
-- Json is the type of the JSON values and canonicalJson of packages/hub/src/ledger/entry.ts. A
-- number is its JSON text.
--
-- Patch is packages/hub/src/ledger/patch.ts (computePatch, applyPatch). Patch/Same says when two
-- values are the same whatever the order of their keys: the same is seen along every path.
--
-- Entry is the rest of packages/hub/src/ledger/entry.ts, with the loop of verify. Ledger is
-- packages/hub/src/ledger/store.ts (class LedgerStore), over a store of the contract. A method is
-- an action on the store and the cached head that settles to a value or to an error. The digest,
-- the cipher and JSON.parse are the fields of Platform. Ledger/Quiet is about what the reads of
-- the ledger leave, Ledger/Opening about ledgers that can be read. The digits of a position are
-- written on fuel, one more than the position.
--
-- Predicate, Indexes and Query are packages/hub/src/query/predicate.ts, indexes.ts and the
-- execution of plans in builder.ts (executePlan, executePlanWithSource). A value that may be
-- undefined is an optional JSON value. The sort and < on numbers are parameters.
--
-- Collection is packages/hub/src/collection.ts (class Collection) without CRDT mode: Collection
-- has the state, the cipher around a record, hydration and get, Collection/Writes put and delete,
-- Collection/Versions list, count and the methods about earlier versions. A call runs to its end
-- before the next. Collection/Held and Collection/Steps are about the state after each step of a
-- write, Collection/Unseen about the collections that the history and the ledger write to;
-- Collection/Sound has what is relied on of the parameters, Collection/Mirror the invariant;
-- Collection/Running, Collection/Settled and Collection/Willing are about writes that settle,
-- Collection/Filling and Collection/Hydrate about hydration, Collection/RoundTrip about get.
-- Store/Views is about what a store shows, Store/Answers about stores that answer. What the
-- checks of references do is an argument that acts on the whole collection.
--
-- Route is packages/hub/src/route-store.ts (routeStore): Route has the options, the state and the
-- choice of a store, Route/Methods get, put, delete and list, Route/Snapshots loadAll, saveAll
-- and mergeSnapshots, Route/Compact and Route/Resume the methods of these names. A store is a
-- number, the methods of each are a parameter, and Route/Apart states what the router relies on.
-- Route/Destination says where a record belongs by the options and the overrides alone.
--
-- Grouping is groupAndReduce of packages/hub/src/query/groupby.ts and reduceRecords of
-- aggregate.ts; the reducers are arguments.
--
-- Keyring is the part of packages/hub/src/keyring.ts that decides: what a role may do, and which
-- admins an admin has granted (findAdminDescendants). The loop over the stack runs on fuel, the
-- length of the stack and the number of grants and one more: each round takes one user off the
-- stack, and a grant puts one on it once.
--
-- Integers of the source that are modelled (versions, sizes, counters, times) are natural
-- numbers; none of the modelled code relies on wrap-around. The recursion follows lists, or the
-- number of retries.
--
-- Not modelled: the crypto and session code and the keyring operations that wrap keys (they call
-- WebCrypto), blobs and attachments, joins and live queries, bundles, vaults and instances, the
-- CRDT mode, the pages and the locales of a collection, the stores that call a service or a file
-- system, the framework bindings, and what only calls back or prints.
pub mod Base
pub mod Dict
pub mod Objects
pub mod Store
pub mod Lru
pub mod Memory
pub mod Sync
pub mod Crdt
pub mod Middleware
pub mod Refs
pub mod Scheduler
pub mod History
pub mod Json
pub mod Patch
pub mod Entry
pub mod Ledger
pub mod Predicate
pub mod Indexes
pub mod Query
pub mod Keyring
pub mod Grouping
pub mod Route
pub mod Collection
