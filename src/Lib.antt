-- ===== src/Lib.antt =====
-- Verification of cache-learning-notes, a distributed in-memory cache in Go.
--
-- The program. A node of the cache (cmd/cache, internal/server) keeps its values in the two-level
-- store of pkg/store/lru2.go: buckets that are chosen by a hash of the key, each with two layers,
-- where a layer is an LRU list in arrays. Which node a key belongs to is decided by the consistent
-- hash ring of internal/consistenthash, whose leader changes the numbers of virtual nodes by load
-- and publishes the ring through etcd. Concurrent reads of a key are merged by
-- internal/singleflight, and nodes find each other through internal/registry and etcd. The parts
-- meet in the server of internal/server: it asks its picker, and that the ring, which node a key
-- belongs to, reads and writes its own keys in the store and in Redis, and passes the others on to
-- the client of their node. pkg/store/lru.go has a single-level store that NewStore does not make.
--
-- The files.
-- - Base: shared names and lemmas. Base/Runs has the type Exec of a run, which ends in ok or in a
--   panic of Go, or in no_fuel where a loop is on fuel; at and write are the index expressions of
--   slices. Base/Int has int64 as integers with wrap64 written out. Base/Dict is a Go map as an
--   association list, Base/Keys the interface Eq of keys, and Base/Counts the counting of numbers
--   in lists.
-- - Layer: type cache of pkg/store/lru2.go. Layer/Links is the array dlnk and adjust, Layer/Cache
--   the struct and put, get, del, walk and Create, function by function. Layer/Spec is what a
--   layer promises: a list of nodes, the most recently used first. Layer/Model relates the two by
--   Models; Layer/Ring, Memory, Adjust, Reorder, Index, Push and Slots carry the proofs, and
--   Layer/Put, Get, Del and Walk hold the theorem of each method. Layer/Reads and Layer/Victim say
--   what the list holds for a key after a write, and for the key that a full list loses.
-- - Store: type lru2Store. Store/Hash has hashBKRD and maskOfNextPowOf2, Store/Bucket what each
--   method does to the two layers of the bucket that it locks, and Store/Ops the struct, NewStore,
--   newLRU2Cache and the methods themselves. Store/Model says which entry a bucket shows for a
--   key: the valid node of the first level, or else that of the second. Store/Delete, Answer,
--   Get, Set, Displaced, Collect and CleanUp treat the buckets; Store/Invariant lifts them to the
--   store, and Store/Mask, Create, Methods, RoundTrip, Clear, Len and CleanStore have its theorems.
--   Store/Clock is the internal clock that init keeps.
-- - ConHash: type Map of internal/consistenthash/con_hash.go. ConHash/Search has what it uses of
--   Go's package sort, and slice_remove; ConHash/Map the structs and the methods; ConHash/Lookup is
--   about Get, ConHash/Points about sorted points, ConHash/Members and AddRemove about Add and
--   Remove, ConHash/Owners about the owners of points, and ConHash/Rebalance about
--   checkAndRebalance. ConHash/Dest has the address that Get answers with as a function, and
--   ConHash/Election the loops of RunElection. ConHash/Snapshot has the snapshots that the leader
--   publishes and what encoding/json makes of a text, ConHash/Follower is about a follower.
-- - SingleFlight: Do of internal/singleflight/singleflight.go. SingleFlight/Step is a step relation:
--   each access of the shared map is a step of one goroutine, and the goroutines interleave in any
--   order. SingleFlight/Invariant, Stored and Ran carry the invariant through the steps, and
--   SingleFlight/Reachable has its consequences for the reachable states. SingleFlight/Alone is
--   about a goroutine that runs alone.
-- - LruCache: type LruCache of pkg/store/lru.go. LruCache/Cache has the struct and the methods,
--   LruCache/Spec a list of entries, the most recently used first. LruCache/Lists and Linked are
--   about the list and the map items, LruCache/Model has the invariant, LruCache/Evict, Parts and
--   Writes are about evict, Set and SetWithExpiration, LruCache/Reads about Delete and Get, and
--   LruCache/Clean about cleanupExpired. LruCache/Wrap and Recount compare the two ways to count
--   bytes, and LruCache/Reachable and Methods have the theorems for the callers.
-- - Registry: internal/registry/registry.go. Registry/Keys has the keys of etcd and
--   strings.TrimPrefix, Registry/Register the functions.
-- - Peer: internal/server/peer.go. Peer/Picker has ClientPicker and its methods; Peer/Clients and
--   Watch say that every node of the ring has a client, and Peer/Join is about a node that comes
--   and goes.
-- - Database: internal/database. The client of Redis and the peers are a record World of operations,
--   which the server takes as a parameter, with what Redis keeps as a hypothesis.
-- - Server: internal/server/server.go and group.go, and pkg/store/view.go. Server/Handlers has the
--   structs and the methods. Server/Route is about the node of
--   a key, Server/Requests about a server that is set up, Server/Start about Start, and Server/Safe,
--   Read and Owner about Set, Delete and Get.
-- - Main: cmd/cache/main.go, the set-up of a node and its loop over the standard input.
-- - Tests: runs at concrete inputs, and the theorems at inputs where their hypotheses hold.
--
-- How the code is modelled. A method takes the state and returns the new one with its results. A
-- mutex makes a method one step, so that a sequence of calls is a sequence of steps. The callback
-- onEvicted is the list of the calls that are made. A reading of the clock is an argument. An
-- unsigned integer keeps its wrap (% 2 ^ w), and an int32 hash is its bit pattern. A value of the
-- cache is any type with the nil interface added. The goroutine of the clean-up is a call of
-- clean_up, for one tick. In the ring the hash function and the two comparisons on float64 are
-- fields of the configuration, the order in which the runtime visits a map is an argument of
-- checkAndRebalance, and what etcd delivers is an argument too. The list of LruCache is a list of
-- numbers, with a function that says what an element points at. A request of the server runs
-- alone, so that Do of the single flight is there a call of its function; the answer of an error is
-- none, and a nil pointer, client or value that is used is a panic.
-- A snapshot that goes through JSON comes back as it was but for its texts, in which each byte outside
-- a valid UTF-8 sequence becomes the replacement character.
--
-- Fuel. walk runs on the length of dlnk as fuel: a valid list has fewer nodes than that. sort.Search
-- runs on the length of the slice as fuel: each round makes the interval shorter. evict runs on the
-- length of its list as fuel: each round takes an element out. The theorems say that these runs end
-- in ok. The loop of main ends only when it reads exit, so that its fuel is an argument. The digits of
-- a replica number are at most 20, which is enough for an int.
--
-- Not modelled: the connections to Redis, which are pure I/O; the goroutines that carry the answers
-- of etcd; what is left of a state after a panic, at which a run ends; a panic of the function that
-- Do of the single flight calls; the health server that Start makes and registers nowhere; requests
-- that overlap in the server; and the generated code of pkg/pb.
pub mod Base
pub mod Layer
pub mod Store
pub mod ConHash
pub mod SingleFlight
pub mod LruCache
pub mod Registry
pub mod Peer
pub mod Database
pub mod Server
pub mod Main
mod Tests
