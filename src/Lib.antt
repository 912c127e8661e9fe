-- ===== src/Lib.antt =====
-- A model of the Go program cdn-edge, the edge server and the control plane of a CDN, and theorems
-- about it. Paths are from the repository's root.
--
-- The parts and the files that model them:
--   Cache/ is cache/. `Cache.Entry`, `Cache.Key`, `Cache.Shard`, `Cache.Tiered` and `Cache.Disk` are
--     cache/cache.go: an entry and its age; the keys (NormalizeKey is `normalize_key`); an LRU shard, a
--     map to the elements of a list; the cache of shards over the disk tier (NewWithOptions is
--     `Cache.Tiered.Options`, Get `get`, Put `put`, putInShard `put_in_shard`, Delete `delete_entry`,
--     Purge `purge`, Len `len`); the files of the disk tier and their byte budget. `Cache.Sketch`,
--     `Cache.Doorkeeper` and `Cache.TinyLfu` are cache/tinylfu.go, the admission policy that
--     putInShard asks before it evicts. `Cache.Headers` is cache/headers.go, which Put and the disk
--     tier use. `Cache.Predictor` is cache/predictor.go, which the request handler asks before it
--     looks into the cache. `Cache.Streaming` is cache/streaming.go, a body that is read while it is
--     written, and `Cache.Stampede` cache/stampede.go, the lock that lets one request fetch and the
--     others wait. `Cache.Toy` has concrete functions for tests.
--   Proxy/ is proxy/: `Proxy.Circuit` is circuit.go, `Proxy.Balancer` balancer.go, `Proxy.Health`
--     healthcheck.go, which marks the balancer's backends up and down, and `Proxy.Origin` origin.go,
--     which joins fetches of one key to a flight behind the circuit breaker.
--   Handler/ is handler/: `Handler.Range` is range.go, on ASCII headers. handler.go is
--     `Handler.Directives` (Cache-Control), `Handler.Path` (the check of paths), `Handler.Writer` (the
--     answers), `Handler.Cdn` (the state, and the stores that several handlers share),
--     `Handler.Fetching` (fetchAndServe, fetchAndServeStreaming) and `Handler.Requests` (ServeHTTP, the
--     ranges, the revalidation). multitenant.go is `Handler.Tenants` (domains, rules, lifetimes),
--     `Handler.Serving` (ServeHTTP and its fetches) and `Handler.Config` (pushes and polls).
--   ControlPlane/ is tenant/tenant.go and controlplane/store/store.go: the records of tenants, domains,
--     rules and edge nodes, their file, and the snapshot for the edge servers. `ControlPlane.Api` is
--     controlplane/api/api.go: the handlers over the store, behind the routes and the checks of keys of
--     `ControlPlane.Api.Routing` (a request is `handle`).
--   Common/ holds what they share: lists and tests on native numbers, Go's signed integers (`Int`),
--     Go's maps as association lists (`Assoc`), powers of two (`Bits`), byte formats (`Format`), Go's
--     strings, strconv (`Strings`) and http.Header (`Http`), slices (`Slices`).
--
-- State is a record that each method takes and returns; a mutex makes a method one step, and the
-- steps of several callers are a sequence in any order. The cache's Get, Put and Delete take more
-- than one lock in turn; the model runs each of them as a whole. A call that waits (at a flight, at the
-- stampede lock, for bytes of a stream) is a step that ends at the wait, and a function that reads what
-- the wait yields. A request is one run of its handler, from the state that it meets to the one that
-- it leaves; what it waits for from other requests, the time and the origin are in the record `World`.
-- A revalidation in the background is a job that the handler adds and `revalidate_async` runs. Times
-- are arguments, in nanoseconds. Two logs stand for what leaves the program: `sent`, the requests that
-- the origin client has sent, and `handed`, the requests that the API has given to the handlers of other
-- packages. A run of a request handler ends in an `Ending`: a reply, a reply at whose status
-- `WriteHeader` panics, another panic (a nil rule of a domain is one), or the wait for a download.
-- Machine integers keep their wrap-around where it can be reached (the balancer's uint64 counter, the
-- int64 sum of two durations, the int64 products of a max-age and of a sampling window, hashes and table sizes); counters that
-- only go up by one do not wrap. Strings are lists of bytes; `strings.TrimSpace` and `strings.EqualFold`
-- are those of ASCII, and `strings.ToLower` is a parameter of the cache keys, known on ASCII. Put writes the compressed header to the caller's entry in
-- place, which the request handler then serves through GetHeader; the model leaves the caller's entry
-- as it is. The floating-point seconds of the Age field are taken for exact.
--
-- Bounds: the eviction loop of putInShard runs on one more than the elements of the shard, the loop of
-- spillToDisk on one more than the files, and each iteration takes one away; the search for the shard
-- count halves an int at most 63 times; the predictor's sizing loop has fuel for 32 tests; the
-- round robin counts the entries of its list, as in the code; the loops over directives run on the
-- length of the header, the loop that writes chunks on that of the body, the loop that reads a stream on
-- one more than its bytes, and each round takes a byte at least; an int64 has at most 19 digits.
--
-- Parameters: xxhash, FNV-64a, SHA-256, gob, zstd, JSON, the HTTP client, http.ParseTime, strings.ToLower, the file names
-- of the disk tier, the file system's failures, random identifiers and draws. Theorems that need more
-- of them name it: what is encoded is decoded to the same, JSON only for strings in UTF-8.
--
-- Not modelled: sockets, TLS and certificates, logging, metrics, tracing, configuration and start-up,
-- which are input and output; the rate limiter, which counts in float64; the time-outs of a request that
-- waits at a flight; cache warming and purge distribution.
pub mod Common
pub mod Cache
pub mod Proxy
pub mod Handler
pub mod ControlPlane
