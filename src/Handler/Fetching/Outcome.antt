-- ===== src/Handler/Fetching/Outcome.antt =====
-- What a fetch of handler/handler.go leaves: the lock, the cache and the waiters.
use cdn_edge.Common.{
  ℕ, ◌<◌, ◌≡◌, refl, sym, ◌∙◌, arith, Bool, true, false, Bool-cases, Option-cases, inl, inr, [],
  ◌∷◌, ◌++◌, Option, none, some, Text, codes, length, text_discrete, if◌then◌else◌,
}
use cdn_edge.Common.Int.{ℤ}
use cdn_edge.Common.Http.{Fields, header_get}
use cdn_edge.Common.Assoc.{delete, lookup-delete_self}
use cdn_edge.Cache.Entry.{Entry}
use cdn_edge.Cache.Stampede.{
  StampedeLock, LockEntry, locked, entry_at, put_entry, fetches, acquire, release, set_streaming,
  acquired_streaming, completed, new_lock_entry,
}
use cdn_edge.Cache.Stampede.Locked.{
  entry_at-put_self, grown, locked-grown_self, entry_at-grown, get_or_beyond,
}
use cdn_edge.Proxy.Origin.{Origin, fetch, Response, Result, response, error}
use cdn_edge.Handler.Cdn.{
  Request, Cdn, World, cache_get, origin_fetch, entry_of, response_key, put_both, etag_of,
}
use cdn_edge.Handler.Directives.{determine_ttl}
use cdn_edge.Handler.Cdn.Chunks.{closed_with, close-write_chunks, to_entry-write_chunks}
use cdn_edge.Handler.Writer.{
  Ending, replied, is_sendable, serve_entry, miss_word, stale_error_word, bypass_word,
}
use cdn_edge.Handler.Writer.Endings.{
  Answered, serve_entry-Answered, serve_response-Answered, http_error-Answered,
}
use cdn_edge.Handler.Fetching.{
  bad_gateway, serve_stale_or_502, keep_response, pass_response, is_kept, fetch_and_serve_streaming,
  serve_waited, fetch_and_serve,
}

-- A response that may not be kept leaves the cache as it was.
pub not_kept-cache :
    (w : World) (h : Fields) (r : Request) (primary_key : Text) (cdn : Cdn) (resp : Response)
    → (origin_fetch w primary_key (cdn.origin_url ++ r.request_uri) r.header cdn).1 ≡ response resp
    → is_kept cdn.default_ttl resp ≡ false
    → (fetch_and_serve_streaming w h r primary_key cdn).0.cache ≡ cdn.cache
unfolding fetch_and_serve_streaming pass_response origin_fetch
not_kept-cache w h r primary_key cdn resp e k = rw (e, k, fetch_and_serve_streaming) refl

-- A lock whose key, if it is locked, has published no stream.
abbrev pub Unstreamed : Text → StampedeLock → Type 0
Unstreamed key sl = (a : ℕ) → locked key sl ≡ some a → (entry_at a sl).stream_ready ≡ false

pub release-unlocked :
    (key : Text) (entry : Option Entry) (err : Option Text) (sl : StampedeLock)
    → locked key (release key entry err sl) ≡ none
unfolding release locked put_entry
release-unlocked key entry err sl = elim (Option-cases (locked key sl)) [
  | inl e ↦ rw (e, release) e
  | inr (a, e) ↦ rw (e, release) (lookup-delete_self text_discrete key sl.locks)
]

set_streaming-some :
    (key : Text) (se : ℕ) (sl : StampedeLock)
    → Unstreamed key sl
    → (t : StampedeLock) × (set_streaming key se sl ≡ some t)
unfolding set_streaming
set_streaming-some key se sl u = elim (Option-cases (locked key sl)) [
  | inl e ↦ (sl, rw (e, set_streaming) refl)
  | inr (a, e) ↦ (
    put_entry a (record (entry_at a sl) { streaming = some se; stream_ready = true }) sl,
    rw (e, set_streaming) (rw (u a e) refl),
  )
]

-- A result that leaves the key free, with a reply that is sent or that `WriteHeader` refuses.
abbrev pub Released : Text → Cdn × Ending → Type 0
Released key (cdn, ending) = (locked key cdn.stampede ≡ none) × Answered ending

pub bad_gateway-Answered : (h : Fields) → Answered (replied (bad_gateway h))
unfolding bad_gateway is_sendable
bad_gateway-Answered h = http_error-Answered h (codes "Bad Gateway") 502 refl

serve_stale-Released :
    (w : World) (h : Fields) (key : Text) (cdn : Cdn)
    → locked key cdn.stampede ≡ none
    → Released key (serve_stale_or_502 w h key cdn)
unfolding serve_stale_or_502 cache_get
serve_stale-Released w h key cdn l = elim (Option-cases (cache_get w w.later key cdn).1) [
  | inl e ↦ rw (e, serve_stale_or_502) (l, bad_gateway-Answered h)
  | inr (x, e) ↦
      rw (e, serve_stale_or_502)
        (l, serve_entry-Answered w.platform.codec w.later h x stale_error_word)
]

-- The state behind a response that is kept.
abbrev pub kept_state : World → Request → Text → Response → ℤ → ℤ → StampedeLock → Cdn → Cdn
kept_state w r key resp ttl swr locks cdn = record cdn {
  cache = put_both w key (response_key w r resp) (entry_of w r resp ttl swr) cdn.cache;
  stampede = release key (some (entry_of w r resp ttl swr)) none locks;
  streams = cdn.streams ++ closed_with resp.header resp.status_code resp.body ∷ [];
}

pub keep_response-eq :
    (w : World) (h : Fields) (r : Request) (key : Text) (resp : Response) (ttl swr : ℤ)
    (locks : StampedeLock) (cdn : Cdn)
    → set_streaming key (length cdn.streams) cdn.stampede ≡ some locks
    → keep_response w h r key resp ttl swr cdn ≡ (
      kept_state w r key resp ttl swr locks cdn,
      (serve_entry w.platform.codec w.later h (entry_of w r resp ttl swr) miss_word),
    )
unfolding keep_response entry_of
keep_response-eq w h r key resp ttl swr locks cdn e =
    let c = close-write_chunks resp.header resp.status_code resp.body in
    let t =
      to_entry-write_chunks resp.header resp.status_code resp.body w.later ttl swr (etag_of w resp)
        (header_get (codes "Last-Modified") resp.header) (response_key w r resp) in
    rw (e, keep_response) (rw t (rw c refl))

keep_response-Released :
    (w : World) (h : Fields) (r : Request) (key : Text) (resp : Response) (ttl swr : ℤ) (cdn : Cdn)
    → Unstreamed key cdn.stampede
    → Released key (keep_response w h r key resp ttl swr cdn)
keep_response-Released w h r key resp ttl swr cdn u =
    let (locks, e) = set_streaming-some key (length cdn.streams) cdn.stampede u in
    rw (keep_response-eq w h r key resp ttl swr locks cdn e) (
      release-unlocked key (some (entry_of w r resp ttl swr)) none locks,
      serve_entry-Answered w.platform.codec w.later h (entry_of w r resp ttl swr) miss_word,
    )

-- A fetcher always lets its waiters go, and always answers: whatever the origin does, the key is
-- free behind it and there is a reply, if `WriteHeader` takes its status.
pub fetch_and_serve_streaming-Released :
    (w : World) (h : Fields) (r : Request) (primary_key : Text) (cdn : Cdn)
    → Unstreamed primary_key cdn.stampede
    → Released primary_key (fetch_and_serve_streaming w h r primary_key cdn)
unfolding fetch_and_serve_streaming pass_response origin_fetch
fetch_and_serve_streaming-Released w h r key cdn u =
    cases
      (fetch w.client w.now w.later w.awaited key (cdn.origin_url ++ r.request_uri) r.header
        cdn.origin).0
      (fetch w.client w.now w.later w.awaited key (cdn.origin_url ++ r.request_uri) r.header
        cdn.origin).1
  where
    cases :
        (o : Origin) (x : Result)
        → Released key (elim x [
          | error e ↦
              serve_stale_or_502 w h key
                (record cdn { origin = o; stampede = release key none (some e) cdn.stampede })
          | response resp ↦
              let (ttl, swr) = determine_ttl cdn.default_ttl resp.header in
              if is_kept cdn.default_ttl resp
              then keep_response w h r key resp ttl swr (record cdn { origin = o })
              else pass_response w h key resp (record cdn { origin = o })
        ])
    cases o (error e) =
        serve_stale-Released w h key
          (record cdn { origin = o; stampede = release key none (some e) cdn.stampede })
          (release-unlocked key none (some e) cdn.stampede)
    cases o (response resp) = elim (Bool-cases (is_kept cdn.default_ttl resp)) [
      | inl k ↦
          let t = determine_ttl cdn.default_ttl resp.header in
          rw k (keep_response-Released w h r key resp t.0 t.1 (record cdn { origin = o }) u)
      | inr k ↦ rw k (
        release-unlocked key none (some (codes "not cacheable")) cdn.stampede,
        serve_response-Answered h resp bypass_word,
      )
    ]

acquire-free :
    (key : Text) (sl : StampedeLock)
    → locked key sl ≡ none
    → acquire key sl ≡ (grown key sl, fetches)
unfolding acquire
acquire-free key sl e = rw (e, acquire) refl

grown-Unstreamed : (key : Text) (sl : StampedeLock) → Unstreamed key (grown key sl)
grown-Unstreamed key sl a l =
    let e : some a ≡ some (length sl.entries) = sym l ∙ locked-grown_self key sl in
    let q : a ≡ length sl.entries = cc in
    let d : entry_at a sl ≡ new_lock_entry =
      get_or_beyond sl.entries a new_lock_entry (omega arith) in
    rw (entry_at-grown key a sl, d) refl

-- A request that finds its key free leaves it free again, whatever the origin does, and ends with a
-- reply, which is sent if its status is one from 100 to 999, and at which `WriteHeader` panics if
-- not; no other step panics.
pub fetch_and_serve-Released :
    (w : World) (h : Fields) (r : Request) (primary_key : Text) (cdn : Cdn)
    → locked primary_key cdn.stampede ≡ none
    → Released primary_key (fetch_and_serve w h r primary_key cdn)
unfolding fetch_and_serve
fetch_and_serve-Released w h r key cdn e =
    let f = acquire-free key cdn.stampede e in
    rw (f, fetch_and_serve)
      (rw f (
        fetch_and_serve_streaming-Released w h r key
          (record cdn { stampede = grown key cdn.stampede }) (grown-Unstreamed key cdn.stampede)))

released-none :
    (first : Bool) (key : Text) (a : ℕ) (x : Text) (sl : StampedeLock)
    → locked key sl ≡ some a
    → a < length sl.entries
    → (entry_at a sl).stream_ready ≡ false
    → acquired_streaming first (entry_at a (release key none (some x) sl)) ≡ some (none, none)
unfolding release acquired_streaming completed
released-none first key a x sl l lt s =
    let le : LockEntry = record (entry_at a sl) { entry = none; err = some x; done = true } in
    let rest : StampedeLock = record sl { locks = delete text_discrete key sl.locks } in
    rw (l, release) (rw (entry_at-put_self a le rest lt) (rw s refl))

-- The origin answers a fetcher that has published no stream for its key, but the answer may not be
-- kept: a request that waited for it wakes up with nothing and, unless the cache has an entry by
-- then, answers 502 Bad Gateway.
pub not_kept-waiter :
    (w v : World) (h g : Fields) (r : Request) (primary_key : Text) (cdn : Cdn) (resp : Response)
    (a : ℕ) (first : Bool)
    → locked primary_key cdn.stampede ≡ some a
    → a < length cdn.stampede.entries
    → (entry_at a cdn.stampede).stream_ready ≡ false
    → (origin_fetch w primary_key (cdn.origin_url ++ r.request_uri) r.header cdn).1 ≡ response resp
    → is_kept cdn.default_ttl resp ≡ false
    → v.waited ≡ (none, none)
    → (cache_get v v.later primary_key (fetch_and_serve_streaming w h r primary_key cdn).0).1 ≡ none
    → let after = (fetch_and_serve_streaming w h r primary_key cdn).0 in
      (acquired_streaming first (entry_at a after.stampede) ≡ some (none, none))
      × ((serve_waited v g primary_key after).1 ≡ replied (bad_gateway g))
unfolding fetch_and_serve_streaming pass_response origin_fetch serve_waited serve_stale_or_502
not_kept-waiter w v h g r key cdn resp a first l lt s e k vw miss = (
  rw (e, k, fetch_and_serve_streaming)
      (released-none first key a (codes "not cacheable") cdn.stampede l lt s),
  waiter (fetch_and_serve_streaming w h r key cdn).0 miss,
)
  where
    waiter :
        (after : Cdn)
        → (cache_get v v.later key after).1 ≡ none
        → (serve_waited v g key after).1 ≡ replied (bad_gateway g)
    waiter after m = rw (vw, serve_waited) (rw vw (rw (m, serve_stale_or_502) refl))
