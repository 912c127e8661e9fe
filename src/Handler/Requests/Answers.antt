-- ===== src/Handler/Requests/Answers.antt =====
-- What `ServeHTTP` of handler/handler.go answers.
use cdn_edge.Common.{
  ℕ, ◌≡◌, refl, ap, arith, Bool, true, false, not, Bool-cases, inl, inr, [], ◌∷◌, ◌++◌, Option,
  none, some, Text, codes, if◌then◌else◌, ◌&&◌, ◌||◌,
}
use cdn_edge.Common.Int.{ℤ}
use cdn_edge.Common.Strings.{same, is_empty, has_prefix, contains}
use cdn_edge.Common.Http.{Fields, first_of, header_get, header_set, header_put, header_del}
use cdn_edge.Cache.Headers.{Codec}
use cdn_edge.Cache.Entry.{Entry, is_expired, is_stale_servable}
use cdn_edge.Cache.Tiered.{Stats, get}
use cdn_edge.Cache.Tiered.Reads.{Answer, miss, hit, stale_hit, get-Answers}
use cdn_edge.Handler.Path.{slash, dot_dot, is_valid_path}
use cdn_edge.Handler.Path.Traversal.{is_valid_path-eq}
use cdn_edge.Handler.Writer.{
  Reply, Ending, replied, refused, panicked, waiting, handed, http_error, serve_entry, not_modified,
  cache_status_slice, x_cache_key, hit_word, stale_word,
}
use cdn_edge.Handler.Writer.Endings.{handed-write_header}
use cdn_edge.Handler.Cdn.{Request, Cdn, World, cache_get}
use cdn_edge.Handler.Requests.{serve_http, serve_cached, not_modified_since}

-- A request that the handler serves: a GET or a HEAD, of a path that starts with a slash and has no
-- two dots in a row, with a host.
abbrev pub is_served : Request → Bool
is_served r =
    (same r.method (codes "GET") || same r.method (codes "HEAD"))
    && (has_prefix slash r.path && not (contains dot_dot r.path))
    && not (is_empty r.host)

-- The status that a client gets.
abbrev pub status_of : Ending → Option ℕ
status_of (replied reply) = some reply.status
status_of (refused reply) = none
status_of panicked = none
status_of waiting = none

-- The tests of `ServeHTTP` in their order, with an answer for each.
gate_cases :
    (g k v e : Bool) (a b c rest : Cdn × Ending) (P : Bool → Cdn × Ending → Type 0)
    → (((g || k) && v && not e) ≡ false)
    → P false a
    → P true b
    → P true c
    → P (g || k) (if not g && not k then a else if not v then b else if e then c else rest)
gate_cases true k true true a b c rest P n pa pb pc = pc
gate_cases true k true false a b c rest P n pa pb pc = absurd (cc)
gate_cases true k false e a b c rest P n pa pb pc = pb
gate_cases false true true true a b c rest P n pa pb pc = pc
gate_cases false true true false a b c rest P n pa pb pc = absurd (cc)
gate_cases false true false e a b c rest P n pa pb pc = pb
gate_cases false false v e a b c rest P n pa pb pc = pa

-- A request that is not served changes nothing and gets 405 for its method, else 400.
pub serve_http-refuses :
    (w : World) (h : Fields) (r : Request) (cdn : Cdn)
    → is_served r ≡ false
    → ((serve_http w h r cdn).0 ≡ cdn)
      × (status_of (serve_http w h r cdn).1
          ≡ some (if same r.method (codes "GET") || same r.method (codes "HEAD") then 400 else 405))
unfolding serve_http http_error
serve_http-refuses w h r cdn n =
    gate_cases (same r.method (codes "GET")) (same r.method (codes "HEAD")) (is_valid_path r.path)
      (is_empty r.host) _ _ _ _
      (λ m x. (x.0 ≡ cdn) × (status_of x.1 ≡ some (if m then 400 else 405)))
      (rw (is_valid_path-eq r.path) n) (refl, refl) (refl, refl) (refl, refl)

-- What a lookup of the cache finds is fresh, or stale but servable.
cache_get-servable :
    (w : World) (now : ℤ) (key : Text) (cdn : Cdn) (e : Entry)
    → (cache_get w now key cdn).1 ≡ some e
    → (is_expired now e && not (is_stale_servable now e)) ≡ false
unfolding cache_get
cache_get-servable w now key cdn e h =
    answered (get w.platform now key cdn.cache).1 (get-Answers w.platform now key cdn.cache) h
  where
    answered :
        {s t : Stats} (x : Option Entry)
        → Answer now s t x
        → x ≡ some e
        → (is_expired now e && not (is_stale_servable now e)) ≡ false
    answered x (miss s1 _ _ _) q = absurd (cc)
    answered x (hit s1 e1 fresh _ _ _) q = let p : e1 ≡ e = cc in rw (← p, fresh) refl
    answered x (stale_hit s1 e1 old servable _ _ _) q =
        let p : e1 ≡ e = cc in rw (← p, old, servable) refl

abbrev x_cache_in : Option Reply → Text
x_cache_in none = []
x_cache_in (some reply) = header_get x_cache_key reply.header

-- The X-Cache of the reply that is handed to the writer.
abbrev pub x_cache_of : Ending → Text
x_cache_of x = x_cache_in (handed x)

serve_entry-x_cache :
    (codec : Codec) (now : ℤ) (h : Fields) (e : Entry) (status : Text)
    → x_cache_of (serve_entry codec now h e status) ≡ first_of (cache_status_slice status)
unfolding serve_entry header_get header_put header_del same
serve_entry-x_cache codec now h e status = elim (Bool-cases (is_empty e.etag)) [
  | inl n ↦ rw (n, serve_entry) (ap x_cache_in (handed-write_header _))
  | inr n ↦ rw (n, serve_entry) (ap x_cache_in (handed-write_header _))
]

-- The two conditional answers and the whole one.
abbrev fresh_answer : World → Fields → Cdn → Entry → Bool → Bool → Cdn × Ending
fresh_answer w h cdn e true b = (cdn, replied (not_modified h (codes "Etag") e.etag))
fresh_answer w h cdn e false true =
    (cdn, replied (not_modified h (codes "Last-Modified") e.last_mod))
fresh_answer w h cdn e false false = (cdn, serve_entry w.platform.codec w.now h e hit_word)

if-fresh_answer :
    (w : World) (h : Fields) (cdn : Cdn) (e : Entry) (a b : Bool)
    → ◌≡◌ {A = Cdn × Ending}
        (if a
          then (cdn, replied (not_modified h (codes "Etag") e.etag))
          else if b
          then (cdn, replied (not_modified h (codes "Last-Modified") e.last_mod))
          else (cdn, serve_entry w.platform.codec w.now h e hit_word))
        (fresh_answer w h cdn e a b)
if-fresh_answer w h cdn e true b = refl
if-fresh_answer w h cdn e false true = refl
if-fresh_answer w h cdn e false false = refl

fresh-x_cache :
    (w : World) (h : Fields) (cdn : Cdn) (e : Entry) (a b : Bool)
    → let (cdn', reply) = fresh_answer w h cdn e a b in
      (x_cache_of reply ≡ hit_word) × (cdn'.jobs ≡ cdn.jobs)
unfolding not_modified header_get header_set header_put same cache_status_slice
fresh-x_cache w h cdn e true b = (refl, refl)
fresh-x_cache w h cdn e false true = (refl, refl)
fresh-x_cache w h cdn e false false =
    (serve_entry-x_cache w.platform.codec w.now h e hit_word, refl)

-- An entry that a lookup has found is announced as stale exactly if it is expired, and exactly
-- then a background revalidation of its key is started; otherwise the answer is a hit.
pub serve_cached-x_cache :
    (w : World) (h : Fields) (r : Request) (key primary_key : Text) (before cdn : Cdn) (e : Entry)
    → (cache_get w w.now key before).1 ≡ some e
    → let (cdn', reply) = serve_cached w h r primary_key e cdn in
      (x_cache_of reply ≡ (if is_expired w.now e then stale_word else hit_word))
      × (cdn'.jobs ≡ (
          if is_expired w.now e
          then cdn.jobs ++ record { request = r; primary_key = primary_key } ∷ []
          else cdn.jobs))
unfolding serve_cached cache_status_slice same
serve_cached-x_cache w h r key primary_key before cdn e found =
    let s = cache_get-servable w w.now key before e found in
    elim (Bool-cases (is_expired w.now e)) [
      | inl x ↦
          let y : is_stale_servable w.now e ≡ true = ground arith in
          rw (x, y, serve_cached) (serve_entry-x_cache w.platform.codec w.now h e stale_word, refl)
      | inr x ↦
          rw (x, serve_cached)
            (let a =
                not (is_empty (header_get (codes "If-None-Match") r.header))
                && same (header_get (codes "If-None-Match") r.header) e.etag in
              let b = not_modified_since w r.header e in
              rw (if-fresh_answer w h cdn e a b) (fresh-x_cache w h cdn e a b))
    ]
