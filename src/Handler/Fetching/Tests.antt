-- ===== src/Handler/Fetching/Tests.antt =====
-- Fetches of handler/handler.go at a concrete handler.
use cdn_edge.Common.{◌≡◌, refl, arith, true, false, [], ◌∷◌, none, some, Text, codes, length}
use cdn_edge.Common.Int.{pos}
use cdn_edge.Common.Strings.{
  same, equal_fold, lower, until, trim_space, trim_left, trim_right, is_space,
}
use cdn_edge.Common.Http.{header_get}
use cdn_edge.Cache.Toy.{toy_platform, toy_hash}
use cdn_edge.Cache.TinyLfu.{new_tiny_lfu}
use cdn_edge.Cache.Tiered.{Cache, get, get_shard, shard_index, get_from_disk}
use cdn_edge.Cache.Shard.{element_of}
use cdn_edge.Cache.Stampede.{
  StampedeLock, new_stampede_lock, acquire, acquired_streaming, entry_at, locked, fetches,
}
use cdn_edge.Cache.Stampede.Waiters.{fetches-locked}
use cdn_edge.Proxy.Circuit.{closed, allow}
use cdn_edge.Proxy.Origin.{
  Origin, Response, response, error, fetch, begin, do_fetch, limited, max_body,
}
use cdn_edge.Handler.Cdn.{Request, Cdn, World, cache_get, origin_fetch}
use cdn_edge.Handler.Directives.{
  determine_ttl, ttl_of_directives, has_cache_directive, directive_loop, directive_key, no_store,
  cache_control,
}
use cdn_edge.Handler.Writer.{replied}
use cdn_edge.Handler.Fetching.{
  bad_gateway, is_kept, fetch_and_serve_streaming, serve_waited, fetch_and_serve,
}
use cdn_edge.Handler.Fetching.Outcome.{
  not_kept-cache, not_kept-cache, fetch_and_serve-Released, Released, not_kept-waiter,
}
use mathlib.Core.List.{lookup}

-- A handler with an empty cache, no disk and no predictor, at a closed circuit.
abbrev pub empty_cache : Cache
empty_cache = record {
  shards = [];
  num_shards = 1;
  max_entry_bytes = pos 0;
  max_key_len = pos 0;
  has_disk = false;
  disk = record { files = []; used_bytes = pos 0; max_bytes = pos 0 };
  stats = record { hits = 0; misses = 0; evicts = 0; stale_hits = 0 };
  lfu = new_tiny_lfu 100;
  compress_headers = false;
}

abbrev pub small_origin : Origin
small_origin = record {
  sent = [];
  cb = record {
    state = closed;
    failures = 0;
    successes = 0;
    failure_threshold = pos 5;
    success_threshold = pos 3;
    open_timeout = pos 30;
    last_failure = pos 0;
  };
  max_body_bytes = pos 100;
  host_override = [];
  flights = [];
  landed = [];
}

abbrev pub small_cdn : StampedeLock → Cdn
small_cdn locks = record {
  cache = empty_cache;
  origin = small_origin;
  stampede = locks;
  streams = [];
  predictor = none;
  default_ttl = pos 60;
  origin_url = [];
  jobs = [];
}

-- `Cache-Control: no-store`
abbrev private_page : Response
private_page = record {
  status_code = 200;
  header = (cache_control, no_store ∷ []) ∷ [];
  body = 1 ∷ 2 ∷ [];
}

abbrev pub small_world : Response → World
small_world resp = record {
  now = pos 100;
  later = pos 101;
  client = λ _. response resp;
  awaited = error [];
  waited = (none, none);
  platform = toy_platform;
  hash = toy_hash;
  content_etag = λ body. body;
  parse_time = λ _. none;
  to_lower = lower;
}

abbrev pub small_request : Request
small_request = record {
  method = codes "GET";
  host = codes "h";
  path = codes "/";
  raw_query = [];
  request_uri = codes "/";
  header = [];
}

abbrev page : Text
page = codes "h/"

abbrev busy : Cdn
busy = small_cdn (acquire page new_stampede_lock).0

fetched :
    (origin_fetch (small_world private_page) page (codes "/") [] busy).1 ≡ response private_page
unfolding origin_fetch fetch begin allow lookup do_fetch limited max_body
fetched = refl

not_kept : is_kept (pos 60) private_page ≡ false
unfolding is_kept determine_ttl ttl_of_directives has_cache_directive directive_loop directive_key
    header_get same equal_fold lower until trim_space trim_left trim_right is_space
not_kept = refl

first_fetches : (acquire page new_stampede_lock).1 ≡ fetches
unfolding acquire locked lookup
first_fetches = refl

page-locked : locked page (acquire page new_stampede_lock).0 ≡ some 0
page-locked = fetches-locked page new_stampede_lock first_fetches

one_entry : length (acquire page new_stampede_lock).0.entries ≡ 1
unfolding acquire locked lookup
one_entry = refl

no_stream : (entry_at 0 (acquire page new_stampede_lock).0).stream_ready ≡ false
unfolding acquire locked lookup
no_stream = refl

untouched :
    (fetch_and_serve_streaming (small_world private_page) [] small_request page busy).0.cache
    ≡ empty_cache
untouched =
    not_kept-cache (small_world private_page) [] small_request page busy private_page fetched
      not_kept

missed :
    (cache_get
      (small_world private_page)
      (pos 101)
      page
      (fetch_and_serve_streaming (small_world private_page) [] small_request page busy).0).1
    ≡ none
unfolding cache_get get get_shard shard_index element_of get_from_disk lookup
missed = rw untouched refl

not_kept-waiter_example :
    let after =
      (fetch_and_serve_streaming (small_world private_page) [] small_request page busy).0 in
    (acquired_streaming true (entry_at 0 after.stampede) ≡ some (none, none))
    × ((serve_waited (small_world private_page) [] page after).1 ≡ replied (bad_gateway []))
not_kept-waiter_example =
    not_kept-waiter (small_world private_page) (small_world private_page) [] [] small_request page
      busy private_page 0 true page-locked (omega (arith, one_entry)) no_stream fetched not_kept
      refl missed

free : locked page new_stampede_lock ≡ none
unfolding locked lookup
free = refl

fetch_and_serve-Released_example :
    Released page (
      fetch_and_serve
        (small_world private_page)
        []
        small_request
        page
        (small_cdn new_stampede_lock))
fetch_and_serve-Released_example =
    fetch_and_serve-Released (small_world private_page) [] small_request page
      (small_cdn new_stampede_lock) free
