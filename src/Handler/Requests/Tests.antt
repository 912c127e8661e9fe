-- ===== src/Handler/Requests/Tests.antt =====
-- Requests to the handler of handler/handler.go, at a concrete handler.
use cdn_edge.Common.{
  ℕ, ◌≡◌, ap, refl, if◌then◌else◌, [], ◌∷◌, ◌++◌, Option, none, some, Text, codes, text_discrete,
  ℕ_discrete,
}
use cdn_edge.Common.Assoc.{insert, delete, lookup-insert_self}
use cdn_edge.Common.Int.{pos, ◌-ℤ◌}
use cdn_edge.Cache.Entry.{Entry, is_expired}
use cdn_edge.Cache.Toy.{sample_entry, toy_platform, toy_hash}
use cdn_edge.Cache.TinyLfu.{lfu_increment}
use cdn_edge.Cache.Tiered.{Cache, get, get_shard, shard_index, get_from_disk, get_from_memory}
use cdn_edge.Cache.Shard.{Shard, Element, element_of, find}
use cdn_edge.Cache.Stampede.{new_stampede_lock}
use cdn_edge.Proxy.Origin.{Response}
use cdn_edge.Handler.Writer.{stale_word, hit_word}
use cdn_edge.Handler.Cdn.{Request, Cdn, World, cache_get}
use cdn_edge.Handler.Fetching.Tests.{small_cdn, small_world, small_request, empty_cache}
use cdn_edge.Handler.Requests.{serve_cached}
use cdn_edge.Handler.Requests.Answers.{x_cache_of, serve_cached-x_cache}
use mathlib.Core.List.{lookup}

abbrev plain_page : Response
plain_page = record { status_code = 200; header = []; body = 1 ∷ [] }

abbrev idle : Cdn
idle = small_cdn new_stampede_lock

-- `/../x`
abbrev climbing : Request
climbing = record small_request { path = codes "/../x" }

abbrev page : Text
page = codes "h/"

-- The sample entry, stored at 100 for 10.
abbrev warm_element : Element
warm_element = record { address = 0; key = page; entry = sample_entry }

abbrev warm_shard : Shard
warm_shard = record {
  items = (page, 0) ∷ [];
  eviction = warm_element ∷ [];
  max_items = 4;
  next_address = 1;
}

abbrev warm : Cdn
warm = record idle { cache = record empty_cache { shards = warm_shard ∷ [] } }

abbrev warm_world : World
warm_world = record (small_world plain_page) { now = pos 105 }

in_shard : element_of page warm_shard ≡ some warm_element
unfolding element_of find ℕ_discrete insert delete
in_shard =
    let e : lookup {B = ℕ} text_discrete page ((page, 0) ∷ []) ≡ some 0 =
      lookup-insert_self text_discrete page 0 [] in
    rw (e, element_of) refl

-- `Get` behind the search of the shard.
abbrev answer : Cache → Option Element → Cache × Option Entry
answer c none = get_from_disk toy_platform (pos 105) page c
answer c (some e) = get_from_memory toy_platform (pos 105) page e c

found : (cache_get warm_world warm_world.now page warm).1 ≡ some sample_entry
unfolding cache_get get get_shard shard_index get_from_memory is_expired ◌-ℤ◌
found =
    let c : Cache = record (warm.cache) { lfu = lfu_increment toy_hash page warm.cache.lfu } in
    ap (λ o. (answer c o).1) in_shard

serve_cached-x_cache_example :
    let (cdn', reply) = serve_cached warm_world [] small_request page sample_entry idle in
    (x_cache_of reply ≡ (if is_expired warm_world.now sample_entry then stale_word else hit_word))
    × (cdn'.jobs ≡ (
        if is_expired warm_world.now sample_entry
        then idle.jobs ++ record { request = small_request; primary_key = page } ∷ []
        else idle.jobs))
serve_cached-x_cache_example =
    serve_cached-x_cache warm_world [] small_request page page warm idle sample_entry found
