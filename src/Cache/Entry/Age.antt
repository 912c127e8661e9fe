-- ===== src/Cache/Entry/Age.antt =====
-- Fresh, stale and dead entries of cache/cache.go.
use cdn_edge.Common.{ℕ, ◌≡◌, Bool, true, false, arith, not, ◌&&◌, ◌+◌, ◌<◌, ◌≤◌, ◌^◌}
use cdn_edge.Common.Int.{
  ℤ, pos, ◌+ℤ◌, ◌-ℤ◌, ◌≤ℤ◌, leb_ℤ, ltb_ℤ, IsI64, wrap_i64-eq_of_IsI64, wrap_i64-add_overflow,
}
use cdn_edge.Cache.Entry.{Entry, is_expired, is_stale_servable}

-- Of no use to anyone: `Get` and the disk tier drop such an entry.
abbrev pub is_dead : ℤ → Entry → Bool
is_dead now e = is_expired now e && not (is_stale_servable now e)

-- An entry with a positive TTL, and a stale-while-revalidate window that is not negative and whose
-- end is an int64, is fresh up to its TTL, stale but servable up to the end of the window, and dead
-- after that.
pub phases :
    (now : ℤ) (e : Entry)
    → pos 1 ≤ℤ e.ttl
    → pos 0 ≤ℤ e.stale_while_revalidate
    → IsI64 (e.ttl +ℤ e.stale_while_revalidate)
    → let age = now -ℤ e.stored_at in
      (is_expired now e ≡ ltb_ℤ e.ttl age)
      × (is_stale_servable now e
          ≡ (ltb_ℤ e.ttl age && leb_ℤ age (e.ttl +ℤ e.stale_while_revalidate)))
      × (is_dead now e ≡ ltb_ℤ (e.ttl +ℤ e.stale_while_revalidate) age)
unfolding is_expired is_stale_servable
phases now e ht hs h =
    let w = wrap_i64-eq_of_IsI64 (e.ttl +ℤ e.stale_while_revalidate) h in
    rw (w, is_stale_servable) (ground arith)

-- An entry without a positive TTL never expires, and none is ever stale before it is expired.
pub stale-expired : (now : ℤ) (e : Entry) → is_stale_servable now e ≡ true → is_expired now e ≡ true
unfolding is_expired is_stale_servable
stale-expired now e h = ground arith

-- Where a TTL and a window that are not negative have a sum that does not fit an int64, it wraps
-- to a negative time, and the entry is not served stale at any age.
pub window_overflow :
    (now : ℤ) (e : Entry) (t s : ℕ)
    → e.ttl ≡ pos t
    → e.stale_while_revalidate ≡ pos s
    → t < 2 ^ 63
    → s < 2 ^ 63
    → 2 ^ 63 ≤ t + s
    → is_stale_servable now e ≡ false
unfolding is_stale_servable
window_overflow now e t s et es ht hs h =
    let w = wrap_i64-add_overflow t s ht hs h in rw (et, es, w, is_stale_servable) (ground arith)
