-- ===== src/Lookups/Remembered.antt =====
-- What the cache gives back, and what a lookup of a location needs.
use Prim.Native.String.{String}
use text.Mathlib.TextLemmas.{append_cancel_left}
use logtrace_backend.Common.{ℕ, ◌≡◌, ◌≢◌, ap, true, nat_eq, string_eq}
use logtrace_backend.Domain.{ok}
use logtrace_backend.Lookups.{Redis, make_key, redis_get, redis_add, redis_exists, present_or_miss}

make_key_injective : (s t : String) → make_key s ≡ make_key t → s ≡ t
unfolding make_key
make_key_injective s t h = append_cancel_left "logtrace-cache-" s t h

module _ {W : Type 0} (inner : Redis W) where
  -- A SET is seen by GET and EXISTS of its key, as long as its time has not passed, and by no other.
  pub record IsRedis : Type 0 where
    pub gets :
        (key payload : String) (ttl : ℕ) (w w' : W)
        → inner.set key payload ttl w ≡ (ok tt, w')
        → inner.get key w' ≡ ok payload
    pub counts :
        (key payload : String) (ttl : ℕ) (w w' : W)
        → inner.set key payload ttl w ≡ (ok tt, w')
        → inner.count key w' ≡ ok 1
    pub others :
        (key payload : String) (ttl : ℕ) (w w' : W) (k : String)
        → inner.set key payload ttl w ≡ (ok tt, w')
        → k ≢ key
        → (inner.get k w' ≡ inner.get k w) × (inner.count k w' ≡ inner.count k w)

  -- A payload that was added is given back under its key, which exists then, and no other key
  -- changes.
  pub redis_get-redis_add :
      (key payload : String) (ttl : ℕ) (w w' : W)
      → IsRedis
      → redis_add inner key payload ttl w ≡ (ok tt, w')
      → (redis_get inner key w' ≡ ok payload)
        × (redis_exists inner key w' ≡ ok true)
        × ((k : String)
            → k ≢ key
            → (redis_get inner k w' ≡ redis_get inner k w)
              × (redis_exists inner k w' ≡ redis_exists inner k w))
  unfolding redis_get redis_add redis_exists
  redis_get-redis_add key payload ttl w w' law added = (
    law.gets (make_key key) payload ttl w w' added,
    ap (present_or_miss inner) (law.counts (make_key key) payload ttl w w' added),
    λ k differs.
        let (same, same_count) =
          law.others (make_key key) payload ttl w w' (make_key k) added
            (λ h. differs (make_key_injective k key h)) in
        (same, ap (present_or_miss inner) same_count),
  )
