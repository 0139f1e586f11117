-- ===== src/Lookups.antt =====
-- internal/pkg/cache/rediscache/redis.go and internal/pkg/services/geo-ip.go. Redis, the HTTP client
-- and the reading of JSON are parameters; a payload is a text.
pub mod Remembered
use Prim.Native.String.{String, ◌++◌}
use logtrace_backend.Common.{
  ℕ, zero, suc, Bool, true, false, not, Option, none, some, ◌==◌, nat_eq, string_eq, if◌then◌else◌,
}
use logtrace_backend.Domain.{Error, other, Result, ok, err}

-- The commands of the client for Redis; a time to live is in nanoseconds, and EXISTS counts.
pub record Redis (W : Type 0) : Type 0 where
  pub get : String → W → Result String
  pub set : String → String → ℕ → W → Result (Unit {0}) × W
  pub count : String → W → Result ℕ

abbrev cache_miss : Error
cache_miss = other "cache has been missed"

unfoldable pub make_key : String → String
make_key s = "logtrace-cache-" ++ s

module _ {W : Type 0} (inner : Redis W) where
  unfoldable pub redis_get : String → W → Result String
  unfolding make_key
  redis_get key w = inner.get (make_key key) w

  unfoldable pub redis_add : String → String → ℕ → W → Result (Unit {0}) × W
  unfolding make_key
  redis_add key payload ttl w = inner.set (make_key key) payload ttl w

  abbrev present_or_miss : Result ℕ → Result Bool
  present_or_miss (err e) = err cache_miss
  present_or_miss (ok zero) = err cache_miss
  present_or_miss (ok (suc n)) = ok true

  unfoldable pub redis_exists : String → W → Result Bool
  unfolding make_key
  redis_exists key w = present_or_miss (inner.count (make_key key) w)

-- `Response` of the geo-IP service.
pub record GeoResponse : Type 0 where
  pub ip : String
  pub country : String
  pub city : String

-- `http.NewRequestWithContext`, the client, which gives a status and a body, and the JSON decoder.
pub record GeoClient (W : Type 0) : Type 0 where
  pub new_request : String → Result (Unit {0})
  pub send : String → W → Result (ℕ × String)
  pub decode : String → Result GeoResponse
  pub count_text : ℕ → String

-- The address is put into the URL as it is.
unfoldable pub geo_url : String → String
geo_url ip = "https://api.country.is/" ++ (ip ++ "?fields=city")

module _ {W : Type 0} (client : GeoClient W) where
  abbrev response_of : Result (ℕ × String) → Result GeoResponse
  response_of (err e) = err e
  response_of (ok (status, body)) =
      if not (status == 200)
      then err (other ("unexpected status: " ++ client.count_text status))
      else client.decode body

  unfoldable pub geo_ip_lookup : String → W → Result GeoResponse
  geo_ip_lookup ip w =
      if ip == ""
      then err (other "ip must not be empty")
      else elim (client.new_request (geo_url ip)) [
        | err e ↦ err e
        | ok _ ↦ response_of (client.send (geo_url ip) w)
      ]

  -- What the handlers make of the result: a failure is logged and leaves no location.
  unfoldable pub located : String → W → Option (String × String)
  located ip w = elim (geo_ip_lookup ip w) [ err e ↦ none | ok r ↦ some (r.country, r.city) ]
