-- ===== src/Geolocate.antt =====
-- The geolocation cache of manyfaced/common/geolocate.py: a dictionary in order of use whose entries
-- expire. A time of the monotonic clock is a number of seconds. The requests of the worker thread,
-- which call ip-api.com, are not part of it: `store_geo` is called with what they return.
pub mod Freshness
use manyfaced_honeypot.Base.{
  ℕ, ◌+◌, ◌-◌, Bool, ◌&&◌, ◌||◌, Option, none, some, List, [], ◌∷◌, ◌++◌, if◌then◌else◌, ltb, leb,
  length, drop, Text, codes, is_empty, text_in, starts_with, words, upper, is_digit, Dict, lookup,
  remove, text_key,
}

pub record GeoResult : Type 0 where
  pub country : Text
  pub continent : Text
  pub asn : Text
  pub org : Text

abbrev pub empty_result : GeoResult
empty_result = record { country = []; continent = []; asn = []; org = [] }

pub record GeoEntry : Type 0 where
  pub result : GeoResult
  pub expires_at : ℕ

-- `_geo_cache`, and the addresses in the queue of the worker with their timeouts
pub record GeoState : Type 0 where
  pub cache : Dict Text GeoEntry
  pub queue : List (Text × ℕ)

abbrev pub cache_ttl : ℕ
cache_ttl = 86400

abbrev pub cache_max_size : ℕ
cache_max_size = 10000

abbrev token_of : List Text → Option Text
token_of [] = none
token_of (token ∷ _) =
    if starts_with (codes "AS") token && is_digit (drop 2 token) then some token else some []

-- `normalize_asn`; `none` is the IndexError on a text that is only white space.
unfoldable pub normalize_asn : Text → Option Text
normalize_asn asn = if is_empty asn then some [] else token_of (words (upper asn))

-- the addresses that are not looked up
unfoldable pub is_local : Text → Bool
is_local ip =
    text_in ip (codes "127.0.0.1" ∷ codes "::1" ∷ [])
    || starts_with (codes "10.") ip
    || starts_with (codes "192.168.") ip
    || starts_with (codes "172.") ip

-- The fresh entry of an address, if there is one.
abbrev pub fresh_entry : ℕ → Option GeoEntry → Option GeoEntry
fresh_entry now none = none
fresh_entry now (some e) = if ltb now e.expires_at then some e else none

-- `lookup_ip_geolocation`, and whether `start_geo_worker` gives a queue
unfoldable pub lookup_ip_geolocation : Bool → ℕ → ℕ → Text → GeoState → GeoState × GeoResult
lookup_ip_geolocation has_worker now timeout ip st =
    if is_local ip then (st, empty_result) else elim (fresh_entry now (lookup ip st.cache)) [
      | some e ↦ (record st { cache = remove ip st.cache ++ (ip, e) ∷ [] }, e.result)
      | none ↦
          if has_worker
          then (record st { queue = st.queue ++ (ip, timeout) ∷ [] }, empty_result)
          else (st, empty_result)
    ]

-- The oldest entries of a full cache go.
unfoldable pub evict_oldest : ℕ → Dict Text GeoEntry → Dict Text GeoEntry
evict_oldest limit cache =
    if leb limit (length cache) then drop (length cache - limit + 1) cache else cache

-- `_store_geo`
unfoldable pub store_geo : ℕ → Text → GeoResult → GeoState → GeoState
store_geo now ip result st = record st {
  cache =
      evict_oldest cache_max_size (remove ip st.cache)
      ++ (ip, record { result = result; expires_at = now + cache_ttl }) ∷ [];
}
