-- ===== src/Geolocate/Freshness.antt =====
-- The bounds and the freshness of the cache of manyfaced/common/geolocate.py.
use manyfaced_honeypot.Base.{
  ℕ, zero, suc, ◌+◌, ◌-◌, ◌≤◌, ◌<◌, Bool, false, none, some, [], ◌∷◌, ◌++◌, ◌≡◌, refl, arith,
  length, length-append, length-drop, drop, Text, text_eq_iff, Dict, lookup, remove, text_key,
  lookup-remove, lookup-append, HasDistinctKeys, remove-HasDistinctKeys, append-HasDistinctKeys,
}
use manyfaced_honeypot.Geolocate.{
  GeoResult, GeoEntry, GeoState, cache_ttl, cache_max_size, is_local, lookup_ip_geolocation,
  evict_oldest, store_geo,
}

pub record IsValid (st : GeoState) : Type 0 where
  pub bounded : length st.cache ≤ 10000
  pub distinct : HasDistinctKeys st.cache

length-remove_le : (ip : Text) (d : Dict Text GeoEntry) → length (remove ip d) ≤ length d
unfolding remove
length-remove_le ip [] = omega arith
length-remove_le ip (e ∷ d) = ground (arith, length-remove_le ip d)

lookup-drop :
    (n : ℕ) (ip : Text) (d : Dict Text GeoEntry) → lookup ip d ≡ none → lookup ip (drop n d) ≡ none
unfolding lookup
lookup-drop zero ip d h = h
lookup-drop (suc n) ip [] h = refl
lookup-drop (suc n) ip ((j, e) ∷ d) h = ground (arith, lookup-drop n ip d)

drop-HasDistinctKeys :
    (n : ℕ) (d : Dict Text GeoEntry) → HasDistinctKeys d → HasDistinctKeys (drop n d)
drop-HasDistinctKeys zero d h = h
drop-HasDistinctKeys (suc n) [] h = tt
drop-HasDistinctKeys (suc n) (e ∷ d) (_, h) = drop-HasDistinctKeys n d h

evict_oldest-bounded :
    (limit : ℕ) (d : Dict Text GeoEntry) → 0 < limit → length (evict_oldest limit d) < limit
unfolding evict_oldest
evict_oldest-bounded limit d h = ground (arith, length-drop (length d - limit + 1) d)

evict_oldest-absent :
    (limit : ℕ) (ip : Text) (d : Dict Text GeoEntry)
    → lookup ip d ≡ none
    → lookup ip (evict_oldest limit d) ≡ none
unfolding evict_oldest
evict_oldest-absent limit ip d h = ground (arith, lookup-drop (length d - limit + 1) ip d h)

evict_oldest-distinct :
    (limit : ℕ) (d : Dict Text GeoEntry)
    → HasDistinctKeys d
    → HasDistinctKeys (evict_oldest limit d)
unfolding evict_oldest
evict_oldest-distinct limit d h = ground (arith, drop-HasDistinctKeys (length d - limit + 1) d h)

absent-remove :
    (ip : Text) (d : Dict Text GeoEntry) → HasDistinctKeys d → lookup ip (remove ip d) ≡ none
absent-remove ip d h = ground (arith, lookup-remove ip ip d h, text_eq_iff ip ip)

lookup-last :
    (ip : Text) (e : GeoEntry) (d : Dict Text GeoEntry)
    → lookup ip d ≡ none
    → lookup ip (d ++ (ip, e) ∷ []) ≡ some e
unfolding lookup
lookup-last ip e d h = ground (arith, lookup-append ip d ((ip, e) ∷ []), text_eq_iff ip ip)

store_geo-IsValid :
    (now : ℕ) (ip : Text) (result : GeoResult) (st : GeoState)
    → IsValid st
    → IsValid (store_geo now ip result st)
unfolding store_geo
store_geo-IsValid now ip result st v =
    let kept = remove ip st.cache in
    let room = evict_oldest cache_max_size kept in
    let entry : GeoEntry = record { result = result; expires_at = now + cache_ttl } in
    record {
      bounded = omega (
        arith,
        evict_oldest-bounded cache_max_size kept (omega arith),
        length-append room ((ip, entry) ∷ []),
      );
      distinct =
          append-HasDistinctKeys ip entry room
            (evict_oldest-distinct cache_max_size kept
              (remove-HasDistinctKeys ip st.cache v.distinct))
            (evict_oldest-absent cache_max_size ip kept (absent-remove ip st.cache v.distinct));
    }

-- Storing a result keeps the cache within 10000 entries and its keys distinct. For less than a day
-- from then, the lookup of the address, if it is not local, returns that result and queues nothing.
pub store_geo-lookup :
    (has_worker : Bool) (now later timeout : ℕ) (ip : Text) (result : GeoResult) (st : GeoState)
    → IsValid st
    → is_local ip ≡ false
    → later < now + 86400
    → let stored = store_geo now ip result st in
      IsValid stored
      × ((lookup_ip_geolocation has_worker later timeout ip stored).1 ≡ result)
      × ((lookup_ip_geolocation has_worker later timeout ip stored).0.queue ≡ st.queue)
unfolding store_geo lookup_ip_geolocation
store_geo-lookup has_worker now later timeout ip result st v outside soon =
    let kept = remove ip st.cache in
    let entry : GeoEntry = record { result = result; expires_at = now + cache_ttl } in
    let found : lookup ip (store_geo now ip result st).cache ≡ some entry =
      lookup-last ip entry (evict_oldest cache_max_size kept)
        (evict_oldest-absent cache_max_size ip kept (absent-remove ip st.cache v.distinct)) in
    (store_geo-IsValid now ip result st v, ground arith, ground arith)
