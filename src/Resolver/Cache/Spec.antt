-- ===== src/Resolver/Cache/Spec.antt =====
-- The calls on resolver/cache.go as values, and a cache that never deletes as their specification.
use cursedns.Prelude.{
  ℕ, ◌+◌, ◌*◌, Bool, true, false, Option, some, none, List, [], ◌∷◌, ltb, if◌then◌else◌, ◌==◌,
}
use cursedns.Dns.{Rr, rcode_success, rcode_name_error}
use cursedns.Resolver.Cache.{
  Cache, CacheKey, CacheKey-Eq, NegNameKey, NegNameKey-Eq, CacheEntry, NegEntry, get, set,
  get_negative, set_nxdomain, set_nodata, min_ttl, second, name_key,
}

pub data Op : Type 0 where
  read : CacheKey → Op
  write : CacheKey → List Rr → Op
  read_negative : CacheKey → Op
  write_nxdomain : NegNameKey → ℕ → Op
  write_nodata : CacheKey → ℕ → Op

pub data Reply : Type 0 where
  records : Option (List Rr) → Reply
  negative : Option ℕ → Reply
  done : Reply

-- one call, with the two times that it may read
unfoldable pub step : ℕ → ℕ → Op → Cache → Reply × Cache
step now now' (read key) c = let (r, c') = get now key c in (records r, c')
step now now' (write key rrs) c = (done, set now key rrs c)
step now now' (read_negative key) c = let (r, c') = get_negative now now' key c in (negative r, c')
step now now' (write_nxdomain key ttl) c = (done, set_nxdomain now key ttl c)
step now now' (write_nodata key ttl) c = (done, set_nodata now key ttl c)

-- Calls, each with the time since the last one, and the time between its two readings.
unfoldable pub replies : ℕ → List (ℕ × ℕ × Op) → Cache → List Reply
unfolding step
replies now [] c = []
replies now ((wait, pause, op) ∷ ops) c =
    let (r, c') = step (now + wait) (now + wait + pause) op c in
    r ∷ replies (now + wait + pause) ops c'

-- The specification: the latest write to each key, for ever.
pub record Ideal : Type 0 where
  pub entries : CacheKey → Option CacheEntry
  pub nxdomain : NegNameKey → Option NegEntry
  pub nodata : CacheKey → Option NegEntry

abbrev pub nothing : Ideal
nothing = record { entries = λ _. none; nxdomain = λ _. none; nodata = λ _. none }

-- what a read sees of an entry
abbrev pub live : ℕ → Option CacheEntry → Option (List Rr)
live now none = none
live now (some e) = if ltb e.expires now then none else some e.rrs

abbrev pub holds : ℕ → Option NegEntry → Bool
holds now none = false
holds now (some e) = if ltb e.expires now then false else true

abbrev pub ideal_reply : ℕ → ℕ → Op → Ideal → Reply
ideal_reply now now' (read key) s = records (live now (s.entries key))
ideal_reply now now' (read_negative key) s = negative (
    if holds now (s.nxdomain (name_key key))
    then some rcode_name_error
    else if holds now' (s.nodata key)
    then some rcode_success
    else none)
ideal_reply now now' _ s = done

abbrev pub ideal_step : ℕ → Op → Ideal → Ideal
ideal_step now (write key (rr ∷ rest)) s = record s {
  entries = λ k.
      if key == k
      then some (record { rrs = rr ∷ rest; expires = now + min_ttl rr.ttl rest * second })
      else s.entries k;
}
ideal_step now (write_nxdomain key ttl) s = record s {
  nxdomain = λ k. if key == k then some (record { expires = now + ttl }) else s.nxdomain k;
}
ideal_step now (write_nodata key ttl) s = record s {
  nodata = λ k. if key == k then some (record { expires = now + ttl }) else s.nodata k;
}
ideal_step now _ s = s

unfoldable pub ideal_replies : ℕ → List (ℕ × ℕ × Op) → Ideal → List Reply
ideal_replies now [] s = []
ideal_replies now ((wait, pause, op) ∷ ops) s =
    ideal_reply (now + wait) (now + wait + pause) op s
    ∷ ideal_replies (now + wait + pause) ops (ideal_step (now + wait) op s)
