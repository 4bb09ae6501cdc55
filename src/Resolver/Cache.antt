-- ===== src/Resolver/Cache.antt =====
-- resolver/cache.go. A time is in nanoseconds; each operation takes what `time.Now` returns in it.
-- The mutex makes an operation one step, so each is a function of the cache.
pub mod Ttl
pub mod Spec
pub mod Refinement
use cursedns.Prelude.{
  ℕ, ◌+◌, ◌*◌, ◌^◌, String, Bool, ◌≡◌, ◌↔◌, ◌&&◌, Option, none, some, List, [], ◌∷◌, arith, ltb, Eq,
  eq_iff, ◌==◌, if◌then◌else◌, true, false, nat_eq, string_eq,
}
use cursedns.Prelude.Map.{Map, lookup, delete, insert}
use cursedns.Dns.{Rr, rcode_success, rcode_name_error}

-- `time.Second`, and `time.Duration` as its nanoseconds
abbrev pub second : ℕ
second = 10 ^ 9

pub record CacheKey : Type 0 where
  pub name : String
  pub qtype : ℕ
  pub qclass : ℕ

pub record NegNameKey : Type 0 where
  pub name : String
  pub qclass : ℕ

pub record CacheEntry : Type 0 where
  pub rrs : List Rr
  pub expires : ℕ

pub record NegEntry : Type 0 where
  pub expires : ℕ

pub record Cache : Type 0 where
  pub entries : Map CacheKey CacheEntry
  pub nxdomain : Map NegNameKey NegEntry
  pub nodata : Map CacheKey NegEntry

abbrev pub CacheKey_beq : CacheKey → CacheKey → Bool
CacheKey_beq j k = j.name == k.name && (j.qtype == k.qtype && j.qclass == k.qclass)

pub CacheKey_beq_iff : (j k : CacheKey) → (CacheKey_beq j k ≡ true) ↔ (j ≡ k)
CacheKey_beq_iff j k = ground (arith, eq_iff j.name k.name)

instance abbrev pub CacheKey-Eq : Eq CacheKey
CacheKey-Eq = record { beq = CacheKey_beq; beq_iff = CacheKey_beq_iff }

abbrev pub NegNameKey_beq : NegNameKey → NegNameKey → Bool
NegNameKey_beq j k = j.name == k.name && j.qclass == k.qclass

pub NegNameKey_beq_iff : (j k : NegNameKey) → (NegNameKey_beq j k ≡ true) ↔ (j ≡ k)
NegNameKey_beq_iff j k = ground (arith, eq_iff j.name k.name)

instance abbrev pub NegNameKey-Eq : Eq NegNameKey
NegNameKey-Eq = record { beq = NegNameKey_beq; beq_iff = NegNameKey_beq_iff }

unfoldable pub new_cache : Cache
new_cache = record { entries = []; nxdomain = []; nodata = [] }

-- `Cache.Get`
unfoldable pub get : ℕ → CacheKey → Cache → Option (List Rr) × Cache
get now key c = elim (lookup key c.entries) [
  | none ↦ (none, c)
  | some entry ↦
      if ltb entry.expires now
      then (none, record c { entries = delete key c.entries })
      else (some entry.rrs, c)
]

-- the loop of `Cache.Set` over the records after the first
unfoldable pub min_ttl : ℕ → List Rr → ℕ
min_ttl ttl [] = ttl
min_ttl ttl (rr ∷ rrs) = min_ttl (if ltb rr.ttl ttl then rr.ttl else ttl) rrs

-- `Cache.Set`
unfoldable pub set : ℕ → CacheKey → List Rr → Cache → Cache
set now key [] c = c
set now key (rr ∷ rest) c =
    let entry : CacheEntry = record {
      rrs = rr ∷ rest;
      expires = now + min_ttl rr.ttl rest * second;
    } in
    record c { entries = insert key entry c.entries }

-- `Cache.GetNegative`, its first test: what it returns for a fresh entry, and the map that is left
unfoldable pub check_nxdomain : ℕ → NegNameKey → Cache → Bool × Cache
check_nxdomain now key c = elim (lookup key c.nxdomain) [
  | none ↦ (false, c)
  | some entry ↦
      if ltb entry.expires now
      then (false, record c { nxdomain = delete key c.nxdomain })
      else (true, c)
]

-- its second test
unfoldable pub check_nodata : ℕ → CacheKey → Cache → Bool × Cache
check_nodata now key c = elim (lookup key c.nodata) [
  | none ↦ (false, c)
  | some entry ↦
      if ltb entry.expires now
      then (false, record c { nodata = delete key c.nodata })
      else (true, c)
]

abbrev pub name_key : CacheKey → NegNameKey
name_key key = record { name = key.name; qclass = key.qclass }

-- `Cache.GetNegative`; the clock is read in each test
unfoldable pub get_negative : ℕ → ℕ → CacheKey → Cache → Option ℕ × Cache
get_negative now now' key c =
    let (nx, c') = check_nxdomain now (name_key key) c in
    let (nd, c'') = check_nodata now' key c' in
    if nx
    then (some rcode_name_error, c')
    else if nd
    then (some rcode_success, c'')
    else (none, c'')

-- `Cache.SetNXDomain`
unfoldable pub set_nxdomain : ℕ → NegNameKey → ℕ → Cache → Cache
set_nxdomain now key ttl c = record c {
  nxdomain = insert key (record { expires = now + ttl }) c.nxdomain;
}

-- `Cache.SetNoData`
unfoldable pub set_nodata : ℕ → CacheKey → ℕ → Cache → Cache
set_nodata now key ttl c = record c {
  nodata = insert key (record { expires = now + ttl }) c.nodata;
}
