-- ===== src/Resolver/Cache/Ttl.antt =====
-- How long the entries of resolver/cache.go live.
use cursedns.Prelude.{
  ℕ, ◌+◌, ◌*◌, ◌^◌, ◌≤◌, ◌<◌, ◌≡◌, ◌≢◌, inl, inr, refl, some, none, List, [], ◌∷◌, arith, ltb,
  ltb→le, if◌then◌else◌, All, Bool-cases,
}
use cursedns.Prelude.Map.{lookup-insert}
use cursedns.Dns.{Rr}
use cursedns.Resolver.Cache.{
  Cache, CacheKey, CacheEntry, CacheKey-Eq, CacheKey_beq_iff, get, set, min_ttl, second,
}

-- the record is still fresh at `later` if it came at `now`
abbrev pub IsFresh : ℕ → ℕ → Rr → Type 0
IsFresh now later rr = later ≤ now + rr.ttl * second

min_ttl-le : (ttl : ℕ) (rrs : List Rr) → min_ttl ttl rrs ≤ ttl
unfolding min_ttl
min_ttl-le ttl [] = omega arith
min_ttl-le ttl (rr ∷ rrs) = ground (arith, min_ttl-le (if ltb rr.ttl ttl then rr.ttl else ttl) rrs)

-- the first record's and every other one's
min_ttl-IsFresh :
    (now later : ℕ) (ttl : ℕ) (rrs : List Rr)
    → later ≤ now + min_ttl ttl rrs * second
    → (later ≤ now + ttl * second) × All (IsFresh now later) rrs
unfolding min_ttl
min_ttl-IsFresh now later ttl [] h = (h, tt)
min_ttl-IsFresh now later ttl (rr ∷ rrs) h =
    let ih = min_ttl-IsFresh now later (if ltb rr.ttl ttl then rr.ttl else ttl) rrs h in
    elim (Bool-cases (ltb rr.ttl ttl)) [
      | inl e ↦ (ground arith, (ground arith, ih.1))
      | inr e ↦ (ground arith, (ground arith, ih.1))
    ]

IsFresh-min_ttl :
    (now later : ℕ) (ttl : ℕ) (rrs : List Rr)
    → later ≤ now + ttl * second
    → All (IsFresh now later) rrs
    → later ≤ now + min_ttl ttl rrs * second
unfolding min_ttl
IsFresh-min_ttl now later ttl [] h a = h
IsFresh-min_ttl now later ttl (rr ∷ rrs) h a =
    IsFresh-min_ttl now later (if ltb rr.ttl ttl then rr.ttl else ttl) rrs
      (elim (Bool-cases (ltb rr.ttl ttl)) [ inl e ↦ rw e a.0 | inr e ↦ rw e h ]) a.1

get-set_lem :
    (now later : ℕ) (key : CacheKey) (rr : Rr) (rest : List Rr) (c : Cache)
    → (get later key (set now key (rr ∷ rest) c)).0
      ≡ (if ltb (now + min_ttl rr.ttl rest * second) later then none else some (rr ∷ rest))
unfolding get set
get-set_lem now later key rr rest c =
    let entry : CacheEntry = record {
      rrs = rr ∷ rest;
      expires = now + min_ttl rr.ttl rest * second;
    } in
    ground (arith, lookup-insert key key entry c.entries, CacheKey_beq_iff key key)

-- What was stored comes back exactly while every one of its records is within its own TTL, and
-- after that the cache misses.
pub get-set :
    (now later : ℕ) (key : CacheKey) (rrs : List Rr) (c : Cache)
    → rrs ≢ []
    → (All (IsFresh now later) rrs → (get later key (set now key rrs c)).0 ≡ some rrs)
      × (¬ All (IsFresh now later) rrs → (get later key (set now key rrs c)).0 ≡ none)
get-set now later key [] c h = absurd (h refl)
get-set now later key (rr ∷ rest) c h = (
  λ fresh.
      let f = IsFresh-min_ttl now later rr.ttl rest fresh.0 fresh.1 in
      rw get-set_lem (ground arith),
  λ stale. elim (Bool-cases (ltb (now + min_ttl rr.ttl rest * second) later)) [
    | inl e ↦ rw (get-set_lem, e)
    | inr e ↦ absurd (stale (min_ttl-IsFresh now later rr.ttl rest (ltb→le _ _ e)))
  ],
)

-- With 32-bit TTLs, the lifetime that is added to the clock fits a signed 64-bit
-- `time.Duration`.
min_ttl-fits_duration :
    (rr : Rr) (rest : List Rr) → rr.ttl < 2 ^ 32 → min_ttl rr.ttl rest * second < 2 ^ 63
min_ttl-fits_duration rr rest h = omega (arith, min_ttl-le rr.ttl rest)
