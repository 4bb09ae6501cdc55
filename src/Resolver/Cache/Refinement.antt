-- ===== src/Resolver/Cache/Refinement.antt =====
-- resolver/cache.go against a cache that never deletes: dropping an expired entry in a read cannot
-- be seen.
use native.Mathlib.Nat.{le_refl}
use cursedns.Prelude.{
  ℕ, ◌+◌, ◌*◌, ◌≤◌, ◌≡◌, refl, ap, ◌∙◌, inl, inr, true, some, List, [], ◌∷◌, arith, ltb, Eq,
  Bool-cases,
}
use cursedns.Prelude.Map.{lookup, delete, lookup-insert, lookup-delete}
use cursedns.Dns.{Rr}
use cursedns.Resolver.Cache.{
  Cache, CacheKey, CacheKey-Eq, CacheKey_beq_iff, NegNameKey, NegNameKey-Eq, NegNameKey_beq_iff,
  CacheEntry, NegEntry, get, set, check_nxdomain, check_nodata, get_negative, set_nxdomain,
  set_nodata, min_ttl, second, name_key, new_cache,
}
use cursedns.Resolver.Cache.Spec.{
  Op, read, write, read_negative, write_nxdomain, write_nodata, records, negative, step, replies,
  Ideal, nothing, live, holds, ideal_reply, ideal_step, ideal_replies,
}

-- From `now` on, no read can tell the cache from the ideal one.
record Agrees (now : ℕ) (c : Cache) (s : Ideal) : Type 0 where
  entries : (t : ℕ) → now ≤ t → (k : CacheKey) → live t (lookup k c.entries) ≡ live t (s.entries k)
  nxdomain :
      (t : ℕ) → now ≤ t → (k : NegNameKey) → holds t (lookup k c.nxdomain) ≡ holds t (s.nxdomain k)
  nodata : (t : ℕ) → now ≤ t → (k : CacheKey) → holds t (lookup k c.nodata) ≡ holds t (s.nodata k)

Agrees-later :
    (now later : ℕ) {c : Cache} {s : Ideal} → now ≤ later → Agrees now c s → Agrees later c s
Agrees-later now later h a = record {
  entries = λ t l. a.entries t (omega arith);
  nxdomain = λ t l. a.nxdomain t (omega arith);
  nodata = λ t l. a.nodata t (omega arith);
}

-- deleting an expired entry
live-delete :
    (now t : ℕ) (k j : CacheKey) (m : List (CacheKey × CacheEntry)) (e : CacheEntry)
    → lookup k m ≡ some e
    → ltb e.expires now ≡ true
    → now ≤ t
    → live t (lookup j (delete k m)) ≡ live t (lookup j m)
live-delete now t k j m e found old h = ground (arith, CacheKey_beq_iff k j, lookup-delete k j m)

holds-delete {ℓ} :
    {K : Type ℓ} ⦃q : Eq K⦄ (now t : ℕ) (k j : K) (m : List (K × NegEntry)) (e : NegEntry)
    → lookup k m ≡ some e
    → ltb e.expires now ≡ true
    → now ≤ t
    → holds t (lookup j (delete k m)) ≡ holds t (lookup j m)
holds-delete ⦃q⦄ now t k j m e found old h = ground (arith, q.beq_iff k j, lookup-delete k j m)

live-get :
    (now t : ℕ) (key j : CacheKey) (c : Cache)
    → now ≤ t
    → live t (lookup j (get now key c).1.entries) ≡ live t (lookup j c.entries)
unfolding get
live-get now t key j c h = ground (arith, CacheKey_beq_iff key j, lookup-delete key j c.entries)

get-Agrees :
    (now : ℕ) (key : CacheKey) {c : Cache} {s : Ideal}
    → Agrees now c s
    → ((get now key c).0 ≡ live now (s.entries key)) × Agrees now (get now key c).1 s
unfolding get
get-Agrees now key {c} {s} a = (
  ground (arith, a.entries now (le_refl now) key),
  record {
    entries = λ t l k. live-get now t key k c l ∙ a.entries t l k;
    nxdomain = λ t l k. ground (arith, a.nxdomain t l k);
    nodata = λ t l k. ground (arith, a.nodata t l k);
  },
)

set-Agrees :
    (now : ℕ) (key : CacheKey) (rrs : List Rr) {c : Cache} {s : Ideal}
    → Agrees now c s
    → Agrees now (set now key rrs c) (ideal_step now (write key rrs) s)
unfolding set
set-Agrees now key [] a = a
set-Agrees now key (rr ∷ rest) {c} {s} a = record {
  entries = λ t l k.
      let entry : CacheEntry = record {
        rrs = rr ∷ rest;
        expires = now + min_ttl rr.ttl rest * second;
      } in
      ground (arith, lookup-insert key k entry c.entries, a.entries t l k);
  nxdomain = a.nxdomain;
  nodata = a.nodata;
}

set_nxdomain-Agrees :
    (now : ℕ) (key : NegNameKey) (ttl : ℕ) {c : Cache} {s : Ideal}
    → Agrees now c s
    → Agrees now (set_nxdomain now key ttl c) (ideal_step now (write_nxdomain key ttl) s)
unfolding set_nxdomain
set_nxdomain-Agrees now key ttl {c} {s} a = record {
  entries = a.entries;
  nxdomain = λ t l k.
      let entry : NegEntry = record { expires = now + ttl } in
      ground (arith, lookup-insert key k entry c.nxdomain, a.nxdomain t l k);
  nodata = a.nodata;
}

set_nodata-Agrees :
    (now : ℕ) (key : CacheKey) (ttl : ℕ) {c : Cache} {s : Ideal}
    → Agrees now c s
    → Agrees now (set_nodata now key ttl c) (ideal_step now (write_nodata key ttl) s)
unfolding set_nodata
set_nodata-Agrees now key ttl {c} {s} a = record {
  entries = a.entries;
  nxdomain = a.nxdomain;
  nodata = λ t l k.
      let entry : NegEntry = record { expires = now + ttl } in
      ground (arith, lookup-insert key k entry c.nodata, a.nodata t l k);
}

check_nxdomain-Agrees :
    (now : ℕ) (key : NegNameKey) {c : Cache} {s : Ideal}
    → Agrees now c s
    → ((check_nxdomain now key c).0 ≡ holds now (s.nxdomain key))
      × Agrees now (check_nxdomain now key c).1 s
unfolding check_nxdomain
check_nxdomain-Agrees now key {c} {s} a = (
  ground (arith, a.nxdomain now (le_refl now) key),
  record {
    entries = λ t l k. ground (arith, a.entries t l k);
    nxdomain = λ t l k.
        ground (arith, NegNameKey_beq_iff key k, lookup-delete key k c.nxdomain, a.nxdomain t l k);
    nodata = λ t l k. ground (arith, a.nodata t l k);
  },
)

check_nodata-Agrees :
    (now : ℕ) (key : CacheKey) {c : Cache} {s : Ideal}
    → Agrees now c s
    → ((check_nodata now key c).0 ≡ holds now (s.nodata key))
      × Agrees now (check_nodata now key c).1 s
unfolding check_nodata
check_nodata-Agrees now key {c} {s} a = (
  ground (arith, a.nodata now (le_refl now) key),
  record {
    entries = λ t l k. ground (arith, a.entries t l k);
    nxdomain = λ t l k. ground (arith, a.nxdomain t l k);
    nodata = λ t l k.
        ground (arith, CacheKey_beq_iff key k, lookup-delete key k c.nodata, a.nodata t l k);
  },
)

get_negative-Agrees :
    (now pause : ℕ) (key : CacheKey) {c : Cache} {s : Ideal}
    → Agrees now c s
    → (negative (get_negative now (now + pause) key c).0
        ≡ ideal_reply now (now + pause) (read_negative key) s)
      × Agrees (now + pause) (get_negative now (now + pause) key c).1 s
unfolding get_negative
get_negative-Agrees now pause key {c} {s} a =
    let (nx, a') = check_nxdomain-Agrees now (name_key key) a in
    let a'' = Agrees-later now (now + pause) (omega arith) a' in
    let (nd, a''') = check_nodata-Agrees (now + pause) key a'' in
    elim (Bool-cases (check_nxdomain now (name_key key) c).0) [
      | inl e ↦ (ground arith, rw e a'')
      | inr e ↦ (ground arith, ground arith)
    ]

step-Agrees :
    (now pause : ℕ) (op : Op) {c : Cache} {s : Ideal}
    → Agrees now c s
    → ((step now (now + pause) op c).0 ≡ ideal_reply now (now + pause) op s)
      × Agrees (now + pause) (step now (now + pause) op c).1 (ideal_step now op s)
unfolding step
step-Agrees now pause (read key) a =
    let (r, b) = get-Agrees now key a in (ap records r, Agrees-later now _ (omega arith) b)
step-Agrees now pause (write key rrs) a =
    (refl, Agrees-later now _ (omega arith) (set-Agrees now key rrs a))
step-Agrees now pause (read_negative key) a = get_negative-Agrees now pause key a
step-Agrees now pause (write_nxdomain key ttl) a =
    (refl, Agrees-later now _ (omega arith) (set_nxdomain-Agrees now key ttl a))
step-Agrees now pause (write_nodata key ttl) a =
    (refl, Agrees-later now _ (omega arith) (set_nodata-Agrees now key ttl a))

new-Agrees : {now : ℕ} → Agrees now new_cache nothing
unfolding new_cache lookup
new-Agrees = record { entries = λ t l k. refl; nxdomain = λ t l k. refl; nodata = λ t l k. refl }

replies-Agrees :
    (now : ℕ) (ops : List (ℕ × ℕ × Op)) {c : Cache} {s : Ideal}
    → Agrees now c s
    → replies now ops c ≡ ideal_replies now ops s
unfolding replies ideal_replies
replies-Agrees now [] a = refl
replies-Agrees now ((wait, pause, op) ∷ ops) a =
    let a' = Agrees-later now (now + wait) (omega arith) a in
    let (r, b) = step-Agrees (now + wait) pause op a' in
    rw (r, replies-Agrees (now + wait + pause) ops b) refl

-- Whatever the calls and however the clock advances between and within them, a new cache gives the
-- replies of a store that remembers the latest write of each key for ever and compares its expiry
-- with the clock: the deletions that reads make are never seen, and NXDOMAIN is answered before
-- NODATA and for every type.
pub replies-new_cache :
    (now : ℕ) (ops : List (ℕ × ℕ × Op)) → replies now ops new_cache ≡ ideal_replies now ops nothing
replies-new_cache now ops = replies-Agrees now ops new-Agrees
