-- ===== src/Resolver/Helper/Entries.antt =====
-- What calls on the cache of resolver/cache.go do to a stored answer.
use cursedns.Prelude.{
  ℕ, ◌+◌, ◌*◌, ◌≤◌, false, ◌≡◌, refl, ◌∙◌, ap, some, List, [], ◌∷◌, Bool-cases, inl, inr, ◌⊎◌,
  Option, ltb, nat_eq, string_eq, arith,
}
use cursedns.Prelude.Map.{lookup, lookup-insert, lookup-delete}
use cursedns.Dns.{Rr}
use cursedns.Resolver.Cache.{
  Cache, CacheKey, CacheKey-Eq, CacheKey_beq, CacheKey_beq_iff, CacheEntry, get, set, min_ttl,
  second, check_nxdomain, check_nodata, get_negative, set_nxdomain, set_nodata,
}
use cursedns.Resolver.Cache.Spec.{
  Op, read, write, read_negative, write_nxdomain, write_nodata, step,
}
use cursedns.Resolver.Helper.Keeps.{IsPreorder}

-- the entry is still held
abbrev pub Holds : CacheKey → CacheEntry → Cache → Cache → Type 0
Holds k e c c' = lookup k c.entries ≡ some e → lookup k c'.entries ≡ some e

pub Holds-IsPreorder : (k : CacheKey) (e : CacheEntry) → IsPreorder (Holds k e)
Holds-IsPreorder k e = record { rfl = λ c h. h; trn = λ p q h. q (p h) }

-- the call neither reads nor writes the records under the key
abbrev pub Spares : CacheKey → Op → Type 0
Spares k (read key) = CacheKey_beq key k ≡ false
Spares k (write key rrs) = CacheKey_beq key k ≡ false
Spares k _ = Unit

-- a call, with its times, that writes no records under the key, and reads them only until then
abbrev pub Leaves : CacheKey → ℕ → ℕ × ℕ × Op → Type 0
Leaves k until (t, t', read key) = (CacheKey_beq key k ≡ false) ⊎ (t ≤ until)
Leaves k until (t, t', write key rrs) = CacheKey_beq key k ≡ false
Leaves k until _ = Unit

pub step-Holds :
    (k : CacheKey) (e : CacheEntry) (t t' : ℕ) (op : Op) (c : Cache)
    → Spares k op
    → Holds k e c (step t t' op c).1
unfolding step get set get_negative check_nxdomain check_nodata set_nxdomain set_nodata
step-Holds k e t t' (read key) c q h = ground (arith, q, h, lookup-delete key k c.entries)
step-Holds k e t t' (write key []) c q h = h
step-Holds k e t t' (write key (rr ∷ rest)) c q h = rw lookup-insert (rw q h)
step-Holds k e t t' (read_negative key) c q h = ground (arith, h)
step-Holds k e t t' (write_nxdomain key ttl) c q h = h
step-Holds k e t t' (write_nodata key ttl) c q h = h

pub get-held :
    (t : ℕ) (k : CacheKey) (c : Cache) (e : CacheEntry)
    → lookup k c.entries ≡ some e
    → t ≤ e.expires
    → get t k c ≡ (some e.rrs, c)
unfolding get
get-held t k c e held fresh =
    let live : ltb e.expires t ≡ false = ground arith in rw (held, live, get) refl

-- a call in between keeps an entry that is fresh so long
pub step-later :
    (k : CacheKey) (e : CacheEntry) (t t' : ℕ) (op : Op) (c : Cache)
    → Leaves k e.expires (t, t', op)
    → Holds k e c (step t t' op c).1
unfolding step set_nxdomain set_nodata
step-later k e t t' (read key) c (inl other) h = step-Holds k e t t' (read key) c other h
step-later k e t t' (read key) c (inr fresh) h = elim (Bool-cases (CacheKey_beq key k)) [
  | inr other ↦ step-Holds k e t t' (read key) c other h
  | inl same ↦
      let held : lookup key c.entries ≡ some e =
        ap (λ j. lookup j c.entries) ((CacheKey_beq_iff key k).0 same) ∙ h in
      ap (λ (r : Option (List Rr) × Cache). lookup k r.1.entries) (get-held t key c e held fresh)
      ∙ h
]
step-later k e t t' (write key rrs) c q h = step-Holds k e t t' (write key rrs) c q h
step-later k e t t' (read_negative key) c q h = step-Holds k e t t' (read_negative key) c tt h
step-later k e t t' (write_nxdomain key ttl) c q h = h
step-later k e t t' (write_nodata key ttl) c q h = h

-- what `Set` stores
abbrev pub entry_of : ℕ → Rr → List Rr → CacheEntry
entry_of now rr rest = record { rrs = rr ∷ rest; expires = now + min_ttl rr.ttl rest * second }
