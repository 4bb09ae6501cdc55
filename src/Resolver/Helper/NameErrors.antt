-- ===== src/Resolver/Helper/NameErrors.antt =====
-- What calls on the cache of resolver/cache.go do to a stored name error.
use cursedns.Prelude.{
  ℕ, ◌≤◌, String, true, false, ◌≡◌, refl, ◌∙◌, ap, none, some, [], ◌∷◌, ltb, ◌==◌, string_eq,
  nat_eq, arith, Bool, Bool-cases, inl, inr, ◌⊎◌, false,
}
use cursedns.Prelude.Map.{lookup, lookup-insert, lookup-delete}
use cursedns.Dns.{class_inet, rcode_name_error}
use cursedns.Resolver.Cache.{
  Cache, CacheKey, CacheKey-Eq, CacheKey_beq, NegNameKey, NegNameKey-Eq, NegNameKey_beq,
  NegNameKey_beq_iff, NegEntry, get, set, check_nxdomain, check_nodata, get_negative, set_nxdomain,
  set_nodata, name_key,
}
use cursedns.Resolver.Cache.Spec.{
  Op, read, write, read_negative, write_nxdomain, write_nodata, records, negative, step,
}
use cursedns.Resolver.Helper.Keeps.{IsPreorder}

get-absent :
    (t : ℕ) (key : CacheKey) (c : Cache) → lookup key c.entries ≡ none → get t key c ≡ (none, c)
unfolding get
get-absent t key c absent = rw (absent, get) refl

pub step-read_absent :
    (t t' : ℕ) (key : CacheKey) (c : Cache)
    → lookup key c.entries ≡ none
    → step t t' (read key) c ≡ (records none, c)
unfolding step
step-read_absent t t' key c absent = ap (λ p. (records p.0, p.1)) (get-absent t key c absent)

check_nxdomain-held :
    (t : ℕ) (key : NegNameKey) (c : Cache) (e : NegEntry)
    → lookup key c.nxdomain ≡ some e
    → t ≤ e.expires
    → check_nxdomain t key c ≡ (true, c)
unfolding check_nxdomain
check_nxdomain-held t key c e held fresh =
    let live : ltb e.expires t ≡ false = ground arith in rw (held, live, check_nxdomain) refl

pub step-read_negative_held :
    (t t' : ℕ) (key : CacheKey) (c : Cache) (e : NegEntry)
    → lookup (name_key key) c.nxdomain ≡ some e
    → t ≤ e.expires
    → (step t t' (read_negative key) c).0 ≡ negative (some rcode_name_error)
unfolding step get_negative
step-read_negative_held t t' key c e held fresh =
    rw (check_nxdomain-held t (name_key key) c e held fresh, get_negative) refl

-- the name error is still held
abbrev pub Holds : NegNameKey → NegEntry → Cache → Cache → Type 0
Holds n e c c' = lookup n c.nxdomain ≡ some e → lookup n c'.nxdomain ≡ some e

pub Holds-IsPreorder : (n : NegNameKey) (e : NegEntry) → IsPreorder (Holds n e)
Holds-IsPreorder n e = record { rfl = λ c h. h; trn = λ p q h. q (p h) }

-- a call, with its times, that stores no name error of the name, and asks for it only until then
abbrev pub LeavesName : NegNameKey → ℕ → ℕ × ℕ × Op → Type 0
LeavesName n until (t, t', read_negative key) = ((name_key key == n) ≡ false) ⊎ (t ≤ until)
LeavesName n until (t, t', write_nxdomain key ttl) = (key == n) ≡ false
LeavesName n until _ = Unit

-- a call that does neither, and writes no records under the key
abbrev pub SparesName : NegNameKey → CacheKey → Op → Type 0
SparesName n k (write key rrs) = CacheKey_beq key k ≡ false
SparesName n k (read_negative key) = (name_key key == n) ≡ false
SparesName n k (write_nxdomain key ttl) = (key == n) ≡ false
SparesName n k _ = Unit

check_nxdomain-other :
    (n : NegNameKey) (e : NegEntry) (t : ℕ) (key : NegNameKey) (c : Cache)
    → (key == n) ≡ false
    → Holds n e c (check_nxdomain t key c).1
unfolding check_nxdomain
check_nxdomain-other n e t key c other h = ground (arith, other, h, lookup-delete key n c.nxdomain)

check_nxdomain-Holds :
    (n : NegNameKey) (e : NegEntry) (t : ℕ) (key : NegNameKey) (c : Cache)
    → ((key == n) ≡ false) ⊎ (t ≤ e.expires)
    → Holds n e c (check_nxdomain t key c).1
check_nxdomain-Holds n e t key c (inl other) h = check_nxdomain-other n e t key c other h
check_nxdomain-Holds n e t key c (inr fresh) h = elim (Bool-cases (NegNameKey_beq key n)) [
  | inr other ↦ check_nxdomain-other n e t key c other h
  | inl same ↦
      let held : lookup key c.nxdomain ≡ some e =
        ap (λ j. lookup j c.nxdomain) ((NegNameKey_beq_iff key n).0 same) ∙ h in
      ap (λ (r : Bool × Cache). lookup n r.1.nxdomain) (check_nxdomain-held t key c e held fresh)
      ∙ h
]

pub step-Holds :
    (n : NegNameKey) (e : NegEntry) (t t' : ℕ) (op : Op) (c : Cache)
    → LeavesName n e.expires (t, t', op)
    → Holds n e c (step t t' op c).1
unfolding step get set get_negative check_nodata set_nxdomain set_nodata
step-Holds n e t t' (read key) c q h = ground (arith, h)
step-Holds n e t t' (write key []) c q h = h
step-Holds n e t t' (write key (rr ∷ rest)) c q h = h
step-Holds n e t t' (read_negative key) c q h =
    let kept = check_nxdomain-Holds n e t (name_key key) c q h in ground (arith, kept)
step-Holds n e t t' (write_nxdomain key ttl) c q h = rw lookup-insert (rw q h)
step-Holds n e t t' (write_nodata key ttl) c q h = h

-- no records come under the key
abbrev pub Lacks : CacheKey → Cache → Cache → Type 0
Lacks k c c' = lookup k c.entries ≡ none → lookup k c'.entries ≡ none

pub Lacks-IsPreorder : (k : CacheKey) → IsPreorder (Lacks k)
Lacks-IsPreorder k = record { rfl = λ c h. h; trn = λ p q h. q (p h) }

pub step-Lacks :
    (n : NegNameKey) (k : CacheKey) (t t' : ℕ) (op : Op) (c : Cache)
    → SparesName n k op
    → Lacks k c (step t t' op c).1
unfolding step get set get_negative check_nxdomain check_nodata set_nxdomain set_nodata
step-Lacks n k t t' (read key) c q h = ground (arith, h, lookup-delete key k c.entries)
step-Lacks n k t t' (write key []) c q h = h
step-Lacks n k t t' (write key (rr ∷ rest)) c q h = rw lookup-insert (rw q h)
step-Lacks n k t t' (read_negative key) c q h = ground (arith, h)
step-Lacks n k t t' (write_nxdomain key ttl) c q h = h
step-Lacks n k t t' (write_nodata key ttl) c q h = h

pub spares-leaves :
    (n : NegNameKey) (k : CacheKey) (until t t' : ℕ) (op : Op)
    → SparesName n k op
    → LeavesName n until (t, t', op)
spares-leaves n k until t t' (read key) q = tt
spares-leaves n k until t t' (write key rrs) q = tt
spares-leaves n k until t t' (read_negative key) q = inl q
spares-leaves n k until t t' (write_nxdomain key ttl) q = q
spares-leaves n k until t t' (write_nodata key ttl) q = tt

abbrev pub error_key : String → NegNameKey
error_key name = record { name = name; qclass = class_inet }
