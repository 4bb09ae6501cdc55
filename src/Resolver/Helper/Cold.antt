-- ===== src/Resolver/Helper/Cold.antt =====
-- When `requestHelper.Lookup` of resolver/helper.go finds nothing in the caches, and what it takes for
-- a name to stay absent from them.
use cursedns.Prelude.{ℕ, false, ◌≡◌, refl, ap, none, [], ◌∷◌, All, arith, ◌==◌, nat_eq, string_eq}
use cursedns.Prelude.Map.{lookup, lookup-insert, lookup-delete}
use cursedns.Resolver.Cache.{
  Cache, CacheKey, CacheKey-Eq, CacheKey_beq, NegNameKey, NegNameKey-Eq, get, set, check_nxdomain,
  check_nodata, get_negative, set_nxdomain, set_nodata, name_key,
}
use cursedns.Resolver.Cache.Spec.{
  Op, read, write, read_negative, write_nxdomain, write_nodata, records, negative, step,
}
use cursedns.Resolver.Request.{Env, State, apply_all}
use cursedns.Resolver.Helper.{call_cache}
use cursedns.Resolver.Helper.Keeps.{OnCache, IsPreorder, Keeps, Keeps-call_cache, apply_all-related}
use cursedns.Resolver.Helper.Apart.{Visits}
use cursedns.Resolver.Helper.NameErrors.{step-read_absent}

-- the caches have nothing for the key
abbrev pub Misses : CacheKey → Cache → Type 0
Misses k c =
    (lookup k c.entries ≡ none)
    × (lookup (name_key k) c.nxdomain ≡ none)
    × (lookup k c.nodata ≡ none)

abbrev pub Stays : CacheKey → Cache → Cache → Type 0
Stays k c c' = Misses k c → Misses k c'

pub Stays-IsPreorder : (k : CacheKey) → IsPreorder (Stays k)
Stays-IsPreorder k = record { rfl = λ c m. m; trn = λ p q m. q (p m) }

-- the call stores nothing for the key
abbrev pub Quiet : CacheKey → Op → Type 0
Quiet k (write key rrs) = CacheKey_beq key k ≡ false
Quiet k (write_nxdomain key ttl) = (key == name_key k) ≡ false
Quiet k (write_nodata key ttl) = CacheKey_beq key k ≡ false
Quiet k _ = Unit

check_nxdomain-absent :
    (t : ℕ) (key : NegNameKey) (c : Cache)
    → lookup key c.nxdomain ≡ none
    → check_nxdomain t key c ≡ (false, c)
unfolding check_nxdomain
check_nxdomain-absent t key c absent = rw (absent, check_nxdomain) refl

check_nodata-absent :
    (t : ℕ) (key : CacheKey) (c : Cache)
    → lookup key c.nodata ≡ none
    → check_nodata t key c ≡ (false, c)
unfolding check_nodata
check_nodata-absent t key c absent = rw (absent, check_nodata) refl

step-read_negative_absent :
    (t t' : ℕ) (k : CacheKey) (c : Cache)
    → Misses k c
    → step t t' (read_negative k) c ≡ (negative none, c)
unfolding step get_negative
step-read_negative_absent t t' k c (m, mx, md) =
    rw (check_nxdomain-absent t (name_key k) c mx, get_negative, check_nodata-absent t' k c md) refl

step-Stays :
    (k : CacheKey) (t t' : ℕ) (op : Op) (c : Cache) → Quiet k op → Stays k c (step t t' op c).1
unfolding step get set get_negative check_nxdomain check_nodata set_nxdomain set_nodata
step-Stays k t t' (read key) c q (m, mx, md) =
    (ground (arith, m, lookup-delete key k c.entries), ground (arith, mx), ground (arith, md))
step-Stays k t t' (write key []) c q m = m
step-Stays k t t' (write key (rr ∷ rest)) c q (m, mx, md) = (rw lookup-insert (rw q m), mx, md)
step-Stays k t t' (read_negative key) c q (m, mx, md) = (
  ground (arith, m),
  ground (arith, mx, lookup-delete (name_key key) (name_key k) c.nxdomain),
  ground (arith, md, lookup-delete key k c.nodata),
)
step-Stays k t t' (write_nxdomain key ttl) c q (m, mx, md) = (m, rw lookup-insert (rw q mx), md)
step-Stays k t t' (write_nodata key ttl) c q (m, mx, md) = (m, mx, rw lookup-insert (rw q md))

-- What is relied on outside the program: other requests store nothing for the key, and `range` visits
-- groups of the map only.
pub record IsCalm (env : Env) (k : CacheKey) : Type 0 where
  pub others_quiet : (w : env.World) → All (λ o. Quiet k o.2) (env.others w).0
  pub range_visits : Visits env

module _ (env : Env) (k : CacheKey) (calm : IsCalm env k) where
  pub call_cache-Stays : (op : Op) → Quiet k op → Keeps (OnCache (Stays k)) (call_cache env op)
  call_cache-Stays =
      Keeps-call_cache env (Stays-IsPreorder k) (Quiet k) (step-Stays k) calm.others_quiet

  -- the cache as the next call finds it
  before-Misses :
      (s : State env.World) → Misses k s.cache → Misses k (apply_all (env.others s.world).0 s.cache)
  before-Misses s =
      apply_all-related env (Stays-IsPreorder k) (λ o. Quiet k o.2) (step-Stays k)
        (env.others s.world).0 s.cache (calm.others_quiet s.world)

  pub call_cache-read :
      (s : State env.World) → Misses k s.cache → (call_cache env (read k) s).0 ≡ records none
  unfolding call_cache
  call_cache-read s m = ap (λ r. r.0) (step-read_absent _ _ k _ (before-Misses s m).0)

  pub call_cache-read_negative :
      (s : State env.World)
      → Misses k s.cache
      → (call_cache env (read_negative k) s).0 ≡ negative none
  unfolding call_cache
  call_cache-read_negative s m =
      ap (λ r. r.0) (step-read_negative_absent _ _ k _ (before-Misses s m))
