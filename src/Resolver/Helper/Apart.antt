-- ===== src/Resolver/Helper/Apart.antt =====
-- What `requestHelper.Lookup` of resolver/helper.go caches beside the answer of a response, under keys
-- other than a given one: a relation that such writes keep, the delegation and the glue keep.
use cursedns.Prelude.{ℕ, String, false, ◌≡◌, List, [], ◌∷◌, All, All-In, All-at, In, not, is_empty}
use cursedns.Dns.{Rr, type_ns}
use cursedns.Dns.Names.{Names}
use cursedns.Resolver.Cache.{CacheKey, CacheKey_beq}
use cursedns.Resolver.Cache.Spec.{write}
use cursedns.Resolver.Bailiwick.{Filtered, Groups, NameType, group_by_name_type}
use cursedns.Resolver.Request.{Env, State, pure, key_of}
use cursedns.Resolver.Helper.{call_cache, cache_groups, cache_ns, cache_glue}
use cursedns.Resolver.Helper.Keeps.{ranged, IsPatient, Keeps, Keeps-pure, Keeps-then, Keeps-when}
use cursedns.Resolver.Helper.Poisoning.{Elsewhere}

-- `range` visits groups of the map only
abbrev pub Visits : Env → Type 0
Visits env =
    (groups : Groups) (w : env.World) (g : NameType × List Rr)
    → In g (env.range groups w).0
    → In g groups

module _ (env : Env) (visits : Visits env) (k : CacheKey)
    {R : State env.World → State env.World → Type 0} (pre : IsPatient env R)
    (writes : (key : CacheKey) (rrs : List Rr)
      → CacheKey_beq key k ≡ false
      → Keeps R (call_cache env (write key rrs))) where
  cache_groups-Elsewhere :
      (groups : Groups) → All (Elsewhere k) groups → Keeps R (cache_groups env groups)
  unfolding cache_groups
  cache_groups-Elsewhere [] h = Keeps-pure pre tt
  cache_groups-Elsewhere ((key, rrs) ∷ groups) h =
      Keeps-then pre (call_cache env (write (key_of key.name key.qtype) rrs))
        (cache_groups env groups) (writes _ rrs h.0) (cache_groups-Elsewhere groups h.1)

  module _ (d : Names) (name : String) (qtype : ℕ) (zone : String) (f : Filtered) where
    pub cache_ns-Elsewhere :
        CacheKey_beq (key_of f.delegated_zone type_ns) k ≡ false
        → Keeps R (cache_ns env d name qtype zone f)
    unfolding cache_ns
    cache_ns-Elsewhere apart = Keeps-when pre (not (is_empty f.ns)) _ (λ _.
        Keeps-then pre (call_cache env (write (key_of f.delegated_zone type_ns) f.ns)) (pure tt)
          (writes _ f.ns apart) (Keeps-pure pre tt))

    pub cache_glue-Elsewhere :
        All (Elsewhere k) (group_by_name_type f.extra)
        → Keeps R (cache_glue env d name qtype zone f)
    unfolding cache_glue
    cache_glue-Elsewhere apart = record {
      at = λ s.
          let (groups, w) = env.range (group_by_name_type f.extra) s.world in
          pre.trn (pre.waits s w s.lines (ranged (group_by_name_type f.extra) s.world)) (
            (cache_groups-Elsewhere groups (
                All-In (Elsewhere k) groups (λ g i.
                  All-at (Elsewhere k) (group_by_name_type f.extra) apart
                    (visits (group_by_name_type f.extra) s.world g i)))).at
              (record s { world = w }));
    }
