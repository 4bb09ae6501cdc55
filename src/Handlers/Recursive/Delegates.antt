-- ===== src/Handlers/Recursive/Delegates.antt =====
-- How nameservers that do the same at all times delegate a name, and that `resolveIterative` of
-- handlers/recursive.go follows them with the `Lookup` of resolver/helper.go.
use cursedns.Prelude.{
  ℕ, suc, String, true, false, ◌≡◌, ◌∙◌, ap, sym, subst, none, List, [], ◌∷◌, map, is_empty,
  equal_fold,
}
use cursedns.Dns.{Msg}
use cursedns.Dns.Names.{Names}
use cursedns.Resolver.Types.{Addr, NameServer, LookupResult, nil, Result, ok, err}
use cursedns.Resolver.Cache.{CacheKey}
use cursedns.Resolver.Cache.Spec.{read}
use cursedns.Resolver.Request.{Env, State, Helper, key_of}
use cursedns.Resolver.Helper.{call_cache, got, got_negative, lookup, request_helper, trace}
use cursedns.Resolver.Helper.Steady.{
  IsSteady, first_response, filtered, kept, found, cached_negative, lookup-found,
}
use cursedns.Resolver.Helper.Cold.{
  Misses, IsCalm, call_cache-Stays, call_cache-read, call_cache-read_negative,
}
use cursedns.Resolver.Helper.Leaves.{Leaves, LeavesIf, lookup_fqdn-Misses}
use cursedns.Handlers.Recursive.Records.{delegation_owner, unique_ns_names, glue}
use cursedns.Handlers.Recursive.Leads.{Leads, answered, referred, is_final}

module _ (d : Names) (answers : String → ℕ → Addr → Result Msg) (name : String) (qtype : ℕ) where
  -- what the nameservers of a zone answer
  abbrev pub first_of : List NameServer → Result Msg
  first_of servers =
      first_response nil (map (λ server. answers (d.fqdn name) qtype server.addr) servers)

  -- what is kept of a response
  abbrev pub result_of : String → Msg → LookupResult
  result_of zone = filtered d (d.fqdn name) qtype (d.fqdn zone)

  -- The nameservers of a zone delegate, with glue, over so many zones to those that answer.
  pub data Delegates : String → List NameServer → ℕ → LookupResult → Type 0 where
    authority :
        {zone : String} {servers : List NameServer} (resp : Msg)
        → first_of servers ≡ ok resp
        → is_final (result_of zone resp) ≡ true
        → Delegates zone servers 1 (result_of zone resp)
    delegated :
        {zone : String} {servers : List NameServer} {n : ℕ} {end : LookupResult} (resp : Msg)
        → first_of servers ≡ ok resp
        → Leaves d (d.fqdn name) qtype (d.fqdn zone) (key_of (d.fqdn name) qtype) resp
        → is_final (result_of zone resp) ≡ false
        → equal_fold (delegation_owner (result_of zone resp).ns) zone ≡ false
        → is_empty (glue (unique_ns_names (result_of zone resp).ns) (result_of zone resp).extra)
          ≡ false
        → Delegates
            (delegation_owner (result_of zone resp).ns)
            (glue (unique_ns_names (result_of zone resp).ns) (result_of zone resp).extra)
            n
            end
        → Delegates zone servers (suc n) end

-- nothing that such nameservers answer is cached under a key
abbrev pub Spares :
    {d : Names} {answers : String → ℕ → Addr → Result Msg} {name : String} {qtype : ℕ}
    {zone : String} {servers : List NameServer} {n : ℕ} {r : LookupResult}
    → CacheKey
    → Delegates d answers name qtype zone servers n r
    → Type 0
Spares {d} {name} {qtype} {zone} k (authority resp e final) =
    Leaves d (d.fqdn name) qtype (d.fqdn zone) k resp
Spares {d} {name} {qtype} {zone} k (delegated resp e own more new glued rest) =
    Leaves d (d.fqdn name) qtype (d.fqdn zone) k resp × Spares k rest

pair_of : {A S : Type 0} {r : A × S} {a : A} → r.0 ≡ a → r ≡ (a, r.1)
pair_of {r} e = ap (λ first. (first, r.1)) e

abbrev IsErr : {A : Type 0} → Result A → Type 0
IsErr (err e) = Unit
IsErr (ok a) = ⊥

found-first :
    (d : Names) (name : String) (qtype : ℕ) (zone : String) (responses : List (Result Msg))
    (resp : Msg)
    → first_response nil responses ≡ ok resp
    → found d name qtype zone none none responses ≡ ok (filtered d name qtype zone resp)
unfolding found first_response kept
found-first d name qtype zone [] resp e = absurd (subst IsErr e tt)
found-first d name qtype zone (r ∷ rs) resp e = ap (kept d name qtype zone) e

module _ (env : Env) (d : Names) (hints : List NameServer)
    (answers : String → ℕ → Addr → Result Msg)
    (steady : (name : String) (qtype : ℕ) (zone : String)
      → IsSteady env d name qtype zone (answers name qtype))
    (name : String) (qtype : ℕ) (calm : IsCalm env (key_of (d.fqdn name) qtype)) where
  lookup-first :
      (zone : String) (servers : List NameServer) (s : State env.World) (resp : Msg)
      → Misses (key_of (d.fqdn name) qtype) s.cache
      → first_of d answers name qtype servers ≡ ok resp
      → (lookup env d name qtype zone servers s).0 ≡ ok (result_of d answers name qtype zone resp)
  lookup-first zone servers s resp m e =
      let k = key_of (d.fqdn name) qtype in
      let responses = map (λ server. answers (d.fqdn name) qtype server.addr) servers in
      lookup-found env d name qtype zone (answers (d.fqdn name) qtype) servers s
        (steady (d.fqdn name) qtype (d.fqdn zone))
      ∙ ap
          (λ reply.
            found d (d.fqdn name) qtype (d.fqdn zone) (got env reply)
              (cached_negative env (d.fqdn name) qtype s) responses)
          (call_cache-read env k calm s m)
      ∙ ap
          (λ reply.
            found d (d.fqdn name) qtype (d.fqdn zone) none (got_negative env reply) responses)
          (call_cache-read_negative env k calm (call_cache env (read k) s).1
            ((call_cache-Stays env k calm (read k) tt).at s m))
      ∙ found-first d (d.fqdn name) qtype (d.fqdn zone) responses resp e

  lookup-Misses :
      (k : CacheKey) (other : IsCalm env k) (zone : String) (servers : List NameServer)
      (s : State env.World) (resp : Msg)
      → Misses (key_of (d.fqdn name) qtype) s.cache
      → first_of d answers name qtype servers ≡ ok resp
      → Leaves d (d.fqdn name) qtype (d.fqdn zone) k resp
      → Misses k s.cache
      → Misses k (lookup env d name qtype zone servers s).1.cache
  unfolding lookup
  lookup-Misses k other zone servers s resp m e r =
      lookup_fqdn-Misses env d (d.fqdn name) qtype (d.fqdn zone) k other
        (answers (d.fqdn name) qtype) (steady (d.fqdn name) qtype (d.fqdn zone)) calm servers s
        (subst (LeavesIf d (d.fqdn name) qtype (d.fqdn zone) k) (sym e) r) m

  abbrev helper : Helper (State env.World)
  helper = request_helper env d hints

  pub Delegates-Leads :
      (levels : ℕ) {zone : String} {servers : List NameServer} {n : ℕ} {end : LookupResult}
      (path : Delegates d answers name qtype zone servers n end) (s : State env.World)
      → Misses (key_of (d.fqdn name) qtype) s.cache
      → (t : State env.World) × Leads helper name qtype levels zone servers s n n end t
        × ((k : CacheKey) → IsCalm env k → Spares k path → Misses k s.cache → Misses k t.cache)
  unfolding request_helper trace
  Delegates-Leads levels {zone} {servers} (authority resp e final) s m = (
    _,
    answered _ (pair_of (lookup-first zone servers s resp m e)) final,
    λ k other spared. lookup-Misses k other zone servers s resp m e spared,
  )
  Delegates-Leads levels {zone} {servers} (delegated resp e own more new glued rest) s m =
      let k0 = key_of (d.fqdn name) qtype in
      let (t, l, keeps) =
        Delegates-Leads levels rest _ (lookup-Misses k0 calm zone servers s resp m e own m) in
      (
        t,
        referred _ (pair_of (lookup-first zone servers s resp m e)) more new glued l,
        λ k other spared mk.
            keeps k other spared.1 (lookup-Misses k other zone servers s resp m e spared.0 mk),
      )
