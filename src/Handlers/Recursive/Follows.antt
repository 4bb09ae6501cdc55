-- ===== src/Handlers/Recursive/Follows.antt =====
-- `RecursiveHandler.Handle` of handlers/recursive.go with the `Lookup` of resolver/helper.go, over
-- nameservers that do the same at all times and aliases from one zone into another.
use cursedns.Prelude.{
  ℕ, suc, ◌+◌, ◌≤◌, String, true, false, ◌≡◌, ap, List, [], ◌∷◌, ◌++◌, All, Bool-cases, inl, inr,
  if◌then◌else◌,
}
use cursedns.Dns.{Rr, Msg, rcode_success}
use cursedns.Dns.Names.{Names}
use cursedns.Resolver.Types.{Addr, Query, Response, NameServer, LookupResult, Result, ok}
use cursedns.Resolver.Cache.{Cache, CacheKey}
use cursedns.Resolver.Request.{Env, State, key_of}
use cursedns.Resolver.Helper.{request_helper, trace}
use cursedns.Resolver.Helper.Steady.{IsSteady}
use cursedns.Resolver.Helper.Cold.{Misses, IsCalm}
use cursedns.Handlers.Recursive.Records.{unresolved_cname_target}
use cursedns.Handlers.Recursive.{
  root_zone, max_hops, max_glue_depth, max_cname_restarts, max_total_lookups, handle,
}
use cursedns.Handlers.Recursive.Answers.{
  Resolves, negative, complete, aliased, is_negative, handle-Resolves,
}
use cursedns.Handlers.Recursive.Delegates.{Delegates, Spares, Delegates-Leads}

-- what `Handle` makes of a result, with the records of the aliases before
abbrev pub response_with : List Rr → LookupResult → Response
response_with answer r =
    if is_negative r
    then record { rcode = r.rcode; answer = answer ++ r.answer; ns = r.ns; extra = [] }
    else record { rcode = rcode_success; answer = answer ++ r.answer; ns = []; extra = [] }

module _ (d : Names) (hints : List NameServer) (answers : String → ℕ → Addr → Result Msg)
    (qtype : ℕ) where
  -- With some records of an answer, a name and those that aliases lead to from there end in a response,
  -- by so many passes from the root and so many lookups in all.
  pub data Follows : String → List String → List Rr → ℕ → ℕ → Response → Type 0 where
    ends :
        {name : String} {answer : List Rr} {n : ℕ} {r : LookupResult}
        → Delegates d answers name qtype root_zone hints n r
        → n ≤ max_hops
        → (unresolved_cname_target r.answer name qtype).1 ≡ false
        → Follows name [] answer 1 n (response_with answer r)
    passes :
        {name target : String} {later : List String} {answer : List Rr} {n p c : ℕ}
        {r : LookupResult} {resp : Response}
        (path : Delegates d answers name qtype root_zone hints n r)
        → n ≤ max_hops
        → is_negative r ≡ false
        → unresolved_cname_target r.answer name qtype ≡ (target, true)
        → All (λ other. Spares (key_of (d.fqdn other) qtype) path) (target ∷ later)
        → Follows target later (answer ++ r.answer) p c resp
        → Follows name (target ∷ later) answer (suc p) (n + c) resp

module _ (env : Env) (d : Names) (hints : List NameServer)
    (answers : String → ℕ → Addr → Result Msg)
    (steady : (name : String) (qtype : ℕ) (zone : String)
      → IsSteady env d name qtype zone (answers name qtype))
    (query : Query) where
  -- other requests store nothing for the name, and the caches have nothing on it
  abbrev pub Calm : String → Type 0
  Calm name = IsCalm env (key_of (d.fqdn name) query.qtype)

  abbrev pub Absent : Cache → String → Type 0
  Absent c name = Misses (key_of (d.fqdn name) query.qtype) c

  Absent-after :
      {name : String} {n : ℕ} {r : LookupResult}
      (path : Delegates d answers name query.qtype root_zone hints n r) (c c' : Cache)
      → (keeps : (k : CacheKey) → IsCalm env k → Spares k path → Misses k c → Misses k c')
      → (names : List String) → All Calm names
      → All (λ other. Spares (key_of (d.fqdn other) query.qtype) path) names
      → All (Absent c) names
      → All (Absent c') names
  Absent-after path c c' keeps [] calm spared m = tt
  Absent-after path c c' keeps (other ∷ names) calm spared m =
      (keeps _ calm.0 spared.0 m.0, Absent-after path c c' keeps names calm.1 spared.1 m.1)

  Follows-Resolves :
      {name : String} {later : List String} {answer : List Rr} {p c : ℕ} {resp : Response}
      → Follows d hints answers query.qtype name later answer p c resp
      → (s : State env.World) → All Calm (name ∷ later)
      → All (Absent s.cache) (name ∷ later)
      → (t : State env.World) × Resolves (request_helper env d hints) query name answer s p c resp t
  unfolding request_helper trace
  Follows-Resolves (ends {name} {r} path few done) s calm m =
      let (t, l, keeps) =
        Delegates-Leads env d hints answers steady name query.qtype calm.0 max_glue_depth path s
          m.0 in
      elim (Bool-cases (is_negative r)) [
        | inl e ↦ (t, rw e (negative r l few e))
        | inr e ↦ (t, rw e (complete r l few e done))
      ]
  Follows-Resolves (passes {name} {target} {later} {r} path few some_found to spared rest) s calm
        m =
      let (t, l, keeps) =
        Delegates-Leads env d hints answers steady name query.qtype calm.0 max_glue_depth path s
          m.0 in
      let (t', found) =
        Follows-Resolves rest _ calm.1
          (Absent-after path s.cache t.cache keeps (target ∷ later) calm.1 spared m.1) in
      (t', aliased r l few some_found to found)

  -- If each nameserver does the same whenever it is asked, and for the name of the query, and each that
  -- aliases lead to from there, the first nameserver of a zone that responds delegates with glue, from
  -- the root hints down, until one answers, then `Handle`, with the `Lookup` of `requestHelper`, returns
  -- the records of these answers, or the code of a negative one at the end. Given that no more than 8
  -- names, 20 zones for each and 100 lookups are needed, that the caches have nothing on the names and
  -- other requests store nothing for them, that the request is never cancelled, and that no response
  -- before the answer to a name carries what would be cached for it, as glue for just what is asked
  -- does.
  pub handle-Follows :
      (s : State env.World) (later : List String) {p c : ℕ} {resp : Response}
      → All Calm (query.name ∷ later)
      → All (Absent s.cache) (query.name ∷ later)
      → Follows d hints answers query.qtype query.name later [] p c resp
      → p ≤ max_cname_restarts
      → c ≤ max_total_lookups
      → (handle (request_helper env d hints) query s).0 ≡ ok resp
  handle-Follows s later calm m follows few afforded =
      let (t, found) = Follows-Resolves follows s calm m in
      ap (λ r. r.0) (handle-Resolves (request_helper env d hints) query found few afforded)
