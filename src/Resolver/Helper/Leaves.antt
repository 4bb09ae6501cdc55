-- ===== src/Resolver/Helper/Leaves.antt =====
-- Responses of which `requestHelper.Lookup` of resolver/helper.go caches nothing under a given key.
use cursedns.Prelude.{
  ℕ, String, true, false, ◌≡◌, sym, subst, none, List, [], ◌∷◌, map, All, not, ◌&&◌, is_empty, ◌==◌,
  nat_eq, ltb, arith,
}
use cursedns.Dns.{Rr, Msg, type_ns, class_inet, rcode_success, rcode_name_error}
use cursedns.Dns.Names.{Names}
use cursedns.Resolver.Types.{Addr, NameServer, LookupResult, Error, nil, Result, ok, err, discarded}
use cursedns.Resolver.Cache.{CacheKey, CacheKey_beq, NegNameKey-Eq, name_key}
use cursedns.Resolver.Cache.Spec.{read, write, read_negative, write_nxdomain, write_nodata}
use cursedns.Resolver.Bailiwick.{filter_in_bailiwick, group_by_name_type, has_ns, negative_ttl}
use cursedns.Resolver.Request.{Env, State, ◌>>=◌, pure, key_of}
use cursedns.Resolver.Helper.{
  M, outside, call_cache, trace, got, got_negative, cache_answer, cache_ns, cache_glue,
  cache_sections, note_discarded, cache_nxdomain, cache_nodata, cache_negative, dropped, accept,
  request, unless_cancelled, on_answer, try_servers, after_get_negative, after_get, lookup_fqdn,
}
use cursedns.Resolver.Helper.Keeps.{
  IsPatient, OnCache, OnCache-IsPatient, Keeps, Keeps-pure, Keeps-then, Keeps-when, Keeps-else,
  Keeps-if, Keeps-trace,
}
use cursedns.Resolver.Helper.Poisoning.{Elsewhere}
use cursedns.Resolver.Helper.Apart.{cache_ns-Elsewhere, cache_glue-Elsewhere}
use cursedns.Resolver.Helper.Steady.{IsSteady, first_response}
use cursedns.Resolver.Helper.Cold.{
  Misses, Stays, Stays-IsPreorder, IsCalm, call_cache-Stays, call_cache-read,
  call_cache-read_negative,
}

-- Why neither the answer of a response nor its being negative is cached under a key: there is none but
-- a referral, or the query has another name.
pub data Beside (d : Names) (name : String) (qtype : ℕ) (zone : String) (k : CacheKey) (resp : Msg)
    : Type 0 where
  refers :
      (resp.rcode == rcode_success) ≡ true
      → is_empty (filter_in_bailiwick d zone name resp.answer resp.ns resp.extra).answer ≡ true
      → has_ns resp.ns ≡ true
      → Beside d name qtype zone k resp
  elsewhere :
      (record { name = name; qclass = class_inet } == name_key k) ≡ false
      → CacheKey_beq (key_of name qtype) k ≡ false
      → Beside d name qtype zone k resp

-- A response of which nothing is cached under a key.
pub record Leaves (d : Names) (name : String) (qtype : ℕ) (zone : String) (k : CacheKey)
    (resp : Msg) : Type 0 where
  pub beside : Beside d name qtype zone k resp
  pub cut_elsewhere :
      CacheKey_beq
        (key_of
          (filter_in_bailiwick d zone name resp.answer resp.ns resp.extra).delegated_zone
          type_ns)
        k
      ≡ false
  pub glue_elsewhere :
      All
        (Elsewhere k)
        (group_by_name_type (filter_in_bailiwick d zone name resp.answer resp.ns resp.extra).extra)

-- such a response, if it is one
abbrev pub LeavesIf : Names → String → ℕ → String → CacheKey → Result Msg → Type 0
LeavesIf d name qtype zone k (ok resp) = Leaves d name qtype zone k resp
LeavesIf d name qtype zone k (err e) = Unit

module _ (env : Env) (d : Names) (name : String) (qtype : ℕ) (zone : String) (k : CacheKey)
    (calm : IsCalm env k) where
  abbrev Absent : State env.World → State env.World → Type 0
  Absent = OnCache (Stays k)

  pre : IsPatient env Absent
  pre = OnCache-IsPatient env (Stays-IsPreorder k)

  cache_answer-Stays :
      (resp : Msg)
      → Beside d name qtype zone k resp
      → Keeps Absent (
          cache_answer env d name qtype zone resp
            (filter_in_bailiwick d zone name resp.answer resp.ns resp.extra))
  unfolding cache_answer
  cache_answer-Stays resp (refers good bare has) =
      let f = filter_in_bailiwick d zone name resp.answer resp.ns resp.extra in
      Keeps-when pre (resp.rcode == rcode_success && not (is_empty f.answer)) _
        (λ e. absurd (ground arith))
  cache_answer-Stays resp (elsewhere other apart) =
      let f = filter_in_bailiwick d zone name resp.answer resp.ns resp.extra in
      Keeps-when pre (resp.rcode == rcode_success && not (is_empty f.answer)) _ (λ e.
        Keeps-then pre (call_cache env (write (key_of name qtype) f.answer)) (pure tt)
          (call_cache-Stays env k calm (write (key_of name qtype) f.answer) apart)
          (Keeps-pure pre tt))

  apart_writes :
      (key : CacheKey) (rrs : List Rr)
      → CacheKey_beq key k ≡ false
      → Keeps Absent (call_cache env (write key rrs))
  apart_writes key rrs apart = call_cache-Stays env k calm (write key rrs) apart

  cache_negative-Stays :
      (resp : Msg)
      → Beside d name qtype zone k resp
      → Keeps Absent (
          cache_negative env d name qtype zone resp
            (filter_in_bailiwick d zone name resp.answer resp.ns resp.extra))
  unfolding cache_negative cache_nxdomain cache_nodata
  cache_negative-Stays resp (refers good bare has) =
      let ttl = negative_ttl d zone resp.ns in
      let f = filter_in_bailiwick d zone name resp.answer resp.ns resp.extra in
      Keeps-else pre (resp.rcode == rcode_name_error) (cache_nxdomain env d name qtype zone ttl) _
        (ground arith)
        (Keeps-else pre (resp.rcode == rcode_success && (is_empty f.answer && not (has_ns resp.ns)))
          (cache_nodata env d name qtype zone ttl) (pure tt) (ground arith) (Keeps-pure pre tt))
  cache_negative-Stays resp (elsewhere other apart) =
      let ttl = negative_ttl d zone resp.ns in
      let f = filter_in_bailiwick d zone name resp.answer resp.ns resp.extra in
      Keeps-if pre (resp.rcode == rcode_name_error) (cache_nxdomain env d name qtype zone ttl) _
        (Keeps-then pre (call_cache env (write_nxdomain _ ttl)) _
          (call_cache-Stays env k calm (write_nxdomain _ ttl) other) (Keeps-trace env pre _))
        (Keeps-if pre (resp.rcode == rcode_success && (is_empty f.answer && not (has_ns resp.ns)))
          (cache_nodata env d name qtype zone ttl) (pure tt)
          (Keeps-then pre (call_cache env (write_nodata _ ttl)) _
            (call_cache-Stays env k calm (write_nodata _ ttl) apart) (Keeps-trace env pre _))
          (Keeps-pure pre tt))

  accept-Stays :
      (server : NameServer) (resp : Msg)
      → Leaves d name qtype zone k resp
      → Keeps Absent (accept env d name qtype zone server resp)
  unfolding accept cache_sections note_discarded
  accept-Stays server resp r =
      let f = filter_in_bailiwick d zone name resp.answer resp.ns resp.extra in
      let n = dropped env d name qtype zone resp f in
      Keeps-then pre (trace env _) _ (Keeps-trace env pre _) (
        Keeps-then pre (note_discarded env d name qtype zone server resp f) _
          (Keeps-when pre (ltb 0 n) (trace env (discarded n server)) (λ _. Keeps-trace env pre _))
          (Keeps-then pre (cache_sections env d name qtype zone resp f) _
            (Keeps-then pre (cache_answer env d name qtype zone resp f) _
              (cache_answer-Stays resp r.beside)
              (Keeps-then pre (cache_ns env d name qtype zone f)
                (cache_glue env d name qtype zone f)
                (cache_ns-Elsewhere env calm.range_visits k pre apart_writes d name qtype zone f
                  r.cut_elsewhere)
                (cache_glue-Elsewhere env calm.range_visits k pre apart_writes d name qtype zone f
                  r.glue_elsewhere)))
            (Keeps-then pre (cache_negative env d name qtype zone resp f) _
              (cache_negative-Stays resp r.beside) (Keeps-pure pre _))))

  module _ (answers : Addr → Result Msg) (h : IsSteady env d name qtype zone answers) where
    on_answer-Misses :
        (server : NameServer) (again : Error → M env (Result LookupResult))
        (rest : List (Result Msg)) (answered : Result Msg) (last_err : Error) (s : State env.World)
        → ((e : Error) (s' : State env.World)
            → LeavesIf d name qtype zone k (first_response e rest)
            → Misses k s'.cache
            → Misses k (again e s').1.cache)
        → LeavesIf d name qtype zone k (first_response last_err (answered ∷ rest))
        → Misses k s.cache
        → Misses k (on_answer env d name qtype zone server again answered s).1.cache
    unfolding on_answer first_response trace
    on_answer-Misses server again rest (err e) last_err s goes r m = goes e _ r m
    on_answer-Misses server again rest (ok resp) last_err s goes r m =
        (accept-Stays server resp r).at s m

    try_servers-Misses :
        (last_err : Error) (servers : List NameServer) (s : State env.World)
        → LeavesIf d name qtype zone k
            (first_response last_err (map (λ server. answers server.addr) servers))
        → Misses k s.cache
        → Misses k (try_servers env d name qtype zone last_err servers s).1.cache
    unfolding try_servers unless_cancelled
    try_servers-Misses last_err [] s r m = m
    try_servers-Misses last_err (server ∷ servers) s r m =
        let again = λ (e : Error). try_servers env d name qtype zone e servers in
        let rest = map (λ server. answers server.addr) servers in
        let req = request env d name qtype zone in
        let ask =
          outside env (env.exchange req server.addr 53)
          >>= on_answer env d name qtype zone server again in
        let s' : State env.World = record s { world = (env.ctx_err s.world).1 } in
        let (answered, w) = env.exchange req server.addr 53 s'.world in
        subst (λ c. Misses k (unless_cancelled env d name qtype zone c ask s').1.cache)
          (sym (h.patient s.world))
          (on_answer-Misses server again rest answered last_err (record s' { world = w })
            (λ e. try_servers-Misses e servers)
            (subst (λ a. LeavesIf d name qtype zone k (first_response last_err (a ∷ rest)))
              (sym (h.steady server.addr s'.world)) r)
            m)

    after_get_negative-Misses :
        (servers : List NameServer) (s : State env.World)
        → LeavesIf d name qtype zone k
            (first_response nil (map (λ server. answers server.addr) servers))
        → Misses k s.cache
        → Misses k (after_get_negative env d name qtype zone servers none s).1.cache
    unfolding after_get_negative trace
    after_get_negative-Misses [] s r m = m
    after_get_negative-Misses (server ∷ servers) s r m =
        try_servers-Misses nil (server ∷ servers) _ r m

    pub lookup_fqdn-Misses :
        (own : IsCalm env (key_of name qtype)) (servers : List NameServer) (s : State env.World)
        → LeavesIf d name qtype zone k
            (first_response nil (map (λ server. answers server.addr) servers))
        → Misses (key_of name qtype) s.cache
        → Misses k s.cache
        → Misses k (lookup_fqdn env d name qtype zone servers s).1.cache
    unfolding lookup_fqdn after_get
    lookup_fqdn-Misses own servers s r m mk =
        let j = key_of name qtype in
        let s1 = (call_cache env (read j) s).1 in
        let m1 = (call_cache-Stays env j own (read j) tt).at s m in
        let s2 = (call_cache env (read_negative j) s1).1 in
        let mk2 =
          (call_cache-Stays env k calm (read_negative j) tt).at s1
            ((call_cache-Stays env k calm (read j) tt).at s mk) in
        subst
          (λ reply. Misses k (after_get env d name qtype zone servers (got env reply) s1).1.cache)
          (sym (call_cache-read env j own s m))
          (subst
            (λ reply.
              Misses k
                (after_get_negative env d name qtype zone servers (got_negative env reply)
                  s2).1.cache)
            (sym (call_cache-read_negative env j own s1 m1))
            (after_get_negative-Misses servers s2 r mk2))
