-- ===== src/Resolver/Helper/Protected.antt =====
-- A lookup for a zone leaves the cached records of names outside that zone alone.

use cursedns.Prelude.{
  ℕ, String, true, false, ◌≡◌, refl, ◌∙◌, ap, inl, inr, Option, none, some, List, [], ◌∷◌, not,
  ◌&&◌, is_empty, ◌==◌, nat_eq, string_eq, Bool-cases, All, All-map, length, ltb,
}
use cursedns.Dns.{Rr, Msg, type_ns, rcode_success, rcode_name_error}
use cursedns.Dns.Names.{Names, IsNames}
use cursedns.Resolver.Types.{
  cache_miss, query_failed, discarded, NameServer, Error, nil, Result, ok, err, LookupResult,
}
use cursedns.Resolver.Cache.{CacheKey, CacheKey_beq, CacheKey_beq_iff}
use cursedns.Resolver.Cache.Spec.{read, write, read_negative, write_nxdomain, write_nodata}
use cursedns.Resolver.Bailiwick.{
  Filtered, group_by_name_type, filter_in_bailiwick, has_ns, negative_ttl,
}
use cursedns.Resolver.Bailiwick.Sections.{
  Named, Within, IsCut, filter_in_bailiwick-Within, IsCut, filter_in_bailiwick-IsCut,
}
use cursedns.Resolver.Request.{Env, State, ◌>>◌, pure, key_of}
use cursedns.Resolver.Helper.{
  outside, call_cache, trace, cache_sections, cache_answer, cache_ns, cache_glue, note_discarded,
  cache_nxdomain, cache_nodata, cache_negative, accept, request, M, unless_cancelled, on_answer,
  after_get, after_get_negative, dropped, try_servers, lookup_fqdn, got, got_negative,
}
use cursedns.Resolver.Helper.Keeps.{
  checked, exchanged, IsPatient, Keeps, Keeps-pure, Keeps-bind, Keeps-then, Keeps-when, Keeps-if,
  Keeps-outside, Keeps-trace, Keeps-outside_bind,
}
use cursedns.Resolver.Helper.Apart.{cache_ns-Elsewhere, cache_glue-Elsewhere}
use cursedns.Resolver.Helper.Poisoning.{
  Untouched, Untouched-IsPatient, IsPeaceful, Elsewhere, group-All, call_cache-Untouched,
}

module _ (d : Names) (laws : IsNames d) (env : Env) (k : CacheKey) (calm : IsPeaceful env k)
    (name : String) (qtype : ℕ) (zone : String) (inside : d.is_sub_domain zone name ≡ true)
    (out : d.is_sub_domain zone k.name ≡ false) (named : (k.name == "") ≡ false) where
  elsewhere_within :
      (n : String) (t : ℕ) → d.is_sub_domain zone n ≡ true → CacheKey_beq (key_of n t) k ≡ false
  elsewhere_within n t h = elim (Bool-cases (CacheKey_beq (key_of n t) k)) [
    | inr other ↦ other
    | inl same ↦
        cc (out, h, ap (λ (j : CacheKey). j.name) ((CacheKey_beq_iff (key_of n t) k).0 same))
  ]

  elsewhere_empty : (n : String) (t : ℕ) → (n == "") ≡ true → CacheKey_beq (key_of n t) k ≡ false
  elsewhere_empty n t h = elim (Bool-cases (CacheKey_beq (key_of n t) k)) [
    | inr other ↦ other
    | inl same ↦
        cc (named, h, ap (λ (j : CacheKey). j.name) ((CacheKey_beq_iff (key_of n t) k).0 same))
  ]

  glue-Elsewhere :
      (extra : List Rr) → All (Within d zone) extra → All (Elsewhere k) (group_by_name_type extra)
  unfolding group_by_name_type
  glue-Elsewhere extra h =
      group-All (λ key. CacheKey_beq (key_of key.name key.qtype) k ≡ false) extra []
        (All-map (Within d zone) _ extra (λ rr w. elsewhere_within rr.name rr.rrtype w) h) tt

  pre : IsPatient env (Untouched env k)
  pre = Untouched-IsPatient env k

  cache_answer-Untouched :
      (resp : Msg) (f : Filtered)
      → Keeps (Untouched env k) (cache_answer env d name qtype zone resp f)
  unfolding cache_answer
  cache_answer-Untouched resp f = Keeps-when pre _ _ (λ _.
      Keeps-then pre (call_cache env (write (key_of name qtype) f.answer)) (pure tt)
        (call_cache-Untouched env k calm _ (elsewhere_within name qtype inside))
        (Keeps-pure pre tt))

  writes_elsewhere :
      (key : CacheKey) (rrs : List Rr)
      → CacheKey_beq key k ≡ false
      → Keeps (Untouched env k) (call_cache env (write key rrs))
  writes_elsewhere key rrs = call_cache-Untouched env k calm (write key rrs)

  cut_elsewhere :
      (f : Filtered)
      → IsCut d zone name f.delegated_zone
      → CacheKey_beq (key_of f.delegated_zone type_ns) k ≡ false
  cut_elsewhere f cut = elim (Bool-cases (f.delegated_zone == "")) [
    | inl unset ↦ elsewhere_empty f.delegated_zone type_ns unset
    | inr set ↦ elsewhere_within f.delegated_zone type_ns (cut set).0
  ]

  cache_sections-Untouched :
      (resp : Msg) (f : Filtered)
      → IsCut d zone name f.delegated_zone
      → All (Within d zone) f.extra
      → Keeps (Untouched env k) (cache_sections env d name qtype zone resp f)
  unfolding cache_sections
  cache_sections-Untouched resp f cut h =
      Keeps-then pre (cache_answer env d name qtype zone resp f) _ (cache_answer-Untouched resp f) (
        Keeps-then pre (cache_ns env d name qtype zone f) (cache_glue env d name qtype zone f)
          (cache_ns-Elsewhere env calm.range_visits k pre writes_elsewhere d name qtype zone f
            (cut_elsewhere f cut))
          (cache_glue-Elsewhere env calm.range_visits k pre writes_elsewhere d name qtype zone f
            (glue-Elsewhere f.extra h)))

  cache_nxdomain-Untouched :
      (ttl : ℕ) → Keeps (Untouched env k) (cache_nxdomain env d name qtype zone ttl)
  unfolding cache_nxdomain
  cache_nxdomain-Untouched ttl =
      Keeps-then pre (call_cache env (write_nxdomain _ ttl)) _
        (call_cache-Untouched env k calm _ tt) (Keeps-trace env pre _)

  cache_nodata-Untouched :
      (ttl : ℕ) → Keeps (Untouched env k) (cache_nodata env d name qtype zone ttl)
  unfolding cache_nodata
  cache_nodata-Untouched ttl =
      Keeps-then pre (call_cache env (write_nodata _ ttl)) _ (call_cache-Untouched env k calm _ tt)
        (Keeps-trace env pre _)

  cache_negative-Untouched :
      (resp : Msg) (f : Filtered)
      → Keeps (Untouched env k) (cache_negative env d name qtype zone resp f)
  unfolding cache_negative
  cache_negative-Untouched resp f =
      let ttl = negative_ttl d zone resp.ns in
      Keeps-if pre (resp.rcode == rcode_name_error) (cache_nxdomain env d name qtype zone ttl) _
        (cache_nxdomain-Untouched ttl)
        (Keeps-if pre (resp.rcode == rcode_success && (is_empty f.answer && not (has_ns resp.ns)))
          (cache_nodata env d name qtype zone ttl) (pure tt) (cache_nodata-Untouched ttl)
          (Keeps-pure pre tt))

  note_discarded-Untouched :
      (server : NameServer) (resp : Msg) (f : Filtered)
      → Keeps (Untouched env k) (note_discarded env d name qtype zone server resp f)
  unfolding note_discarded
  note_discarded-Untouched server resp f =
      let n = dropped env d name qtype zone resp f in
      Keeps-when pre (ltb 0 n) (trace env (discarded n server)) (λ _. Keeps-trace env pre _)

  accept-Untouched :
      (server : NameServer) (resp : Msg)
      → All Named resp.ns
      → Keeps (Untouched env k) (accept env d name qtype zone server resp)
  unfolding accept
  accept-Untouched server resp h =
      let f = filter_in_bailiwick d zone name resp.answer resp.ns resp.extra in
      let within = filter_in_bailiwick-Within d laws zone name resp.answer resp.ns resp.extra h in
      let cut = filter_in_bailiwick-IsCut d zone name resp.answer resp.ns resp.extra in
      Keeps-then pre (trace env _) _ (Keeps-trace env pre _) (
        Keeps-then pre (note_discarded env d name qtype zone server resp f) _
          (note_discarded-Untouched server resp f)
          (Keeps-then pre (cache_sections env d name qtype zone resp f) _
            (cache_sections-Untouched resp f cut within.2)
            (Keeps-then pre (cache_negative env d name qtype zone resp f) _
              (cache_negative-Untouched resp f) (Keeps-pure pre _))))

  unless_cancelled-Untouched :
      (cancelled : Option Error) (m : M env (Result LookupResult))
      → Keeps (Untouched env k) m
      → Keeps (Untouched env k) (unless_cancelled env d name qtype zone cancelled m)
  unfolding unless_cancelled
  unless_cancelled-Untouched (some e) m h = Keeps-pure pre (err e)
  unless_cancelled-Untouched none m h = h

  on_answer-Untouched :
      (server : NameServer) (again : Error → M env (Result LookupResult)) (answered : Result Msg)
      → ((resp : Msg) → answered ≡ ok resp → All Named resp.ns)
      → ((e : Error) → Keeps (Untouched env k) (again e))
      → Keeps (Untouched env k) (on_answer env d name qtype zone server again answered)
  unfolding on_answer
  on_answer-Untouched server again (err e) named' h =
      Keeps-then pre (trace env (query_failed server e)) (again e) (Keeps-trace env pre _) (h e)
  on_answer-Untouched server again (ok resp) named' h =
      accept-Untouched server resp (named' resp refl)

  try_servers-Untouched :
      (last_err : Error) (servers : List NameServer)
      → Keeps (Untouched env k) (try_servers env d name qtype zone last_err servers)
  unfolding try_servers
  try_servers-Untouched last_err [] = Keeps-pure pre _
  try_servers-Untouched last_err (server ∷ servers) =
      let req = request env d name qtype zone in
      let again = λ (e : Error). try_servers env d name qtype zone e servers in
      Keeps-bind pre (outside env env.ctx_err) _ (Keeps-outside env pre _ checked) λ cancelled.
        unless_cancelled-Untouched cancelled _ (
          Keeps-outside_bind env pre (env.exchange req server.addr 53)
            (on_answer env d name qtype zone server again) (exchanged req server.addr 53)
            λ answered w q.
              on_answer-Untouched server again answered
                (λ resp came. calm.answers_named req server.addr 53 w resp (q ∙ came))
                (λ e. try_servers-Untouched e servers))

  after_get_negative-Untouched :
      (servers : List NameServer) (found : Option ℕ)
      → Keeps (Untouched env k) (after_get_negative env d name qtype zone servers found)
  unfolding after_get_negative
  after_get_negative-Untouched servers (some rcode) =
      Keeps-then pre (trace env _) (pure _) (Keeps-trace env pre _) (Keeps-pure pre _)
  after_get_negative-Untouched servers none =
      Keeps-if pre (is_empty servers) (pure _)
        (trace env (cache_miss name qtype (length servers))
          >> try_servers env d name qtype zone nil servers)
        (Keeps-pure pre _)
        (Keeps-then pre (trace env (cache_miss name qtype (length servers)))
          (try_servers env d name qtype zone nil servers) (Keeps-trace env pre _)
          (try_servers-Untouched nil servers))

  after_get-Untouched :
      (servers : List NameServer) (found : Option (List Rr))
      → Keeps (Untouched env k) (after_get env d name qtype zone servers found)
  unfolding after_get
  after_get-Untouched servers (some rrs) =
      Keeps-then pre (trace env _) (pure _) (Keeps-trace env pre _) (Keeps-pure pre _)
  after_get-Untouched servers none =
      Keeps-bind pre (call_cache env (read_negative _)) _ (call_cache-Untouched env k calm _ tt)
        λ reply. after_get_negative-Untouched servers (got_negative env reply)

  -- A lookup of a name of the zone never writes records into the shared cache under a name outside
  -- the zone, whatever the nameservers answer: after it the records under such a key are as before,
  -- or were dropped because they had expired, at a time that the clock showed to a call on the cache
  -- on the way. Given that the other requests write nothing there, that no unpacked owner name in an
  -- authority section is empty, and that the key's own name is not.
  pub lookup_fqdn-Untouched :
      (servers : List NameServer) (s : State env.World)
      → Untouched env k s (lookup_fqdn env d name qtype zone servers s).1
  unfolding lookup_fqdn
  lookup_fqdn-Untouched servers s =
      let kept =
        Keeps-bind pre (call_cache env (read (key_of name qtype)))
          (λ reply. after_get env d name qtype zone servers (got env reply))
          (call_cache-Untouched env k calm _ tt)
          (λ reply. after_get-Untouched servers (got env reply)) in
      kept.at s
