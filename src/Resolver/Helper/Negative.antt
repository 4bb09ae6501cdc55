-- ===== src/Resolver/Helper/Negative.antt =====
-- What a name error does to later lookups in `requestHelper.Lookup` of resolver/helper.go.
use cursedns.Prelude.{
  ℕ, ◌+◌, ◌≤◌, String, true, ◌≡◌, refl, ◌∙◌, ap, none, some, List, [], ◌==◌, string_eq, nat_eq,
  eq_iff, length, All,
}
use cursedns.Prelude.Map.{lookup, lookup-insert}
use cursedns.Dns.{Msg, rcode_name_error}
use cursedns.Dns.Names.{Names}
use cursedns.Resolver.Types.{NameServer, ok, query_returned}
use cursedns.Resolver.Cache.{Cache, CacheKey-Eq, NegNameKey-Eq, NegEntry, set_nxdomain}
use cursedns.Resolver.Cache.Spec.{Op, Reply, read, read_negative, records, negative, step}
use cursedns.Resolver.Bailiwick.{Filtered, filter_in_bailiwick, negative_ttl}
use cursedns.Resolver.Request.{Env, State, apply_all, key_of}
use cursedns.Resolver.Helper.{
  call_cache, trace, got, got_negative, note_discarded, cache_sections, cache_nxdomain,
  cache_negative, accept, after_get_negative, after_get, lookup_fqdn,
}
use cursedns.Resolver.Helper.Keeps.{apply_all-related}
use cursedns.Resolver.Helper.NameErrors.{
  step-read_absent, step-read_negative_held, Holds-IsPreorder, LeavesName, SparesName, step-Holds,
  Lacks-IsPreorder, step-Lacks, spares-leaves, error_key,
}

module _ (env : Env) where
  -- the first time that the next call on the cache reads
  abbrev pub clock : env.World → ℕ
  clock w = (env.cache_times (env.others w).1).0.0

  -- the first two calls on the cache of a lookup
  abbrev pub second_clock : env.World → ℕ
  second_clock w = clock (env.cache_times (env.others w).1).1

  -- the calls of other requests leave the name and the records of one type alone
  abbrev pub OthersSpareName : String → ℕ → Type 0
  OthersSpareName name qtype =
      (w : env.World)
      → All (λ o. SparesName (error_key name) (key_of name qtype) o.2) (env.others w).0

  module _ (d : Names) (name : String) (qtype : ℕ) (zone : String) where
    cache_negative-held :
        (resp : Msg) (f : Filtered) (s : State env.World)
        → (resp.rcode == rcode_name_error) ≡ true
        → lookup (error_key name) (cache_negative env d name qtype zone resp f s).1.cache.nxdomain
          ≡ some (record { expires = clock s.world + negative_ttl d zone resp.ns })
    unfolding cache_negative cache_nxdomain call_cache trace step set_nxdomain
    cache_negative-held resp f s e =
        let key = error_key name in
        let ttl = negative_ttl d zone resp.ns in
        rw e (
          lookup-insert key key (record { expires = clock s.world + ttl })
            (apply_all (env.others s.world).0 s.cache).nxdomain
          ∙ rw ((eq_iff name name).1 refl) refl)

    -- the time at which the name error of a response is stored
    abbrev pub refused_at : NameServer → Msg → State env.World → ℕ
    refused_at server resp s =
        let event =
          query_returned server resp.rcode (length resp.answer) (length resp.ns)
            (length resp.extra) in
        let f = filter_in_bailiwick d zone name resp.answer resp.ns resp.extra in
        clock
          (cache_sections env d name qtype zone resp f
            (note_discarded env d name qtype zone server resp f (trace env event s).1).1).1.world

    accept-held :
        (server : NameServer) (resp : Msg) (s : State env.World)
        → (resp.rcode == rcode_name_error) ≡ true
        → lookup (error_key name) (accept env d name qtype zone server resp s).1.cache.nxdomain
          ≡ some (record { expires = refused_at server resp s + negative_ttl d zone resp.ns })
    unfolding accept
    accept-held server resp s e =
        cache_negative-held resp (filter_in_bailiwick d zone name resp.answer resp.ns resp.extra) _
          e

  module _ (d : Names) (name : String) (qtype : ℕ) (zone : String) (e : NegEntry)
      (apart : OthersSpareName name qtype) where
    -- the cache as the next call finds it
    before : State env.World → Cache
    before s = apply_all (env.others s.world).0 s.cache

    before-absent :
        (s : State env.World)
        → lookup (key_of name qtype) s.cache.entries ≡ none
        → lookup (key_of name qtype) (before s).entries ≡ none
    unfolding before
    before-absent s absent =
        apply_all-related env (Lacks-IsPreorder (key_of name qtype))
          (λ o. SparesName (error_key name) (key_of name qtype) o.2)
          (step-Lacks (error_key name) (key_of name qtype)) (env.others s.world).0 s.cache
          (apart s.world) absent

    before-held :
        (s : State env.World)
        → lookup (error_key name) s.cache.nxdomain ≡ some e
        → lookup (error_key name) (before s).nxdomain ≡ some e
    unfolding before
    before-held s held =
        apply_all-related env (Holds-IsPreorder (error_key name) e)
          (λ o. SparesName (error_key name) (key_of name qtype) o.2)
          (λ t t' op c q.
            step-Holds (error_key name) e t t' op c
              (spares-leaves (error_key name) (key_of name qtype) e.expires t t' op q))
          (env.others s.world).0 s.cache (apart s.world) held

    -- a later lookup
    lookup_fqdn-held :
        (servers : List NameServer) (s : State env.World)
        → second_clock s.world ≤ e.expires
        → lookup (key_of name qtype) s.cache.entries ≡ none
        → lookup (error_key name) s.cache.nxdomain ≡ some e
        → (lookup_fqdn env d name qtype zone servers s).0
          ≡ ok (record { rcode = rcode_name_error; answer = []; ns = []; extra = [] })
    unfolding lookup_fqdn after_get after_get_negative call_cache before
    lookup_fqdn-held servers s fresh absent held =
        let key = key_of name qtype in
        let ((t, t'), w) = env.cache_times (env.others s.world).1 in
        let s' : State env.World = record s { cache = before s; world = w } in
        let missed : call_cache env (read key) s ≡ (records none, s') =
          ap (λ (p : Reply × Cache). (p.0, record s { cache = p.1; world = w }))
            (step-read_absent t t' key (before s) (before-absent s absent)) in
        let hit : (call_cache env (read_negative key) s').0 ≡ negative (some rcode_name_error) =
          step-read_negative_held _ _ key (before s') e (before-held s' (before-held s held))
            fresh in
        ap (λ r. (after_get env d name qtype zone servers (got env r.0) r.1).0) missed
        ∙ ap
            (λ reply.
              (after_get_negative env d name qtype zone servers (got_negative env reply)
                (call_cache env (read_negative key) s').1).0)
            hit

  -- After a response with the code of a name error, whatever its sections hold, each lookup of the
  -- name that was asked ends in a name error, up to the TTL of the response after it was stored, for
  -- any type of which the cache then has no records and whatever nameservers it may ask, none
  -- included. Any calls on the cache may stand in between, lookups of the name among them, that store
  -- no other name error for it; and while the lookup runs no other request asks for that name error
  -- or writes records of that name and type.
  pub accept-lookup_fqdn :
      (d : Names) (name : String) (qtype : ℕ) (zone : String) (server : NameServer) (resp : Msg)
      (s : State env.World) (between : List (ℕ × ℕ × Op)) (later : State env.World) (qtype' : ℕ)
      (zone' : String) (servers : List NameServer)
      → let until = refused_at d name qtype zone server resp s + negative_ttl d zone resp.ns in
        OthersSpareName name qtype'
        → (resp.rcode == rcode_name_error) ≡ true
        → All (LeavesName (error_key name) until) between
        → later.cache ≡ apply_all between (accept env d name qtype zone server resp s).1.cache
        → lookup (key_of name qtype') later.cache.entries ≡ none
        → second_clock later.world ≤ until
        → (lookup_fqdn env d name qtype' zone' servers later).0
          ≡ ok (record { rcode = rcode_name_error; answer = []; ns = []; extra = [] })
  accept-lookup_fqdn d name qtype zone server resp s between later qtype' zone' servers apart e
        leave reached absent fresh =
      let entry : NegEntry = record {
        expires = refused_at d name qtype zone server resp s + negative_ttl d zone resp.ns;
      } in
      let held : lookup (error_key name) later.cache.nxdomain ≡ some entry =
        ap (λ (c : Cache). lookup (error_key name) c.nxdomain) reached
        ∙ apply_all-related env (Holds-IsPreorder (error_key name) entry)
            (LeavesName (error_key name) entry.expires) (step-Holds (error_key name) entry) between
            _ leave (accept-held d name qtype zone server resp s e) in
      lookup_fqdn-held d name qtype' zone' entry apart servers later fresh absent held
