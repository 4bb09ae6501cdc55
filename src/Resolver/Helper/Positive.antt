-- ===== src/Resolver/Helper/Positive.antt =====
-- What an answer does to later lookups in `requestHelper.Lookup` of resolver/helper.go.
use cursedns.Prelude.{
  ℕ, ◌+◌, ◌*◌, ◌≤◌, String, true, false, ◌≡◌, refl, ◌∙◌, ap, sym, some, List, [], ◌∷◌, All, Bool,
  Option, length, ◌&&◌, not, is_empty, ◌==◌, nat_eq, string_eq, arith,
}
use cursedns.Prelude.Map.{lookup, lookup-insert}
use cursedns.Dns.{Rr, Msg, type_ns, rcode_success, rcode_name_error}
use cursedns.Dns.Names.{Names}
use cursedns.Resolver.Types.{NameServer, ok, query_returned}
use cursedns.Resolver.Cache.{
  Cache, CacheKey, CacheKey-Eq, CacheKey_beq, CacheKey_beq_iff, CacheEntry, set, min_ttl, second,
}
use cursedns.Resolver.Cache.Spec.{Op, read, write, records, step}
use cursedns.Resolver.Bailiwick.{
  Filtered, filter_in_bailiwick, group_by_name_type, has_ns, negative_ttl,
}
use cursedns.Resolver.Request.{Env, State, apply_all, key_of, pure, when, ◌>>◌}
use cursedns.Resolver.Helper.{
  call_cache, trace, got, note_discarded, cache_answer, cache_ns, cache_glue, cache_sections,
  cache_nxdomain, cache_nodata, cache_negative, accept, after_get, lookup_fqdn,
}
use cursedns.Resolver.Helper.Keeps.{
  IsPatient, OnCache, OnCache-IsPatient, Keeps, Keeps-pure, Keeps-then, Keeps-else,
  Keeps-call_cache, apply_all-related,
}
use cursedns.Resolver.Helper.Poisoning.{Elsewhere}
use cursedns.Resolver.Helper.Apart.{Visits, cache_ns-Elsewhere, cache_glue-Elsewhere}
use cursedns.Resolver.Helper.Negative.{clock}
use cursedns.Resolver.Helper.Entries.{
  Holds, Holds-IsPreorder, Spares, step-Holds, Leaves, get-held, step-later, entry_of,
}

-- the calls of other requests leave the key alone
abbrev pub OthersSpare : Env → CacheKey → Type 0
OthersSpare env k = (w : env.World) → All (λ o. Spares k o.2) (env.others w).0

module _ (env : Env) (k : CacheKey) (e : CacheEntry) (apart : OthersSpare env k) where
  -- the cache as the next call finds it
  before-Holds :
      (s : State env.World) → Holds k e s.cache (apply_all (env.others s.world).0 s.cache)
  before-Holds s =
      apply_all-related env (Holds-IsPreorder k e) (λ o. Spares k o.2) (step-Holds k e)
        (env.others s.world).0 s.cache (apart s.world)

  call_cache-held :
      (s : State env.World)
      → clock env s.world ≤ e.expires
      → lookup k s.cache.entries ≡ some e
      → (call_cache env (read k) s).0 ≡ records (some e.rrs)
  unfolding call_cache step
  call_cache-held s fresh held =
      ap (λ (r : Option (List Rr) × Cache). records r.0)
        (get-held (clock env s.world) k (apply_all (env.others s.world).0 s.cache) e
          (before-Holds s held) fresh)

  -- a later lookup
  lookup_fqdn-held :
      (d : Names) (name : String) (qtype : ℕ) (zone : String) (servers : List NameServer)
      (s : State env.World)
      → k ≡ key_of name qtype
      → clock env s.world ≤ e.expires
      → lookup k s.cache.entries ≡ some e
      → (lookup_fqdn env d name qtype zone servers s).0
        ≡ ok (record { rcode = rcode_success; answer = e.rrs; ns = []; extra = [] })
  unfolding lookup_fqdn after_get
  lookup_fqdn-held d name qtype zone servers s q fresh held =
      ap
        (λ reply.
          (after_get env d name qtype zone servers (got env reply)
            (call_cache env (read (key_of name qtype)) s).1).0)
        (ap (λ key. (call_cache env (read key) s).0) (sym q) ∙ call_cache-held s fresh held)

module _ (env : Env) (visits : Visits env) (d : Names) (name : String) (qtype : ℕ) (zone : String)
    (apart : OthersSpare env (key_of name qtype)) (e : CacheEntry) where
  pre : IsPatient env (OnCache (Holds (key_of name qtype) e))
  pre = OnCache-IsPatient env (Holds-IsPreorder (key_of name qtype) e)

  call_cache-Holds :
      (op : Op)
      → Spares (key_of name qtype) op
      → Keeps (OnCache (Holds (key_of name qtype) e)) (call_cache env op)
  call_cache-Holds =
      Keeps-call_cache env (Holds-IsPreorder (key_of name qtype) e) (Spares (key_of name qtype))
        (step-Holds (key_of name qtype) e) apart

  writes_apart :
      (key : CacheKey) (rrs : List Rr)
      → CacheKey_beq key (key_of name qtype) ≡ false
      → Keeps (OnCache (Holds (key_of name qtype) e)) (call_cache env (write key rrs))
  writes_apart key rrs apart = call_cache-Holds (write key rrs) apart

  cache_sections-Holds :
      (f : Filtered)
      → CacheKey_beq (key_of f.delegated_zone type_ns) (key_of name qtype) ≡ false
      → All (Elsewhere (key_of name qtype)) (group_by_name_type f.extra)
      → Keeps
          (OnCache (Holds (key_of name qtype) e))
          (cache_ns env d name qtype zone f >> cache_glue env d name qtype zone f)
  cache_sections-Holds f cut glue =
      Keeps-then pre (cache_ns env d name qtype zone f) (cache_glue env d name qtype zone f)
        (cache_ns-Elsewhere env visits (key_of name qtype) pre writes_apart d name qtype zone f cut)
        (cache_glue-Elsewhere env visits (key_of name qtype) pre writes_apart d name qtype zone f
          glue)

  cache_negative-Holds :
      (resp : Msg) (f : Filtered)
      → (resp.rcode == rcode_success) ≡ true
      → is_empty f.answer ≡ false
      → Keeps (OnCache (Holds (key_of name qtype) e)) (cache_negative env d name qtype zone resp f)
  unfolding cache_negative
  cache_negative-Holds resp f good full =
      let ttl = negative_ttl d zone resp.ns in
      Keeps-else pre (resp.rcode == rcode_name_error) (cache_nxdomain env d name qtype zone ttl) _
        (ground arith)
        (Keeps-else pre (resp.rcode == rcode_success && (is_empty f.answer && not (has_ns resp.ns)))
          (cache_nodata env d name qtype zone ttl) (pure tt) (ground arith) (Keeps-pure pre tt))

when-true :
    {W : Type 0} (b : Bool) (m : State W → Unit {0} × State W) (s : State W)
    → b ≡ true
    → when b m s ≡ m s
when-true true m s e = refl
when-true false m s e = absurd (ground arith)

set-held :
    (now : ℕ) (k : CacheKey) (rrs : List Rr) (c : Cache) (rr : Rr) (rest : List Rr)
    → rrs ≡ rr ∷ rest
    → lookup k (set now k rrs c).entries ≡ some (entry_of now rr rest)
unfolding set
set-held now k rrs c rr rest e =
    ap (λ a. lookup k (set now k a c).entries) e
    ∙ lookup-insert k k (entry_of now rr rest) c.entries
    ∙ rw ((CacheKey_beq_iff k k).1 refl) refl

module _ (env : Env) (d : Names) (name : String) (qtype : ℕ) (zone : String) where
  cache_answer-held :
      (resp : Msg) (f : Filtered) (s : State env.World) (rr : Rr) (rest : List Rr)
      → (resp.rcode == rcode_success) ≡ true
      → f.answer ≡ rr ∷ rest
      → lookup (key_of name qtype) (cache_answer env d name qtype zone resp f s).1.cache.entries
        ≡ some (entry_of (clock env s.world) rr rest)
  unfolding cache_answer call_cache step
  cache_answer-held resp f s rr rest good e =
      let k = key_of name qtype in
      let full : is_empty f.answer ≡ false = ap is_empty e in
      ap (λ r. lookup k r.1.cache.entries)
        (when-true (resp.rcode == rcode_success && not (is_empty f.answer))
          (call_cache env (write k f.answer) >> pure tt) s (ground arith))
      ∙ set-held (clock env s.world) k f.answer (apply_all (env.others s.world).0 s.cache) rr rest e

  -- the time at which a response's answer is stored
  abbrev pub answered_at : NameServer → Msg → State env.World → ℕ
  answered_at server resp s =
      let event =
        query_returned server resp.rcode (length resp.answer) (length resp.ns)
          (length resp.extra) in
      let f = filter_in_bailiwick d zone name resp.answer resp.ns resp.extra in
      clock env (note_discarded env d name qtype zone server resp f (trace env event s).1).1.world

  accept-held :
      Visits env
      → OthersSpare env (key_of name qtype)
      → (server : NameServer) (resp : Msg) (s : State env.World) (rr : Rr) (rest : List Rr)
      → let f = filter_in_bailiwick d zone name resp.answer resp.ns resp.extra in
        (resp.rcode == rcode_success) ≡ true
        → f.answer ≡ rr ∷ rest
        → CacheKey_beq (key_of f.delegated_zone type_ns) (key_of name qtype) ≡ false
        → All (Elsewhere (key_of name qtype)) (group_by_name_type f.extra)
        → lookup (key_of name qtype) (accept env d name qtype zone server resp s).1.cache.entries
          ≡ some (entry_of (answered_at server resp s) rr rest)
  unfolding accept cache_sections
  accept-held visits apart server resp s rr rest good kept cut glue =
      let f = filter_in_bailiwick d zone name resp.answer resp.ns resp.extra in
      let event =
        query_returned server resp.rcode (length resp.answer) (length resp.ns)
          (length resp.extra) in
      let s2 = (note_discarded env d name qtype zone server resp f (trace env event s).1).1 in
      let s3 = (cache_answer env d name qtype zone resp f s2).1 in
      let s4 = ((cache_ns env d name qtype zone f >> cache_glue env d name qtype zone f) s3).1 in
      let e = entry_of (clock env s2.world) rr rest in
      let held3 = cache_answer-held resp f s2 rr rest good kept in
      let held4 =
        (cache_sections-Holds env visits d name qtype zone apart e f cut glue).at s3 held3 in
      (cache_negative-Holds env visits d name qtype zone apart e resp f good (ap is_empty kept)).at
        s4 held4

-- After a response with an answer, of which the filter keeps some records, each lookup of the same
-- name and type returns those records from the cache, up to their least TTL after the answer was
-- stored, for any zone and whatever nameservers it may ask, none included. Other calls on the cache
-- may stand in between, lookups of that name and type among them, while none writes records under
-- them. Given that neither the delegation nor the glue of the response is cached under the same name
-- and type, and that no other request uses the entry while a lookup runs.
pub accept-lookup_fqdn_answer :
    (env : Env) (visits : Visits env) (d : Names) (name : String) (qtype : ℕ) (zone : String)
    (server : NameServer) (resp : Msg) (s : State env.World) (between : List (ℕ × ℕ × Op))
    (later : State env.World) (zone' : String) (servers : List NameServer) (rr : Rr)
    (rest : List Rr)
    → let f = filter_in_bailiwick d zone name resp.answer resp.ns resp.extra in
      let until = answered_at env d name qtype zone server resp s + min_ttl rr.ttl rest * second in
      OthersSpare env (key_of name qtype)
      → (resp.rcode == rcode_success) ≡ true
      → f.answer ≡ rr ∷ rest
      → CacheKey_beq (key_of f.delegated_zone type_ns) (key_of name qtype) ≡ false
      → All (Elsewhere (key_of name qtype)) (group_by_name_type f.extra)
      → All (Leaves (key_of name qtype) until) between
      → later.cache ≡ apply_all between (accept env d name qtype zone server resp s).1.cache
      → clock env later.world ≤ until
      → (lookup_fqdn env d name qtype zone' servers later).0
        ≡ ok (record { rcode = rcode_success; answer = rr ∷ rest; ns = []; extra = [] })
accept-lookup_fqdn_answer env visits d name qtype zone server resp s between later zone' servers rr
      rest apart good kept cut glue leave reached fresh =
    let k = key_of name qtype in
    let e = entry_of (answered_at env d name qtype zone server resp s) rr rest in
    let stored =
      accept-held env d name qtype zone visits apart server resp s rr rest good kept cut glue in
    let held : lookup k later.cache.entries ≡ some e =
      ap (λ (c : Cache). lookup k c.entries) reached
      ∙ apply_all-related env (Holds-IsPreorder k e) (Leaves k e.expires) (step-later k e) between _
          leave stored in
    lookup_fqdn-held env k e apart d name qtype zone' servers later refl fresh held
