-- ===== src/Resolver/Helper.antt =====
-- `requestHelper` of resolver/helper.go. The cache is shared by all requests: before
-- each call on it stand the calls that other requests made since.

pub mod Keeps
pub mod Poisoning
pub mod Protected
pub mod Contract
pub mod Negative
pub mod Steady
pub mod Apart
pub mod Cold
pub mod Leaves
pub mod Positive
pub mod NameErrors
pub mod Entries
use cursedns.Prelude.{
  ℕ, ◌+◌, ◌-◌, String, Bool, false, not, ◌&&◌, Option, none, some, List, [], ◌∷◌, ◌++◌, length,
  is_empty, ltb, ◌==◌, nat_eq, if◌then◌else◌,
}
use cursedns.Dns.{Rr, Msg, type_ns, class_inet, rcode_success, rcode_name_error}
use cursedns.Dns.Names.{Names}
use cursedns.Resolver.Types.{
  Addr, NameServer, LookupResult, Error, nil, no_nameservers, all_failed, Result, ok, err, Event,
  cache_hit, negative_cache_hit, cache_miss, query_failed, query_returned, discarded,
  caching_nxdomain, caching_nodata,
}
use cursedns.Resolver.Cache.{Cache, CacheKey}
use cursedns.Resolver.Cache.Spec.{
  Op, Reply, read, write, read_negative, write_nxdomain, write_nodata, records, negative, step,
}
use cursedns.Resolver.Bailiwick.{
  Filtered, Groups, filter_in_bailiwick, group_by_name_type, has_ns, negative_ttl,
}
use cursedns.Resolver.Request.{
  Helper, Env, Line, State, ◌>>=◌, ◌>>◌, pure, when, apply_all, key_of, new_request_helper,
  trace_lines,
}

module _ (env : Env) where
  open env use {World}

  abbrev pub M : Type 0 → Type 0
  M A = State World → A × State World

  -- a call on the shared cache
  unfoldable pub call_cache : Op → M Reply
  call_cache op s =
      let (ops, w) = env.others s.world in
      let ((t, t'), w') = env.cache_times w in
      let (reply, c) = step t t' op (apply_all ops s.cache) in
      (reply, record s { cache = c; world = w' })

  -- `Trace`, less what it logs
  unfoldable pub trace : Event → M (Unit {0})
  trace event s =
      let (t, w) = env.now s.world in
      (tt, record s { lines = s.lines ++ record { time = t; event = event } ∷ []; world = w })

  -- a call that reads or changes nothing but the world
  abbrev pub outside {ℓ} : {A : Type ℓ} → (World → A × World) → State World → A × State World
  outside f s = let (a, w) = f s.world in (a, record s { world = w })

  -- the reply of `Get`, of `GetNegative`
  abbrev pub got : Reply → Option (List Rr)
  got (records found) = found
  got _ = none

  abbrev pub got_negative : Reply → Option ℕ
  got_negative (negative found) = found
  got_negative _ = none

  -- the loop that caches the glue
  unfoldable pub cache_groups : Groups → M (Unit {0})
  cache_groups [] = pure tt
  cache_groups ((key, rrs) ∷ groups) = do
    call_cache (write (key_of key.name key.qtype) rrs)
    cache_groups groups

  module _ (d : Names) (name : String) (qtype : ℕ) (zone : String) where
    -- the three writes of records that the filter kept
    unfoldable pub cache_answer : Msg → Filtered → M (Unit {0})
    cache_answer resp f =
        when (resp.rcode == rcode_success && not (is_empty f.answer))
          (call_cache (write (key_of name qtype) f.answer) >> pure tt)

    unfoldable pub cache_ns : Filtered → M (Unit {0})
    cache_ns f =
        when (not (is_empty f.ns))
          (call_cache (write (key_of f.delegated_zone type_ns) f.ns) >> pure tt)

    unfoldable pub cache_glue : Filtered → M (Unit {0})
    cache_glue f = outside (env.range (group_by_name_type f.extra)) >>= cache_groups

    unfoldable pub cache_sections : Msg → Filtered → M (Unit {0})
    cache_sections resp f = do cache_answer resp f; cache_ns f; cache_glue f

    -- the number of records that the filter dropped
    abbrev pub dropped : Msg → Filtered → ℕ
    dropped resp f =
        length resp.answer
        + length resp.ns
        + length resp.extra
        - (length f.answer + length f.ns + length f.extra)

    unfoldable pub note_discarded : NameServer → Msg → Filtered → M (Unit {0})
    note_discarded server resp f =
        when (ltb 0 (dropped resp f)) (trace (discarded (dropped resp f) server))

    unfoldable pub cache_nxdomain : ℕ → M (Unit {0})
    cache_nxdomain ttl = do
      call_cache (write_nxdomain (record { name = name; qclass = class_inet }) ttl)
      trace (caching_nxdomain name ttl)

    unfoldable pub cache_nodata : ℕ → M (Unit {0})
    cache_nodata ttl = do
      call_cache (write_nodata (key_of name qtype) ttl)
      trace (caching_nodata name qtype ttl)

    -- the `switch` that caches a negative answer
    unfoldable pub cache_negative : Msg → Filtered → M (Unit {0})
    cache_negative resp f =
        let ttl = negative_ttl d zone resp.ns in
        if resp.rcode == rcode_name_error
        then cache_nxdomain ttl
        else if resp.rcode == rcode_success && (is_empty f.answer && not (has_ns resp.ns))
        then cache_nodata ttl
        else pure tt

    -- the body of the loop after a response came
    unfoldable pub accept : NameServer → Msg → M (Result LookupResult)
    accept server resp = do
      trace (
          query_returned server resp.rcode (length resp.answer) (length resp.ns)
            (length resp.extra))
      let f = filter_in_bailiwick d zone name resp.answer resp.ns resp.extra
      note_discarded server resp f
      cache_sections resp f
      cache_negative resp f
      pure (ok (record { rcode = resp.rcode; answer = f.answer; ns = f.ns; extra = f.extra }))

    -- the message that is sent
    unfoldable pub request : Msg
    request = record (env.set_question name qtype) { recursion_desired = false }

    -- the return on a cancelled context
    unfoldable pub unless_cancelled :
        Option Error → M (Result LookupResult) → M (Result LookupResult)
    unless_cancelled (some e) m = pure (err e)
    unless_cancelled none m = m

    -- the rest of the body of the loop; `again` goes on with the next nameserver
    unfoldable pub on_answer :
        NameServer → (Error → M (Result LookupResult)) → Result Msg → M (Result LookupResult)
    on_answer server again (err e) = trace (query_failed server e) >> again e
    on_answer server again (ok resp) = accept server resp

    -- the loop over the nameservers
    unfoldable pub try_servers : Error → List NameServer → M (Result LookupResult)
    try_servers last_err [] = pure (err (all_failed name qtype last_err))
    try_servers last_err (server ∷ servers) = do
      cancelled ← outside env.ctx_err
      unless_cancelled cancelled do
        answered ← outside (env.exchange request server.addr 53)
        on_answer server (λ e. try_servers e servers) answered

    -- what follows `GetNegative`
    unfoldable pub after_get_negative : List NameServer → Option ℕ → M (Result LookupResult)
    after_get_negative servers (some rcode) = do
      trace (negative_cache_hit name qtype rcode)
      pure (ok (record { rcode = rcode; answer = []; ns = []; extra = [] }))
    after_get_negative servers none =
        if is_empty servers
        then pure (err (no_nameservers name qtype))
        else (trace (cache_miss name qtype (length servers)) >> try_servers nil servers)

    -- what follows `Get`
    unfoldable pub after_get : List NameServer → Option (List Rr) → M (Result LookupResult)
    after_get servers (some rrs) = do
      trace (cache_hit name qtype)
      pure (ok (record { rcode = rcode_success; answer = rrs; ns = []; extra = [] }))
    after_get servers none = do
      reply ← call_cache (read_negative (key_of name qtype))
      after_get_negative servers (got_negative reply)

    -- `Lookup`, on names that `Fqdn` has completed
    unfoldable pub lookup_fqdn : List NameServer → M (Result LookupResult)
    lookup_fqdn servers = do
      reply ← call_cache (read (key_of name qtype))
      after_get servers (got reply)

  -- `Lookup`
  unfoldable pub lookup : Names → String → ℕ → String → List NameServer → M (Result LookupResult)
  lookup d name qtype zone servers = lookup_fqdn d (d.fqdn name) qtype (d.fqdn zone) servers

  -- what a handler gets of `requestHelper`
  unfoldable pub request_helper : Names → List NameServer → Helper (State World)
  unfolding lookup trace
  request_helper d hints = record {
    lookup = lookup d;
    root_hints = hints;
    trace = λ event s. (trace event s).1;
  }

-- All of a lookup, to be named on one `unfolding` line where a run is computed.
unfoldable pub lookup_program : Unit {0}
unfolding apply_all call_cache trace cache_groups cache_answer cache_ns cache_glue cache_sections
    note_discarded cache_nxdomain cache_nodata cache_negative accept request unless_cancelled
    on_answer try_servers after_get_negative after_get lookup_fqdn lookup request_helper
lookup_program = tt
