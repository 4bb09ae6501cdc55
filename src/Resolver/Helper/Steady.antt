-- ===== src/Resolver/Helper/Steady.antt =====
-- What `requestHelper.Lookup` of resolver/helper.go returns where each nameserver answers the same
-- whenever it is asked: the cache first, then the nameservers in their order.
use cursedns.Prelude.{ℕ, String, ◌≡◌, refl, ◌∙◌, ap, Option, none, some, List, [], ◌∷◌, map}
use cursedns.Dns.{Rr, Msg, rcode_success}
use cursedns.Dns.Names.{Names}
use cursedns.Resolver.Types.{
  Addr, NameServer, LookupResult, Error, nil, no_nameservers, all_failed, Result, ok, err,
}
use cursedns.Resolver.Cache.Spec.{read, read_negative}
use cursedns.Resolver.Bailiwick.{filter_in_bailiwick}
use cursedns.Resolver.Request.{Env, State, ◌>>=◌, key_of}
use cursedns.Resolver.Helper.{
  outside, call_cache, got, got_negative, accept, request, M, unless_cancelled, on_answer,
  try_servers, after_get_negative, after_get, lookup_fqdn, lookup,
}

-- Each nameserver answers the query the same at all times, and the request is not cancelled.
pub record IsSteady (env : Env) (d : Names) (name : String) (qtype : ℕ) (zone : String)
    (answers : Addr → Result Msg) : Type 0 where
  pub steady :
      (addr : Addr) (w : env.World)
      → (env.exchange (request env d name qtype zone) addr 53 w).0 ≡ answers addr
  pub patient : (w : env.World) → (env.ctx_err w).0 ≡ none

-- the first response, or the error of the last nameserver
unfoldable pub first_response : Error → List (Result Msg) → Result Msg
first_response last_err [] = err last_err
first_response last_err (err e ∷ rest) = first_response e rest
first_response last_err (ok resp ∷ rest) = ok resp

module _ (d : Names) (name : String) (qtype : ℕ) (zone : String) where
  -- what is kept of a response
  abbrev pub filtered : Msg → LookupResult
  filtered resp =
      let f = filter_in_bailiwick d zone name resp.answer resp.ns resp.extra in
      record { rcode = resp.rcode; answer = f.answer; ns = f.ns; extra = f.extra }

  unfoldable pub kept : Result Msg → Result LookupResult
  kept (err e) = err (all_failed name qtype e)
  kept (ok resp) = ok (filtered resp)

  -- what the two caches hold, and what the nameservers answer
  unfoldable pub found : Option (List Rr) → Option ℕ → List (Result Msg) → Result LookupResult
  found (some rrs) absent responses =
      ok (record { rcode = rcode_success; answer = rrs; ns = []; extra = [] })
  found none (some rcode) responses =
      ok (record { rcode = rcode; answer = []; ns = []; extra = [] })
  found none none [] = err (no_nameservers name qtype)
  found none none (r ∷ rs) = kept (first_response nil (r ∷ rs))

module _ (env : Env) (d : Names) (name : String) (qtype : ℕ) (zone : String)
    (answers : Addr → Result Msg) (h : IsSteady env d name qtype zone answers) where
  abbrev asked : List NameServer → List (Result Msg)
  asked = map (λ server. answers server.addr)

  accept-kept :
      (server : NameServer) (resp : Msg) (s : State env.World)
      → (accept env d name qtype zone server resp s).0 ≡ kept d name qtype zone (ok resp)
  unfolding accept kept
  accept-kept server resp s = refl

  on_answer-kept :
      (server : NameServer) (again : Error → M env (Result LookupResult)) (rest : List (Result Msg))
      (answered : Result Msg) (last_err : Error) (s : State env.World)
      → ((e : Error) (s' : State env.World)
          → (again e s').0 ≡ kept d name qtype zone (first_response e rest))
      → (on_answer env d name qtype zone server again answered s).0
        ≡ kept d name qtype zone (first_response last_err (answered ∷ rest))
  unfolding on_answer first_response
  on_answer-kept server again rest (err e) last_err s goes = goes e _
  on_answer-kept server again rest (ok resp) last_err s goes = accept-kept server resp s

  try_servers-kept :
      (last_err : Error) (servers : List NameServer) (s : State env.World)
      → (try_servers env d name qtype zone last_err servers s).0
        ≡ kept d name qtype zone (first_response last_err (asked servers))
  unfolding try_servers first_response kept unless_cancelled
  try_servers-kept last_err [] s = refl
  try_servers-kept last_err (server ∷ servers) s =
      let again = λ (e : Error). try_servers env d name qtype zone e servers in
      let req = request env d name qtype zone in
      let ask =
        outside env (env.exchange req server.addr 53)
        >>= on_answer env d name qtype zone server again in
      let s' : State env.World = record s { world = (env.ctx_err s.world).1 } in
      let (answered, w) = env.exchange req server.addr 53 s'.world in
      ap (λ c. (unless_cancelled env d name qtype zone c ask s').0) (h.patient s.world)
      ∙ on_answer-kept server again (asked servers) answered last_err (record s' { world = w })
          (λ e. try_servers-kept e servers)
      ∙ ap (λ r. kept d name qtype zone (first_response last_err (r ∷ asked servers)))
          (h.steady server.addr s'.world)

  after_get_negative-found :
      (servers : List NameServer) (absent : Option ℕ) (s : State env.World)
      → (after_get_negative env d name qtype zone servers absent s).0
        ≡ found d name qtype zone none absent (asked servers)
  unfolding after_get_negative found
  after_get_negative-found servers (some rcode) s = refl
  after_get_negative-found [] none s = refl
  after_get_negative-found (server ∷ servers) none s = try_servers-kept nil (server ∷ servers) _

-- what the two reads of the caches find, of which the second is made in any case here
module _ (env : Env) (name : String) (qtype : ℕ) (s : State env.World) where
  abbrev pub cached : Option (List Rr)
  cached = got env (call_cache env (read (key_of name qtype)) s).0

  abbrev pub cached_negative : Option ℕ
  cached_negative =
      got_negative env
        (call_cache env (read_negative (key_of name qtype))
          (call_cache env (read (key_of name qtype)) s).1).0

after_get-found :
    (env : Env) (d : Names) (name : String) (qtype : ℕ) (zone : String)
    (answers : Addr → Result Msg)
    → IsSteady env d name qtype zone answers
    → (servers : List NameServer) (hit : Option (List Rr)) (s : State env.World)
    → (after_get env d name qtype zone servers hit s).0
      ≡ found d name qtype zone hit
          (got_negative env (call_cache env (read_negative (key_of name qtype)) s).0)
          (map (λ server. answers server.addr) servers)
unfolding after_get found
after_get-found env d name qtype zone answers h servers (some rrs) s = refl
after_get-found env d name qtype zone answers h servers none s =
    after_get_negative-found env d name qtype zone answers h servers _ _

-- Where each nameserver answers the query the same whenever it is asked and the request is not
-- cancelled, `Lookup` returns the records that the cache holds, or else the code that it holds for a
-- negative answer, or else what the filter keeps of the response of the first nameserver, in their
-- order, that responds. It fails where none does, with the error of the last one, and where there is
-- none to ask. Whatever other requests do to the cache.
pub lookup-found :
    (env : Env) (d : Names) (name : String) (qtype : ℕ) (zone : String)
    (answers : Addr → Result Msg) (servers : List NameServer) (s : State env.World)
    → IsSteady env d (d.fqdn name) qtype (d.fqdn zone) answers
    → (lookup env d name qtype zone servers s).0
      ≡ found d
          (d.fqdn name)
          qtype
          (d.fqdn zone)
          (cached env (d.fqdn name) qtype s)
          (cached_negative env (d.fqdn name) qtype s)
          (map (λ server. answers server.addr) servers)
unfolding lookup lookup_fqdn
lookup-found env d name qtype zone answers servers s h =
    after_get-found env d (d.fqdn name) qtype (d.fqdn zone) answers h servers _ _
