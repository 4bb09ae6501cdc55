-- ===== src/Resolver/Helper/Contract.antt =====
-- What a handler may rely on in the result of `Lookup`: the referral in it can only narrow the zone.
use cursedns.Prelude.{ℕ, String, ◌≡◌, refl, Option, none, some, List, [], ◌∷◌, All}
use cursedns.Dns.{Rr, Msg}
use cursedns.Dns.Names.{Names, IsNames}
use cursedns.Resolver.Types.{NameServer, LookupResult, Error, nil, Result, ok, err}
use cursedns.Resolver.Bailiwick.{filter_in_bailiwick}
use cursedns.Resolver.Bailiwick.Sections.{
  Named, Within, IsReferral, filter_in_bailiwick-IsReferral, filter_in_bailiwick-Within,
}
use cursedns.Resolver.Request.{Env, State}
use cursedns.Resolver.Helper.{
  M, accept, request, unless_cancelled, on_answer, try_servers, after_get_negative, after_get,
  lookup_fqdn, lookup,
}
use cursedns.Resolver.Helper.Poisoning.{AnswersNamed}

-- All NS records of the result are of one zone, at or below the zone asked and covering the name,
-- and the glue is within the zone asked.
abbrev pub IsNarrowing : Names → String → String → Result LookupResult → Type 0
IsNarrowing d zone name (err e) = Unit
IsNarrowing d zone name (ok r) =
    ((cut : String) × All (λ rr. IsReferral d zone name cut rr.rdata rr.name) r.ns)
    × All (Within d zone) r.extra

module _ (d : Names) (laws : IsNames d) (env : Env) (unpacked : AnswersNamed env) (name : String)
    (qtype : ℕ) (zone : String) where
  abbrev Returns : M env (Result LookupResult) → Type 0
  Returns m = (s : State env.World) → IsNarrowing d zone name (m s).0

  accept_narrows :
      (server : NameServer) (resp : Msg)
      → All Named resp.ns
      → Returns (accept env d name qtype zone server resp)
  unfolding accept
  accept_narrows server resp h s = (
    (
      (filter_in_bailiwick d zone name resp.answer resp.ns resp.extra).delegated_zone,
      filter_in_bailiwick-IsReferral d zone name resp.answer resp.ns resp.extra h,
    ),
    (filter_in_bailiwick-Within d laws zone name resp.answer resp.ns resp.extra h).2,
  )

  unless_cancelled_narrows :
      (cancelled : Option Error) (m : M env (Result LookupResult))
      → Returns m
      → Returns (unless_cancelled env d name qtype zone cancelled m)
  unfolding unless_cancelled
  unless_cancelled_narrows (some e) m h s = tt
  unless_cancelled_narrows none m h s = h s

  on_answer_narrows :
      (server : NameServer) (again : Error → M env (Result LookupResult)) (answered : Result Msg)
      → ((resp : Msg) → answered ≡ ok resp → All Named resp.ns)
      → ((e : Error) → Returns (again e))
      → Returns (on_answer env d name qtype zone server again answered)
  unfolding on_answer
  on_answer_narrows server again (err e) named h s = h e _
  on_answer_narrows server again (ok resp) named h s =
      accept_narrows server resp (named resp refl) s

  try_servers_narrows :
      (last_err : Error) (servers : List NameServer)
      → Returns (try_servers env d name qtype zone last_err servers)
  unfolding try_servers
  try_servers_narrows last_err [] s = tt
  try_servers_narrows last_err (server ∷ servers) s =
      let req = request env d name qtype zone in
      unless_cancelled_narrows (env.ctx_err s.world).0 _
        (λ s'.
          on_answer_narrows server (λ e. try_servers env d name qtype zone e servers)
            (env.exchange req server.addr 53 s'.world).0
            (λ resp came. unpacked req server.addr 53 s'.world resp came)
            (λ e. try_servers_narrows e servers)
            (record s' { world = (env.exchange req server.addr 53 s'.world).1 }))
        _

  after_get_negative_narrows :
      (servers : List NameServer) (found : Option ℕ)
      → Returns (after_get_negative env d name qtype zone servers found)
  unfolding after_get_negative
  after_get_negative_narrows servers (some rcode) s = (("", tt), tt)
  after_get_negative_narrows [] none s = tt
  after_get_negative_narrows (server ∷ servers) none s =
      try_servers_narrows nil (server ∷ servers) _

  after_get_narrows :
      (servers : List NameServer) (found : Option (List Rr))
      → Returns (after_get env d name qtype zone servers found)
  unfolding after_get
  after_get_narrows servers (some rrs) s = (("", tt), tt)
  after_get_narrows servers none s = after_get_negative_narrows servers _ _

  lookup_fqdn_narrows :
      (servers : List NameServer) → Returns (lookup_fqdn env d name qtype zone servers)
  unfolding lookup_fqdn
  lookup_fqdn_narrows servers s = after_get_narrows servers _ _

-- Whatever the cache holds and the nameservers answer, a result of `Lookup` can only narrow the
-- zone that was trusted: its NS records share one owner, at or below the zone and covering the name,
-- and its glue is within the zone. Given that no unpacked owner name is empty.
pub lookup_narrows :
    (d : Names) (laws : IsNames d) (env : Env)
    → AnswersNamed env
    → (name : String) (qtype : ℕ) (zone : String) (servers : List NameServer) (s : State env.World)
    → IsNarrowing d (d.fqdn zone) (d.fqdn name) (lookup env d name qtype zone servers s).0
unfolding lookup
lookup_narrows d laws env unpacked name qtype zone =
    lookup_fqdn_narrows d laws env unpacked (d.fqdn name) qtype (d.fqdn zone)
