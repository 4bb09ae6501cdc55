-- ===== src/Handlers/Recursive/Delegation.antt =====
-- The zones that `RecursiveHandler.Handle` asks in, over the helper of the server.
use cursedns.Prelude.{String, ◌≡◌, true, List, [], ◌∷◌, All, inl, inr, Bool-cases}
use cursedns.Dns.{Rr, Rdata, is_ns}
use cursedns.Dns.Names.{Names, IsNames}
use cursedns.Resolver.Types.{Query, NameServer, LookupResult, Result, ok, err}
use cursedns.Resolver.Bailiwick.Sections.{IsReferral}
use cursedns.Resolver.Request.{Helper, Env, State}
use cursedns.Resolver.Helper.{request_helper}
use cursedns.Resolver.Helper.Poisoning.{AnswersNamed}
use cursedns.Resolver.Helper.Contract.{IsNarrowing, lookup_narrows}
use cursedns.Handlers.Recursive.{handle}
use cursedns.Handlers.Recursive.Records.{has_ns, delegation_owner}
use cursedns.Handlers.Recursive.Invariant.{Rule, Allows, handle_rule}

-- one call of `Lookup`
pub record Ask : Type 0 where
  pub zone : String
  pub name : String

-- the helper with a record of the calls of `Lookup`, latest first
abbrev pub logged : {S : Type 0} → Helper S → Helper (List Ask × S)
logged h = record {
  lookup = λ name qtype zone servers s.
      let (answered, s') = h.lookup name qtype zone servers s.1 in
      (answered, (record { zone = zone; name = name } ∷ s.0, s'));
  root_hints = h.root_hints;
  trace = λ event s. (s.0, h.trace event s.1);
}

-- the zone covers the complete name
abbrev pub Covers : Names → Ask → Type 0
Covers d ask = d.is_sub_domain ask.zone (d.fqdn ask.name) ≡ true

module _ (d : Names) (zone name cut : String) where
  -- `delegationOwner` is the owner of an NS record that the filter kept
  owner_covers :
      (ns : List Rr)
      → All (λ rr. IsReferral d zone name cut rr.rdata rr.name) ns
      → has_ns ns ≡ true
      → d.is_sub_domain (delegation_owner ns) name ≡ true
  unfolding has_ns delegation_owner
  owner_covers [] h k = cc
  owner_covers (rr ∷ ns) h k = elim (Bool-cases (is_ns rr.rdata)) [
    | inl found ↦ rw found (of_ns rr.rdata rr.name h.0 found)
    | inr other ↦ rw other (owner_covers ns h.1 (rw other at k))
  ]
    where
      of_ns :
          (data' : Rdata) (owner : String)
          → IsReferral d zone name cut data' owner
          → is_ns data' ≡ true
          → d.is_sub_domain owner name ≡ true
      of_ns (Rdata.ns host) owner r q = r.2
      of_ns (Rdata.soa minttl) owner r q = cc
      of_ns _ owner r q = cc

module _ (d : Names) (laws : IsNames d) (env : Env) (unpacked : AnswersNamed env)
    (hints : List NameServer) where
  narrowing-Allows :
      (name zone : String) (answered : Result LookupResult)
      → IsNarrowing d (d.fqdn zone) (d.fqdn name) answered
      → Allows (λ z n. d.is_sub_domain z (d.fqdn n) ≡ true) name answered
  narrowing-Allows name zone (err e) h = tt
  narrowing-Allows name zone (ok r) h =
      λ referred. owner_covers d (d.fqdn zone) (d.fqdn name) h.0.0 r.ns h.0.1 referred

  delegation_rule :
      Rule
        (logged (request_helper env d hints))
        (λ _ s. All (Covers d) s.0)
        (λ z n. d.is_sub_domain z (d.fqdn n) ≡ true)
  unfolding request_helper
  delegation_rule = record {
    root_ok = λ name. laws.sub_root (d.fqdn name);
    lookup_allows = λ name qtype zone servers s o.
        narrowing-Allows name zone _
          (lookup_narrows d laws env unpacked name qtype zone servers s.1);
    lookup_keeps = λ budget name qtype zone servers s o i. (o, i);
    trace_keeps = λ budget event s i. i;
  }

  -- For every query, and whatever the nameservers answer and the cache holds, each call of `Lookup`
  -- names a zone that covers the complete form (`dns.Fqdn`) of the name it asks for. Given that no
  -- unpacked owner name in an authority section is empty.
  pub handle-Covers :
      (query : Query) (s : State env.World)
      → All (Covers d) (handle (logged (request_helper env d hints)) query ([], s)).1.0
  handle-Covers query s =
      (handle_rule (logged (request_helper env d hints)) (λ _ t. All (Covers d) t.0)
        (λ z n. d.is_sub_domain z (d.fqdn n) ≡ true) delegation_rule query ([], s) tt).1
