-- ===== src/Handlers/Recursive/Invariant.antt =====
-- An induction rule for `RecursiveHandler.Handle`: what every call on the helper keeps, with the
-- budget that is left, holds at the end; and each lookup asks within what earlier results allow.
use cursedns.Prelude.{
  arith, ℕ, zero, suc, String, true, ◌≡◌, inl, inr, Option, none, some, List, [], ◌∷◌, not, ◌||◌,
  is_empty, ◌==◌, nat_eq, equal_fold, Bool-cases,
}
use cursedns.Dns.{Rr, rcode_success, type_a}
use cursedns.Resolver.Types.{
  Query, Response, NameServer, LookupResult, Error, nil, Event, Result, ok, err,
}
use cursedns.Resolver.Request.{Helper}
use cursedns.Handlers.Recursive.Records.{
  has_ns, delegation_owner, unique_ns_names, glue, addresses, unresolved_cname_target,
}
use cursedns.Handlers.Recursive.{
  max_hops, root_zone, max_glue_depth, max_total_lookups, max_cname_restarts, Run, on_resolved,
  chase_names, resolve_nameservers, follow_referral, after_lookup, walk, resolve_at,
  resolve_iterative, conclude, restart, handle,
}

-- the zone of the result's NS records may be asked for the name
abbrev pub Allows : (String → String → Type 0) → String → Result LookupResult → Type 0
Allows Ok name (err e) = Unit
Allows Ok name (ok r) = has_ns r.ns ≡ true → Ok (delegation_owner r.ns) name

-- What has to be shown of a helper: `Ok zone name` says that a lookup may ask for `name` in `zone`.
pub record Rule {S : Type 0} (h : Helper S) (I : ℕ → S → Type 0) (Ok : String → String → Type 0)
    : Type 0 where
  pub root_ok : (name : String) → Ok root_zone name
  pub lookup_allows :
      (name : String) (qtype : ℕ) (zone : String) (servers : List NameServer) (s : S)
      → Ok zone name
      → Allows Ok name (h.lookup name qtype zone servers s).0
  pub lookup_keeps :
      (budget : ℕ) (name : String) (qtype : ℕ) (zone : String) (servers : List NameServer) (s : S)
      → Ok zone name
      → I (suc budget) s
      → I budget (h.lookup name qtype zone servers s).1
  pub trace_keeps : (budget : ℕ) (event : Event) (s : S) → I budget s → I budget (h.trace event s)

module _ {S : Type 0} (h : Helper S) (I : ℕ → S → Type 0) (Ok : String → String → Type 0)
    (rule : Rule h I Ok) where
  abbrev pub Safe : (A : Type 0) → Run h A → Type 0
  Safe A m = (budget : ℕ) (s : S) → I budget s → I (m budget s).1 (m budget s).2

  on_resolved-Safe :
      (name : String) (again : Error → Run h (List NameServer)) (last_err : Error)
      (answered : Result LookupResult)
      → ((e : Error) → Safe (List NameServer) (again e))
      → Safe (List NameServer) (on_resolved h name again last_err answered)
  unfolding on_resolved
  on_resolved-Safe name again last_err (err e) safe budget s i = safe e budget s i
  on_resolved-Safe name again last_err (ok result) safe budget s i =
      elim (Bool-cases (is_empty (addresses name result.answer))) [
        | inl e ↦ rw e (safe last_err budget s i)
        | inr e ↦ rw e i
      ]

  chase_names-Safe :
      (resolve : String → Run h LookupResult)
      → ((name : String) → Safe LookupResult (resolve name))
      → (all names : List String) (last_err : Error)
      → Safe (List NameServer) (chase_names h resolve all names last_err)
  unfolding chase_names
  chase_names-Safe resolve safe all [] last_err budget s i = i
  chase_names-Safe resolve safe all (name ∷ names) last_err budget s i =
      on_resolved-Safe name (chase_names h resolve all names) last_err (resolve name budget s).0
        (chase_names-Safe resolve safe all names) _ _ (safe name budget s i)

  -- the resolver of the next depth, if there is one
  abbrev SafeDeeper : Option (String → Run h LookupResult) → Type 0
  SafeDeeper none = Unit
  SafeDeeper (some resolve) = (name : String) → Safe LookupResult (resolve name)

  resolve_nameservers-Safe :
      (deeper : Option (String → Run h LookupResult)) (ns extra : List Rr)
      → SafeDeeper deeper
      → Safe (List NameServer) (resolve_nameservers h deeper ns extra)
  unfolding resolve_nameservers
  resolve_nameservers-Safe none ns extra safe budget s i =
      elim (Bool-cases (is_empty (glue (unique_ns_names ns) extra))) [
        | inl e ↦ rw e i
        | inr e ↦ rw e i
      ]
  resolve_nameservers-Safe (some resolve) ns extra safe budget s i =
      let names = unique_ns_names ns in
      elim (Bool-cases (is_empty (glue names extra))) [
        | inl e ↦ rw e (chase_names-Safe resolve safe names names nil budget s i)
        | inr e ↦ rw e i
      ]

  follow_referral-Safe :
      (name : String) (qtype : ℕ) (zone cut : String)
      (again : String → List NameServer → Run h LookupResult) (next : Result (List NameServer))
      → ((servers : List NameServer) → Safe LookupResult (again cut servers))
      → Safe LookupResult (follow_referral h name qtype zone cut again next)
  unfolding follow_referral
  follow_referral-Safe name qtype zone cut again (err e) safe budget s i = i
  follow_referral-Safe name qtype zone cut again (ok next) safe budget s i =
      safe next budget _ (rule.trace_keeps budget _ s i)

  after_lookup-Safe :
      (deeper : Option (String → Run h LookupResult)) (name : String) (qtype : ℕ) (zone : String)
      (again : String → List NameServer → Run h LookupResult) (answered : Result LookupResult)
      → SafeDeeper deeper
      → Allows Ok name answered
      → ((cut : String) (servers : List NameServer)
          → Ok cut name
          → Safe LookupResult (again cut servers))
      → Safe LookupResult (after_lookup h deeper name qtype zone again answered)
  unfolding after_lookup
  after_lookup-Safe deeper name qtype zone again (err e) _ _ safe budget s i = i
  after_lookup-Safe deeper name qtype zone again (ok r) safe_deeper allows safe budget s i =
      elim (Bool-cases
        (not (r.rcode == rcode_success) || not (is_empty r.answer) || not (has_ns r.ns))) [
          | inl final ↦ rw final i
          | inr more ↦
              let cut = delegation_owner r.ns in
              let referred : has_ns r.ns ≡ true = ground arith in
              rw more (elim (Bool-cases (equal_fold cut zone)) [
                | inl same ↦ rw same i
                | inr narrower ↦ rw narrower (
                    follow_referral-Safe name qtype zone cut again
                      (resolve_nameservers h deeper r.ns r.extra budget s).0
                      (λ servers. safe cut servers (allows referred)) _ _
                      (resolve_nameservers-Safe deeper r.ns r.extra safe_deeper budget s i))
              ])
        ]

  walk-Safe :
      (deeper : Option (String → Run h LookupResult)) (name : String) (qtype hops : ℕ)
      (zone : String) (servers : List NameServer)
      → SafeDeeper deeper
      → Ok zone name
      → Safe LookupResult (walk h deeper name qtype hops zone servers)
  unfolding walk
  walk-Safe deeper name qtype zero zone servers d o budget s i = i
  walk-Safe deeper name qtype (suc hops) zone servers d o zero s i = i
  walk-Safe deeper name qtype (suc hops) zone servers d o (suc budget) s i =
      after_lookup-Safe deeper name qtype zone (walk h deeper name qtype hops)
        (h.lookup name qtype zone servers s).0 d (rule.lookup_allows name qtype zone servers s o)
        (λ cut next o'. walk-Safe deeper name qtype hops cut next d o') budget _
        (rule.lookup_keeps budget name qtype zone servers s o i)

  resolve_at-Safe :
      (levels : ℕ) (name : String) (qtype : ℕ) → Safe LookupResult (resolve_at h levels name qtype)
  unfolding resolve_at
  resolve_at-Safe zero name qtype =
      walk-Safe none name qtype max_hops root_zone h.root_hints tt (rule.root_ok name)
  resolve_at-Safe (suc levels) name qtype =
      walk-Safe (some (λ host. resolve_at h levels host type_a)) name qtype max_hops root_zone
        h.root_hints (λ host. resolve_at-Safe levels host type_a) (rule.root_ok name)

  resolve_iterative-Safe :
      (name : String) (qtype : ℕ) → Safe LookupResult (resolve_iterative h name qtype)
  unfolding resolve_iterative
  resolve_iterative-Safe = resolve_at-Safe max_glue_depth

  conclude-Safe :
      (name : String) (qtype : ℕ) (answer : List Rr) (again : String → List Rr → Run h Response)
      (answered : Result LookupResult)
      → ((target : String) (answer' : List Rr) → Safe Response (again target answer'))
      → Safe Response (conclude h name qtype answer again answered)
  unfolding conclude
  conclude-Safe name qtype answer again (err e) safe budget s i = i
  conclude-Safe name qtype answer again (ok r) safe budget s i =
      let (target, more) = unresolved_cname_target r.answer name qtype in
      elim (Bool-cases (not (r.rcode == rcode_success) || is_empty r.answer)) [
        | inl final ↦ rw final i
        | inr go ↦ rw go (elim (Bool-cases (not more)) [
          | inl last ↦ rw last i
          | inr restarts ↦ rw restarts (safe _ _ budget _ (rule.trace_keeps budget _ s i))
        ])
      ]

  restart-Safe :
      (query : Query) (restarts : ℕ) (name : String) (answer : List Rr)
      → Safe Response (restart h query restarts name answer)
  unfolding restart
  restart-Safe query zero name answer budget s i = i
  restart-Safe query (suc restarts) name answer budget s i =
      conclude-Safe name query.qtype answer (restart h query restarts)
        (resolve_iterative h name query.qtype budget s).0 (restart-Safe query restarts) _ _
        (resolve_iterative-Safe name query.qtype budget s i)

  -- what holds at the full budget holds, at some budget, at the end
  pub handle_rule :
      (query : Query) (s : S) → I max_total_lookups s → (budget : ℕ) × I budget (handle h query s).1
  unfolding handle
  handle_rule query s i =
      (_, restart-Safe query max_cname_restarts query.name [] max_total_lookups s i)
