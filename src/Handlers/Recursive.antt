-- ===== src/Handlers/Recursive.antt =====
-- `RecursiveHandler` of handlers/recursive.go, over any `Helper`. The pointer `budget` is a number
-- beside the helper's state.
pub mod Records
pub mod Invariant
pub mod Budget
pub mod Delegation
pub mod Names
pub mod Target
pub mod Leads
pub mod Answers
pub mod Delegates
pub mod Follows
use cursedns.Prelude.{
  ℕ, zero, suc, ◌+◌, ◌-◌, String, Bool, true, false, not, ◌&&◌, ◌||◌, Option, none, some, List, [],
  ◌∷◌, ◌++◌, length, is_empty, ◌==◌, nat_eq, if◌then◌else◌, equal_fold,
}
use cursedns.Dns.{Rr, type_a, rcode_success}
use cursedns.Resolver.Types.{
  Query, Response, NameServer, LookupResult, Error, nil, exceeded_restarts, exceeded_budget,
  no_progress, bad_referral, exceeded_hops, glue_too_deep, unresolved_nameservers, Result, ok, err,
  restarting, referral,
}
use cursedns.Resolver.Request.{Helper}
use Records.{has_ns, delegation_owner, unique_ns_names, glue, addresses, unresolved_cname_target}

abbrev pub max_hops : ℕ
max_hops = 20

abbrev pub max_cname_restarts : ℕ
max_cname_restarts = 8

abbrev pub max_glue_depth : ℕ
max_glue_depth = 4

abbrev pub max_total_lookups : ℕ
max_total_lookups = 100

-- `resolver.RootZone`
abbrev pub root_zone : String
root_zone = "."

module _ {S : Type 0} (h : Helper S) where
  -- what a step takes and leaves: the budget and the helper's state
  abbrev pub Run : Type 0 → Type 0
  Run A = ℕ → S → Result A × ℕ × S

  abbrev pub stop : {A : Type 0} → Error → Run A
  stop e budget s = (err e, budget, s)

  -- the body of the loop below after `resolveIterative` returned; `again` goes on
  unfoldable pub on_resolved :
      String → (Error → Run (List NameServer)) → Error → Result LookupResult → Run (List NameServer)
  on_resolved name again last_err (err e) = again e
  on_resolved name again last_err (ok result) = λ budget s.
      let out = addresses name result.answer in
      if is_empty out then again last_err budget s else (ok out, budget, s)

  -- the loop that resolves the address of one nameserver after another
  unfoldable pub chase_names :
      (String → Run LookupResult) → List String → List String → Error → Run (List NameServer)
  chase_names resolve all [] last_err = stop (unresolved_nameservers all last_err)
  chase_names resolve all (name ∷ names) last_err = λ budget s.
      let (answered, budget', s') = resolve name budget s in
      on_resolved name (chase_names resolve all names) last_err answered budget' s'

  -- `resolveNameservers`; `resolve` is `none` at the greatest depth
  unfoldable pub resolve_nameservers :
      Option (String → Run LookupResult) → List Rr → List Rr → Run (List NameServer)
  resolve_nameservers resolve ns extra budget s =
      let names = unique_ns_names ns in
      let out = glue names extra in
      if not (is_empty out) then (ok out, budget, s) else elim resolve [
        | none ↦ (err (glue_too_deep names), budget, s)
        | some deeper ↦ chase_names deeper names names nil budget s
      ]

  -- the end of a round of `resolveIterative`; `again` is the next round
  unfoldable pub follow_referral :
      String
      → ℕ
      → String
      → String
      → (String → List NameServer → Run LookupResult)
      → Result (List NameServer)
      → Run LookupResult
  follow_referral name qtype zone cut again (err e) = stop (bad_referral name qtype cut e)
  follow_referral name qtype zone cut again (ok next) =
      λ budget s. again cut next budget (h.trace (referral name qtype zone cut (length next)) s)

  -- a round of `resolveIterative` after `Lookup` returned
  unfoldable pub after_lookup :
      Option (String → Run LookupResult)
      → String
      → ℕ
      → String
      → (String → List NameServer → Run LookupResult)
      → Result LookupResult
      → Run LookupResult
  after_lookup deeper name qtype zone again (err e) = stop e
  after_lookup deeper name qtype zone again (ok result) = λ budget s.
      let cut = delegation_owner result.ns in
      let (next, budget', s') = resolve_nameservers deeper result.ns result.extra budget s in
      if not (result.rcode == rcode_success)
        || not (is_empty result.answer)
        || not (has_ns result.ns)
      then (ok result, budget, s)
      else if equal_fold cut zone
      then (err (no_progress name qtype zone), budget, s)
      else follow_referral name qtype zone cut again next budget' s'

  -- the loop of `resolveIterative` with so many hops left
  unfoldable pub walk :
      Option (String → Run LookupResult)
      → String
      → ℕ
      → ℕ
      → String
      → List NameServer
      → Run LookupResult
  walk deeper name qtype zero zone servers budget s = (err (exceeded_hops name qtype), budget, s)
  walk deeper name qtype (suc hops) zone servers zero s =
      (err (exceeded_budget name qtype), zero, s)
  walk deeper name qtype (suc hops) zone servers (suc budget) s =
      let (answered, s') = h.lookup name qtype zone servers s in
      after_lookup deeper name qtype zone (walk deeper name qtype hops) answered budget s'

  -- `resolveIterative` at the depth `max_glue_depth - levels`
  unfoldable pub resolve_at : ℕ → String → ℕ → Run LookupResult
  resolve_at zero name qtype = walk none name qtype max_hops root_zone h.root_hints
  resolve_at (suc levels) name qtype =
      walk (some (λ host. resolve_at levels host type_a)) name qtype max_hops root_zone h.root_hints

  unfoldable pub resolve_iterative : String → ℕ → Run LookupResult
  resolve_iterative = resolve_at max_glue_depth

  -- what `Handle` does with a result; `again` is the next restart
  unfoldable pub conclude :
      String → ℕ → List Rr → (String → List Rr → Run Response) → Result LookupResult → Run Response
  conclude name qtype answer again (err e) = stop e
  conclude name qtype answer again (ok result) = λ budget s.
      let answer' = answer ++ result.answer in
      let (target, needs_restart) = unresolved_cname_target result.answer name qtype in
      if not (result.rcode == rcode_success) || is_empty result.answer
      then (
        ok (record { rcode = result.rcode; answer = answer'; ns = result.ns; extra = [] }),
        budget,
        s,
      )
      else if not needs_restart
      then (ok (record { rcode = rcode_success; answer = answer'; ns = []; extra = [] }), budget, s)
      else again target answer' budget (h.trace (restarting target) s)

  -- the loop of `Handle` with so many restarts left
  unfoldable pub restart : Query → ℕ → String → List Rr → Run Response
  restart query zero name answer = stop (exceeded_restarts query.name query.qtype)
  restart query (suc restarts) name answer = λ budget s.
      let (answered, budget', s') = resolve_iterative name query.qtype budget s in
      conclude name query.qtype answer (restart query restarts) answered budget' s'

  -- `RecursiveHandler.Handle`
  unfoldable pub handle : Query → S → Result Response × S
  handle query s =
      let (answered, budget, s') =
        restart query max_cname_restarts query.name [] max_total_lookups s in
      (answered, s')
