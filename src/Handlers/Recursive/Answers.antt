-- ===== src/Handlers/Recursive/Answers.antt =====
-- `RecursiveHandler.Handle` of handlers/recursive.go returns the answer that the nameservers lead
-- to, over the aliases that leave a zone.
use cursedns.Prelude.{
  ℕ, zero, suc, ◌+◌, ◌-◌, ◌≤◌, String, Bool, true, false, not, ◌||◌, ◌≡◌, refl, ap, ◌∙◌, List, [],
  ◌++◌, is_empty, ◌==◌, nat_eq, arith,
}
use cursedns.Dns.{Rr, rcode_success}
use cursedns.Resolver.Types.{Query, Response, LookupResult, ok, restarting}
use cursedns.Resolver.Request.{Helper}
use cursedns.Handlers.Recursive.Records.{unresolved_cname_target}
use cursedns.Handlers.Recursive.{
  Run, root_zone, max_hops, max_glue_depth, max_cname_restarts, max_total_lookups,
  resolve_iterative, conclude, restart, handle,
}
use cursedns.Handlers.Recursive.Leads.{Leads, resolve_at-walk, walk-Leads}

-- a result without records of an answer, or of another code than success
unfoldable pub is_negative : LookupResult → Bool
is_negative r = not (r.rcode == rcode_success) || is_empty r.answer

module _ {S : Type 0} (h : Helper S) (query : Query) where
  -- With some records of an answer, a name leads to a response and a state, by so many passes from
  -- the root and so many lookups in all.
  pub data Resolves : String → List Rr → S → ℕ → ℕ → Response → S → Type 0 where
    -- there is no answer
    negative :
        {name : String} {answer : List Rr} {s t : S} {n k : ℕ} (r : LookupResult)
        → Leads h name query.qtype max_glue_depth root_zone h.root_hints s n k r t
        → n ≤ max_hops
        → is_negative r ≡ true
        → Resolves name answer s 1 k
            (record { rcode = r.rcode; answer = answer ++ r.answer; ns = r.ns; extra = [] })
            t
    -- the answer is complete
    complete :
        {name : String} {answer : List Rr} {s t : S} {n k : ℕ} (r : LookupResult)
        → Leads h name query.qtype max_glue_depth root_zone h.root_hints s n k r t
        → n ≤ max_hops
        → is_negative r ≡ false
        → (unresolved_cname_target r.answer name query.qtype).1 ≡ false
        → Resolves name answer s 1 k
            (record { rcode = rcode_success; answer = answer ++ r.answer; ns = []; extra = [] })
            t
    -- it ends in an alias for a name that is resolved next
    aliased :
        {name target : String} {answer : List Rr} {s s' t : S} {n k p j : ℕ} {end : Response}
        (r : LookupResult)
        → Leads h name query.qtype max_glue_depth root_zone h.root_hints s n k r s'
        → n ≤ max_hops
        → is_negative r ≡ false
        → unresolved_cname_target r.answer name query.qtype ≡ (target, true)
        → Resolves target (answer ++ r.answer) (h.trace (restarting target) s') p j end t
        → Resolves name answer s (suc p) (k + j) end t

  module _ (name : String) (answer : List Rr) (again : String → List Rr → Run h Response)
      (r : LookupResult) (budget : ℕ) (s : S) where
    conclude-negative :
        is_negative r ≡ true
        → conclude h name query.qtype answer again (ok r) budget s ≡ (
          ok (record { rcode = r.rcode; answer = answer ++ r.answer; ns = r.ns; extra = [] }),
          budget,
          s,
        )
    unfolding conclude is_negative
    conclude-negative e = rw e refl

    conclude_complete :
        is_negative r ≡ false
        → (unresolved_cname_target r.answer name query.qtype).1 ≡ false
        → conclude h name query.qtype answer again (ok r) budget s ≡ (
          ok (record { rcode = rcode_success; answer = answer ++ r.answer; ns = []; extra = [] }),
          budget,
          s,
        )
    unfolding conclude is_negative
    conclude_complete e f = rw (e, f) refl

    conclude-aliased :
        (target : String)
        → is_negative r ≡ false
        → unresolved_cname_target r.answer name query.qtype ≡ (target, true)
        → conclude h name query.qtype answer again (ok r) budget s
          ≡ again target (answer ++ r.answer) budget (h.trace (restarting target) s)
    unfolding conclude is_negative
    conclude-aliased target e f = rw (e, f) refl

  -- a pass from the root
  restart-Leads :
      (restarts : ℕ) {name : String} (answer : List Rr) {s s' : S} {n k : ℕ} {r : LookupResult}
      (budget rest : ℕ)
      → Leads h name query.qtype max_glue_depth root_zone h.root_hints s n k r s'
      → n ≤ max_hops
      → budget ≡ k + rest
      → restart h query (suc restarts) name answer budget s
        ≡ conclude h name query.qtype answer (restart h query restarts) (ok r) rest s'
  unfolding restart resolve_iterative
  restart-Leads restarts {name} answer {s} budget rest l few e =
      ap (λ x. conclude h name query.qtype answer (restart h query restarts) x.0 x.1 x.2)
        (resolve_at-walk h max_glue_depth name query.qtype budget s
          ∙ walk-Leads h l max_hops budget rest few e)

  restart-Resolves :
      {name : String} {answer : List Rr} {s t : S} {p k : ℕ} {resp : Response}
      → Resolves name answer s p k resp t
      → (restarts budget rest : ℕ) → p ≤ restarts
      → budget ≡ k + rest
      → restart h query restarts name answer budget s ≡ (ok resp, rest, t)
  restart-Resolves (negative r l few none_found) zero budget rest a b = absurd (omega arith)
  restart-Resolves (complete r l few found done) zero budget rest a b = absurd (omega arith)
  restart-Resolves (aliased r l few found to more) zero budget rest a b = absurd (omega arith)
  restart-Resolves (negative r l few none_found) (suc restarts) budget rest a b =
      restart-Leads restarts _ budget rest l few b ∙ conclude-negative _ _ _ r rest _ none_found
  restart-Resolves (complete r l few found done) (suc restarts) budget rest a b =
      restart-Leads restarts _ budget rest l few b ∙ conclude_complete _ _ _ r rest _ found done
  restart-Resolves (aliased {k} {j} r l few found to more) (suc restarts) budget rest a b =
      restart-Leads restarts _ budget (j + rest) l few (omega arith)
      ∙ conclude-aliased _ _ _ r (j + rest) _ _ found to
      ∙ restart-Resolves more restarts (j + rest) rest (omega arith) refl

-- If the nameservers lead from the root to an answer, over referrals with glue or to nameservers
-- whose addresses are found the same way, and over aliases into other zones, then `Handle` returns
-- that answer: in no more than 8 passes of at most 20 rounds, and 100 lookups in all.
pub handle-Resolves :
    {S : Type 0} (h : Helper S) (query : Query) {s t : S} {p k : ℕ} {resp : Response}
    → Resolves h query query.name [] s p k resp t
    → p ≤ max_cname_restarts
    → k ≤ max_total_lookups
    → handle h query s ≡ (ok resp, t)
unfolding handle
handle-Resolves h query {k} r a b =
    ap (λ x. (x.0, x.2))
      (restart-Resolves h query r max_cname_restarts max_total_lookups (max_total_lookups - k) a
        (omega arith))
