-- ===== src/Handlers/Recursive/Budget.antt =====
-- How many lookups `RecursiveHandler.Handle` makes for one query.
use cursedns.Prelude.{ℕ, ◌+◌, ◌≤◌, String, arith}
use cursedns.Resolver.Types.{Query, Result, ok, err, LookupResult}
use cursedns.Resolver.Request.{Helper}
use cursedns.Handlers.Recursive.{handle, max_total_lookups}
use cursedns.Handlers.Recursive.Invariant.{Allows, handle_rule}

-- the helper with a count of the calls of `Lookup`
abbrev pub counted : {S : Type 0} → Helper S → Helper (ℕ × S)
counted h = record {
  lookup = λ name qtype zone servers s.
      let (answered, s') = h.lookup name qtype zone servers s.1 in (answered, (s.0 + 1, s'));
  root_hints = h.root_hints;
  trace = λ event s. (s.0, h.trace event s.1);
}

-- the calls made and the budget left
abbrev Spent : {S : Type 0} → ℕ → ℕ × S → Type 0
Spent budget s = s.0 + budget ≤ max_total_lookups

module _ {S : Type 0} (h : Helper S) where
  anything_allowed :
      (name : String) (answered : Result LookupResult) → Allows (λ _ _. Unit) name answered
  anything_allowed name (err e) = tt
  anything_allowed name (ok r) = λ _. tt

  -- Whatever the nameservers answer, one query makes at most `max_total_lookups` lookups: the main
  -- chain, its restarts and every nested resolution of a nameserver's address together.
  pub handle-le-max_total_lookups :
      (query : Query) (s : S) → (handle (counted h) query (0, s)).1.0 ≤ max_total_lookups
  handle-le-max_total_lookups query s =
      let (budget, spent) =
        handle_rule (counted h) Spent (λ _ _. Unit)
          (record {
            root_ok = λ name. tt;
            lookup_allows = λ name qtype zone servers s' o. anything_allowed name _;
            lookup_keeps = λ budget' name qtype zone servers s' o i. omega arith;
            trace_keeps = λ budget' event s' i. i;
          })
          query (0, s) (omega arith) in
      omega arith
