-- ===== src/Handlers/Gemini/Lookups.antt =====
-- The loop over the lookups of a turn in handlers/gemini.go: what it does where all are afforded, and
-- where they are not.
use cursedns.Prelude.{
  ℕ, ◌-◌, ◌≤◌, ◌<◌, true, ◌≡◌, refl, sym, append-nil, ◌∙◌, inl, inr, Bool-cases, List, [], ◌∷◌,
  ◌++◌, append_assoc, length, ltb, string_eq, arith,
}
use cursedns.Resolver.Types.{Result, ok, err, Error, exceeded_lookup_budget}
use cursedns.Resolver.Request.{Helper}
use cursedns.Handlers.Texts.{Texts}
use cursedns.Handlers.Payload.{LookupRequest, LookupRecord}
use cursedns.Handlers.Gemini.{times, perform_lookup, run_lookups}
use cursedns.Handlers.Gemini.Rule.{times_pred}

module _ (texts : Texts) {S : Type 0} (helper : Helper S) where
  -- one lookup after another
  unfoldable pub perform_all : List LookupRequest → S → List LookupRecord × S
  perform_all [] s = ([], s)
  perform_all (req ∷ reqs) s =
      let (done, s') = perform_lookup texts helper req s in
      let (rest, s'') = perform_all reqs s' in (done ∷ rest, s'')

  same_lookups :
      (n m : ℕ) (some_records records : List LookupRecord) (s : S)
      → n ≡ m
      → some_records ≡ records
      → ◌≡◌ {A = Result (ℕ × List LookupRecord) × S} (ok (n, some_records), s) (ok (m, records), s)
  same_lookups n m some_records records s p q = cc

  pub run_lookups-perform_all :
      (limit : ℕ) (reqs : List LookupRequest) (remaining : ℕ) (history : List LookupRecord) (s : S)
      → length reqs ≤ times remaining
      → run_lookups texts helper limit reqs remaining history s
        ≡ (ok (remaining - length reqs, history ++ (perform_all reqs s).0), (perform_all reqs s).1)
  unfolding run_lookups perform_all
  run_lookups-perform_all limit [] remaining history s few =
      same_lookups _ _ _ _ s (omega arith) (sym (append-nil history))
  run_lookups-perform_all limit (req ∷ reqs) remaining history s few =
      let left : ltb 0 (times remaining) ≡ true = ground arith in
      let (done, s') = perform_lookup texts helper req s in
      rw left (
        run_lookups-perform_all limit reqs (remaining - 1) (history ++ done ∷ []) s'
          (omega (arith, times_pred remaining left))
        ∙ same_lookups _ _ _ _ _ (omega arith)
            (append_assoc history (done ∷ []) (perform_all reqs s').0))

  pub run_lookups-spent :
      (limit : ℕ) (reqs : List LookupRequest) (remaining : ℕ) (history : List LookupRecord) (s : S)
      → times remaining < length reqs
      → (e : Error) × (t : S) × (run_lookups texts helper limit reqs remaining history s
          ≡ (err e, t))
  unfolding run_lookups
  run_lookups-spent limit [] remaining history s many = absurd (omega (arith, many))
  run_lookups-spent limit (req ∷ reqs) remaining history s many =
      elim (Bool-cases (ltb 0 (times remaining))) [
        | inl left ↦ rw left (
            run_lookups-spent limit reqs (remaining - 1) _ _
              (omega (arith, many, times_pred remaining left)))
        | inr spent ↦ rw spent (exceeded_lookup_budget limit, s, refl)
      ]
