-- ===== src/Handlers/Gemini/Tokens.antt =====
-- The tokens that `GeminiHandler.Handle` lets the model use for an answer.
use cursedns.Prelude.{
  ℕ, zero, suc, ◌+◌, ◌<◌, ◌≤◌, ◌^◌, ◌≡◌, refl, sym, ◌∙◌, inl, inr, Bool-cases, List, [], length,
  is_empty, ◌==◌, string_eq, arith,
}
use cursedns.Resolver.Types.{Query, Result, ok, err}
use cursedns.Resolver.Request.{Helper}
use cursedns.Handlers.Texts.{Texts}
use cursedns.Handlers.Payload.{LookupRequest, LookupRecord, TurnResponse}
use cursedns.Handlers.Gemini.{
  Generated, Client, read_response, total_lookups_limit, GeminiHandler, settings, times, exceeds,
  exceeds_int32, add_tokens, build_answer,
}
use cursedns.Handlers.Gemini.Meter.{
  Metered, metered_helper, metered_client, cost, IsModest, Afforded, run_lookups-spent,
  build_answer-Afforded, add_tokens-within,
}
use cursedns.Handlers.Gemini.Turns.{
  Next, continue, on_lookups, on_action, on_parsed, on_text, on_generated, run_turns, handle,
}

module _ (texts : Texts) {S : Type 0} (helper : Helper S) (client : Client S) (h : GeminiHandler)
    (query : Query) where
  abbrev helper' : Helper (Metered S)
  helper' = metered_helper helper

  abbrev client' : Client (Metered S)
  client' = metered_client client

  -- from a state within the budget
  abbrev Affords : ℕ → Next texts helper' client' h query → Type 0
  Affords n m =
      (remaining : ℕ) (history : List LookupRecord) (s : Metered S)
      → s.spent ≡ n
      → Afforded h.max_token_budget (m remaining history s)

  continue-Afforded :
      (n : ℕ) (again : Next texts helper' client' h query)
      (looked : Result (ℕ × List LookupRecord) × Metered S)
      → Affords n again
      → looked.1.spent ≡ n
      → Afforded h.max_token_budget (continue texts helper' client' h query again looked)
  unfolding continue
  continue-Afforded n again (err e, s) g k = tt
  continue-Afforded n again (ok (remaining, history), s) g k = g remaining history s k

  on_lookups-Affords :
      (n : ℕ) (again : Next texts helper' client' h query) (lookups : List LookupRequest)
      → Affords n again
      → Affords n (on_lookups texts helper' client' h query again lookups)
  unfolding on_lookups
  on_lookups-Affords n again lookups g remaining history s k =
      elim (Bool-cases (is_empty lookups)) [
        | inl e ↦ rw e tt
        | inr e ↦ elim (Bool-cases (exceeds (length lookups) h.max_lookups_per_turn)) [
          | inl many ↦ rw (e, many) tt
          | inr few ↦
              rw (e, few)
                (continue-Afforded n again _ g (
                  run_lookups-spent texts helper (total_lookups_limit h) lookups remaining history s
                  ∙ k))
        ]
      ]

  on_action-Affords :
      (n : ℕ) (again : Next texts helper' client' h query) (parsed : TurnResponse)
      → n ≤ h.max_token_budget
      → Affords n again
      → Affords n (on_action texts helper' client' h query again parsed)
  unfolding on_action
  on_action-Affords n again parsed b g remaining history s k =
      elim (Bool-cases (parsed.action == "answer")) [
        | inl e ↦ rw e (build_answer-Afforded _ (build_answer texts parsed.answer) s (omega arith))
        | inr e ↦ elim (Bool-cases (parsed.action == "error")) [
          | inl f ↦ rw (e, f) tt
          | inr f ↦ elim (Bool-cases (parsed.action == "lookup")) [
            | inl l ↦
                rw (e, f, l) (on_lookups-Affords n again parsed.lookups g remaining history s k)
            | inr l ↦ rw (e, f, l) tt
          ]
        ]
      ]

  on_parsed-Affords :
      (n turn : ℕ) (again : Next texts helper' client' h query) (parsed : Result TurnResponse)
      → n ≤ h.max_token_budget
      → Affords n again
      → Affords n (on_parsed texts helper' client' h query turn again parsed)
  unfolding on_parsed
  on_parsed-Affords n turn again (err e) b g remaining history s k = tt
  on_parsed-Affords n turn again (ok parsed) b g remaining history s k =
      on_action-Affords n again parsed b g remaining history _ k

  on_text-Affords :
      (n turn : ℕ) (again : Next texts helper' client' h query) (gen : Generated)
      → n ≤ h.max_token_budget
      → Affords n again
      → Affords n (on_text texts helper' client' h query turn again gen)
  unfolding on_text
  on_text-Affords n turn again gen b g remaining history s k = elim (Bool-cases (gen.text == "")) [
    | inl e ↦ rw e tt
    | inr e ↦
        rw e (
          on_parsed-Affords n turn again (read_response client' gen.text) b g remaining history s k)
  ]

  on_generated-Affords :
      (tokens turn : ℕ) (again : ℕ → Next texts helper' client' h query)
      (generated : Result Generated)
      → tokens ≤ h.max_token_budget
      → cost generated + h.max_token_budget < 2 ^ 31
      → ((used : ℕ) → used ≤ h.max_token_budget → Affords used (again used))
      → Affords
          (tokens + cost generated)
          (on_generated texts helper' client' h query turn tokens again generated)
  unfolding on_generated
  on_generated-Affords tokens turn again (err e) b small g remaining history s k = tt
  on_generated-Affords tokens turn again (ok gen) b small g remaining history s k =
      let used = add_tokens tokens gen.total_token_count in
      elim (Bool-cases (exceeds_int32 used h.max_token_budget)) [
        | inl e ↦ rw e tt
        | inr e ↦
            let (exact, fits) =
              add_tokens-within tokens gen.total_token_count h.max_token_budget b small e in
            let within : used ≤ h.max_token_budget = omega (arith, exact, fits) in
            rw e (
              on_text-Affords used turn (again used) gen within (g used within) remaining history s
                (k ∙ sym exact))
      ]

  run_turns-Affords :
      IsModest client h.max_token_budget
      → (left turn tokens : ℕ) → tokens ≤ h.max_token_budget
      → Affords tokens (run_turns texts helper' client' h query left turn tokens)
  unfolding run_turns
  run_turns-Affords modest zero turn tokens b remaining history s k = tt
  run_turns-Affords modest (suc left) turn tokens b remaining history s k =
      on_generated-Affords tokens turn _ _ b (modest _ _)
        (λ used fits. run_turns-Affords modest left (suc turn) used fits) remaining history _
        (omega (arith, k))

-- A query is only answered while the tokens that the model reported for it, over all turns, are
-- within the budget, a zero standing for the default. Given that no turn reports so many that their
-- sum with the budget leaves an `int32`.
pub handle-Afforded :
    (texts : Texts) {S : Type 0} (helper : Helper S) (client : Client S) (h : GeminiHandler)
    (query : Query) (s : S)
    → IsModest client (settings h).max_token_budget
    → Afforded (settings h).max_token_budget (
        handle texts
          (metered_helper helper)
          (metered_client client)
          h
          query
          (record { spent = 0; inner = s }))
unfolding handle
handle-Afforded texts helper client h query s modest =
    run_turns-Affords texts helper client (settings h) query modest (times (settings h).max_turns) 0
      0 (omega arith) (settings h).max_total_lookups [] _ refl
