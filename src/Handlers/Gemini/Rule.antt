-- ===== src/Handlers/Gemini/Rule.antt =====
-- An induction rule for `GeminiHandler.Handle`: what its calls keep, with the turns and the lookups
-- that are left, holds at the end.
use cursedns.Prelude.{
  ℕ, zero, suc, ◌-◌, ◌≡◌, subst, String, true, inl, inr, Bool-cases, List, [], ◌∷◌, ltb, length,
  is_empty, ◌==◌, string_eq, arith, Option, none, some,
}
use cursedns.Resolver.Types.{Query, NameServer, Event, Result, ok, err}
use cursedns.Resolver.Request.{Helper}
use cursedns.Handlers.Texts.{Texts}
use cursedns.Handlers.Payload.{LookupRequest, LookupRecord, TurnResponse}
use cursedns.Handlers.Gemini.{
  Generated, ModelRequest, Client, read_response, total_lookups_limit, GeminiHandler, settings,
  times, exceeds, exceeds_int32, add_tokens, lookup_with, lookup_typed, perform_lookup, run_lookups,
}
use cursedns.Handlers.Gemini.Turns.{
  Next, continue, on_lookups, on_action, on_parsed, on_text, on_generated, run_turns, handle,
}

-- `I turns lookups s`: with so many of both left
pub record Rule {S : Type 0} (helper : Helper S) (client : Client S) (I : ℕ → ℕ → S → Type 0)
    : Type 0 where
  pub lookup_keeps :
      (turns lookups : ℕ) (name : String) (qtype : ℕ) (zone : String) (servers : List NameServer)
      (s : S)
      → I turns (suc lookups) s
      → I turns lookups (helper.lookup name qtype zone servers s).1
  pub generate_keeps :
      (turns lookups : ℕ) (given : ModelRequest) (s : S)
      → I (suc turns) lookups s
      → I turns lookups (client.generate given s).1
  pub trace_keeps :
      (turns lookups : ℕ) (event : Event) (s : S)
      → I turns lookups s
      → I turns lookups (helper.trace event s)
  -- a call that is not made is no loss
  pub spare_keeps : (turns lookups : ℕ) (s : S) → I turns (suc lookups) s → I turns lookups s

pub times_pred : (n : ℕ) → ltb 0 (times n) ≡ true → times n ≡ suc (times (n - 1))
unfolding times
times_pred n h = ground arith

module _ (texts : Texts) {S : Type 0} (helper : Helper S) (client : Client S)
    (I : ℕ → ℕ → S → Type 0) (rule : Rule helper client I) where
  lookup_with-keeps :
      (turns lookups : ℕ) (req : LookupRequest) (qtype : ℕ) (servers : Result (List NameServer))
      (s : S)
      → I turns (suc lookups) s
      → I turns lookups (lookup_with texts helper req qtype servers s).1
  unfolding lookup_with
  lookup_with-keeps turns lookups req qtype (err e) s i = rule.spare_keeps turns lookups s i
  lookup_with-keeps turns lookups req qtype (ok servers) s i =
      rule.lookup_keeps turns lookups req.name qtype req.zone servers s i

  lookup_typed-keeps :
      (turns lookups : ℕ) (req : LookupRequest) (qtype : Option ℕ) (s : S)
      → I turns (suc lookups) s
      → I turns lookups (lookup_typed texts helper req qtype s).1
  unfolding lookup_typed
  lookup_typed-keeps turns lookups req none s i = rule.spare_keeps turns lookups s i
  lookup_typed-keeps turns lookups req (some qtype) s i =
      lookup_with-keeps turns lookups req qtype _ s i

  -- after the lookups of a turn
  abbrev Looked : ℕ → Result (ℕ × List LookupRecord) × S → Type 0
  Looked turns (err e, s) = (lookups : ℕ) × I turns lookups s
  Looked turns (ok (remaining, history), s) = I turns (times remaining) s

  run_lookups-Looked :
      (turns limit : ℕ) (reqs : List LookupRequest) (remaining : ℕ) (history : List LookupRecord)
      (s : S)
      → I turns (times remaining) s
      → Looked turns (run_lookups texts helper limit reqs remaining history s)
  unfolding run_lookups perform_lookup
  run_lookups-Looked turns limit [] remaining history s i = i
  run_lookups-Looked turns limit (req ∷ reqs) remaining history s i =
      elim (Bool-cases (ltb 0 (times remaining))) [
        | inl left ↦ rw left (
            run_lookups-Looked turns limit reqs (remaining - 1) _ _ (
              lookup_typed-keeps turns (times (remaining - 1)) req _ s
                (subst (λ n. I turns n s) (times_pred remaining left) i)))
        | inr spent ↦ rw spent (times remaining, i)
      ]

  -- at the end
  abbrev pub Kept : S → Type 0
  Kept s = (turns : ℕ) × (lookups : ℕ) × I turns lookups s

  module _ (h : GeminiHandler) (query : Query) where
    abbrev Goes : ℕ → Next texts helper client h query → Type 0
    Goes turns m =
        (remaining : ℕ) (history : List LookupRecord) (s : S)
        → I turns (times remaining) s
        → Kept (m remaining history s).1

    continue-Kept :
        (turns : ℕ) (again : Next texts helper client h query)
        (looked : Result (ℕ × List LookupRecord) × S)
        → Goes turns again
        → Looked turns looked
        → Kept (continue texts helper client h query again looked).1
    unfolding continue
    continue-Kept turns again (err e, s) g (lookups, i) = (turns, lookups, i)
    continue-Kept turns again (ok (remaining, history), s) g i = g remaining history s i

    on_lookups-Goes :
        (turns : ℕ) (again : Next texts helper client h query) (lookups : List LookupRequest)
        → Goes turns again
        → Goes turns (on_lookups texts helper client h query again lookups)
    unfolding on_lookups
    on_lookups-Goes turns again lookups g remaining history s i =
        elim (Bool-cases (is_empty lookups)) [
          | inl e ↦ rw e (turns, times remaining, i)
          | inr e ↦ elim (Bool-cases (exceeds (length lookups) h.max_lookups_per_turn)) [
            | inl many ↦ rw (e, many) (turns, times remaining, i)
            | inr few ↦
                rw (e, few)
                  (continue-Kept turns again _ g (
                    run_lookups-Looked turns (total_lookups_limit h) lookups remaining history s i))
          ]
        ]

    on_action-Goes :
        (turns : ℕ) (again : Next texts helper client h query) (parsed : TurnResponse)
        → Goes turns again
        → Goes turns (on_action texts helper client h query again parsed)
    unfolding on_action
    on_action-Goes turns again parsed g remaining history s i =
        elim (Bool-cases (parsed.action == "answer")) [
          | inl e ↦ rw e (turns, times remaining, i)
          | inr e ↦ elim (Bool-cases (parsed.action == "error")) [
            | inl f ↦ rw (e, f) (turns, times remaining, i)
            | inr f ↦ elim (Bool-cases (parsed.action == "lookup")) [
              | inl k ↦
                  rw (e, f, k) (on_lookups-Goes turns again parsed.lookups g remaining history s i)
              | inr k ↦ rw (e, f, k) (turns, times remaining, i)
            ]
          ]
        ]

    on_parsed-Goes :
        (turns turn : ℕ) (again : Next texts helper client h query) (parsed : Result TurnResponse)
        → Goes turns again
        → Goes turns (on_parsed texts helper client h query turn again parsed)
    unfolding on_parsed
    on_parsed-Goes turns turn again (err e) g remaining history s i = (turns, times remaining, i)
    on_parsed-Goes turns turn again (ok parsed) g remaining history s i =
        on_action-Goes turns again parsed g remaining history _
          (rule.trace_keeps turns (times remaining) _ s i)

    on_text-Goes :
        (turns turn : ℕ) (again : Next texts helper client h query) (g : Generated)
        → Goes turns again
        → Goes turns (on_text texts helper client h query turn again g)
    unfolding on_text
    on_text-Goes turns turn again g goes remaining history s i = elim (Bool-cases (g.text == "")) [
      | inl e ↦ rw e (turns, times remaining, i)
      | inr e ↦
          rw e (
            on_parsed-Goes turns turn again (read_response client g.text) goes remaining history s
              i)
    ]

    on_generated-Goes :
        (turns turn tokens : ℕ) (again : ℕ → Next texts helper client h query)
        (generated : Result Generated)
        → ((used : ℕ) → Goes turns (again used))
        → Goes turns (on_generated texts helper client h query turn tokens again generated)
    unfolding on_generated
    on_generated-Goes turns turn tokens again (err e) goes remaining history s i =
        (turns, times remaining, i)
    on_generated-Goes turns turn tokens again (ok g) goes remaining history s i =
        let used = add_tokens tokens g.total_token_count in
        elim (Bool-cases (exceeds_int32 used h.max_token_budget)) [
          | inl e ↦ rw e (turns, times remaining, i)
          | inr e ↦ rw e (on_text-Goes turns turn (again used) g (goes used) remaining history s i)
        ]

    run_turns-Goes :
        (left turn tokens : ℕ) → Goes left (run_turns texts helper client h query left turn tokens)
    unfolding run_turns
    run_turns-Goes zero turn tokens remaining history s i = (zero, times remaining, i)
    run_turns-Goes (suc left) turn tokens remaining history s i =
        on_generated-Goes left turn tokens _ _ (run_turns-Goes left (suc turn)) remaining history _
          (rule.generate_keeps left (times remaining) _ _
            (rule.trace_keeps (suc left) (times remaining) _ s i))

  pub handle_rule :
      (h : GeminiHandler) (query : Query) (s : S)
      → I (times (settings h).max_turns) (times (settings h).max_total_lookups) s
      → Kept (handle texts helper client h query s).1
  unfolding handle
  handle_rule h query s i =
      run_turns-Goes (settings h) query (times (settings h).max_turns) 0 0
        (settings h).max_total_lookups [] s i
