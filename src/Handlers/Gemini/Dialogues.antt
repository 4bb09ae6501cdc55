-- ===== src/Handlers/Gemini/Dialogues.antt =====
-- `GeminiHandler.Handle` of handlers/gemini.go has just the dialogues that end in an answer.
use cursedns.Prelude.{
  ℕ, suc, ◌-◌, ◌≤◌, String, true, false, ◌≡◌, refl, sym, eq_iff, subst, ◌∙◌, ◌↔◌, List, [], ◌++◌,
  length, is_empty, ◌==◌, string_eq,
}
use cursedns.Resolver.Types.{Query, Response, ok}
use cursedns.Resolver.Request.{Helper}
use cursedns.Handlers.Texts.{Texts}
use cursedns.Handlers.Payload.{LookupRequest, LookupRecord, TurnResponse}
use cursedns.Handlers.Gemini.{Client, GeminiHandler, total_lookups_limit, settings, times, exceeds}
use cursedns.Handlers.Gemini.Turns.{
  Next, continue, on_lookups, on_action, on_parsed, on_text, on_generated, run_turns, handle,
}
use cursedns.Handlers.Gemini.Lookups.{perform_all, run_lookups-perform_all}
use cursedns.Handlers.Gemini.Talks.{Hears, hears, Talks, answers, asks}
use cursedns.Handlers.Gemini.Told.{Told-ok, run_turns-Told}

only_lookup :
    (action : String)
    → (action == "lookup") ≡ true
    → ((action == "answer") ≡ false) × ((action == "error") ≡ false)
only_lookup action e =
    subst (λ a. ((a == "answer") ≡ false) × ((a == "error") ≡ false))
      (sym ((eq_iff action "lookup").0 e)) (refl, refl)

module _ (texts : Texts) {S : Type 0} (helper : Helper S) (client : Client S) (h : GeminiHandler)
    (query : Query) where
  run_turns-Hears :
      (left : ℕ) {turn tokens remaining used : ℕ} {history : List LookupRecord} {s : S}
      {parsed : TurnResponse} {s' : S}
      → Hears texts helper client h query turn tokens remaining history s parsed used s'
      → run_turns texts helper client h query (suc left) turn tokens remaining history s
        ≡ on_action texts helper client h query
            (run_turns texts helper client h query left (suc turn) used)
            parsed
            remaining
            history
            s'
  unfolding run_turns on_generated on_text on_parsed
  run_turns-Hears left (hears g parsed s' said fits text means) = rw (said, fits, text, means) refl

  on_lookups-perform_all :
      (again : Next texts helper client h query) (lookups : List LookupRequest) (remaining : ℕ)
      (history : List LookupRecord) (s : S)
      → is_empty lookups ≡ false
      → exceeds (length lookups) h.max_lookups_per_turn ≡ false
      → length lookups ≤ times remaining
      → on_lookups texts helper client h query again lookups remaining history s
        ≡ again
            (remaining - length lookups)
            (history ++ (perform_all texts helper lookups s).0)
            (perform_all texts helper lookups s).1
  unfolding on_lookups continue
  on_lookups-perform_all again lookups remaining history s f few afforded =
      rw
        (
          f,
          few,
          run_lookups-perform_all texts helper (total_lookups_limit h) lookups remaining history s
              afforded,
        )
        refl

  -- a dialogue is followed
  run_turns-Talks :
      {left turn tokens remaining : ℕ} {history : List LookupRecord} {s t : S} {resp : Response}
      → Talks texts helper client h query left turn tokens remaining history s resp t
      → run_turns texts helper client h query left turn tokens remaining history s ≡ (ok resp, t)
  unfolding on_action
  run_turns-Talks (answers {left} parsed heard e built) =
      run_turns-Hears left heard ∙ rw (e, built) refl
  run_turns-Talks (asks {left} parsed heard e f few afforded talk) =
      let (no_answer, no_error) = only_lookup parsed.action e in
      run_turns-Hears left heard
      ∙ rw (no_answer, no_error, e)
          (on_lookups-perform_all _ parsed.lookups _ _ _ f few afforded ∙ run_turns-Talks talk)

-- `Handle` returns a response and leaves a state just where a dialogue with the model ends in them,
-- within the turns and with the lookups of the settings: each answer of the model is read and within
-- the budget of tokens; each but the last asks for some lookups, no more than a turn may and no more
-- than are left, which are made in order and added to the history that the model is given next; the
-- last answers, and its records are the response.
pub handle-Talks :
    (texts : Texts) {S : Type 0} (helper : Helper S) (client : Client S) (h : GeminiHandler)
    (query : Query) (s t : S) (resp : Response)
    → (handle texts helper client h query s ≡ (ok resp, t))
      ↔ Talks texts helper client
          (settings h)
          query
          (times (settings h).max_turns)
          0
          0
          (settings h).max_total_lookups
          []
          s
          resp
          t
unfolding handle
handle-Talks texts helper client h query s t resp = (
  λ e.
      Told-ok
        (Talks texts helper client (settings h) query (times (settings h).max_turns) 0 0
          (settings h).max_total_lookups [] s)
        _ resp t
        (run_turns-Told texts helper client (settings h) query (times (settings h).max_turns) 0 0
          (settings h).max_total_lookups [] s)
        e,
  λ talk. run_turns-Talks texts helper client (settings h) query talk,
)
