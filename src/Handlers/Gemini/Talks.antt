-- ===== src/Handlers/Gemini/Talks.antt =====
-- The dialogues with the model that end in an answer, as a relation that does not mention the loops
-- of handlers/gemini.go.
use cursedns.Prelude.{
  ℕ, suc, ◌+◌, ◌-◌, ◌≤◌, true, false, ◌≡◌, List, ◌++◌, length, is_empty, ◌==◌, string_eq,
}
use cursedns.Resolver.Types.{Query, Response, ok, gemini_turn, gemini_action}
use cursedns.Resolver.Request.{Helper}
use cursedns.Handlers.Texts.{Texts}
use cursedns.Handlers.Payload.{LookupRecord, TurnResponse}
use cursedns.Handlers.Gemini.{
  Generated, Client, read_response, GeminiHandler, times, exceeds, exceeds_int32, add_tokens,
  build_answer,
}
use cursedns.Handlers.Gemini.Turns.{model_request}
use cursedns.Handlers.Gemini.Lookups.{perform_all}

module _ (texts : Texts) {S : Type 0} (helper : Helper S) (client : Client S) (h : GeminiHandler)
    (query : Query) where
  -- In a turn with so many tokens used before, the model is heard to say something, the tokens used
  -- are within the budget, and a state is reached.
  pub data Hears (turn tokens remaining : ℕ) (history : List LookupRecord) (s : S)
      : TurnResponse → ℕ → S → Type 0 where
    hears :
        (g : Generated) (parsed : TurnResponse) (s' : S)
        → client.generate
            (model_request texts helper client h query turn tokens remaining history)
            (helper.trace (gemini_turn (turn + 1) h.max_turns tokens h.max_token_budget) s)
          ≡ (ok g, s')
        → exceeds_int32 (add_tokens tokens g.total_token_count) h.max_token_budget ≡ false
        → (g.text == "") ≡ false
        → read_response client g.text ≡ ok parsed
        → Hears turn tokens remaining history s parsed
            (add_tokens tokens g.total_token_count)
            (helper.trace (gemini_action (turn + 1) h.max_turns parsed.action parsed.rationale) s')

  -- With so many turns left, the dialogue ends in a response and a state.
  pub data Talks : ℕ → ℕ → ℕ → ℕ → List LookupRecord → S → Response → S → Type 0 where
    -- the model answers
    answers :
        {left turn tokens remaining used : ℕ} {history : List LookupRecord} {s t : S}
        {resp : Response} (parsed : TurnResponse)
        → Hears turn tokens remaining history s parsed used t
        → (parsed.action == "answer") ≡ true
        → build_answer texts parsed.answer ≡ ok resp
        → Talks (suc left) turn tokens remaining history s resp t
    -- it asks for lookups, which are afforded, and their results are added to the history
    asks :
        {left turn tokens remaining used : ℕ} {history : List LookupRecord} {s s' t : S}
        {resp : Response} (parsed : TurnResponse)
        → Hears turn tokens remaining history s parsed used s'
        → (parsed.action == "lookup") ≡ true
        → is_empty parsed.lookups ≡ false
        → exceeds (length parsed.lookups) h.max_lookups_per_turn ≡ false
        → length parsed.lookups ≤ times remaining
        → Talks left
            (suc turn)
            used
            (remaining - length parsed.lookups)
            (history ++ (perform_all texts helper parsed.lookups s').0)
            (perform_all texts helper parsed.lookups s').1
            resp
            t
        → Talks (suc left) turn tokens remaining history s resp t
