-- ===== src/Handlers/Gemini/Turns.antt =====
-- The turns of `GeminiHandler.Handle` in handlers/gemini.go, and `Handle` itself.
use cursedns.Prelude.{
  ℕ, zero, suc, ◌+◌, ◌-◌, String, Option, none, some, List, [], length, is_empty, ◌==◌, string_eq,
  if◌then◌else◌,
}
use cursedns.Resolver.Types.{
  Query, Response, Error, generate_content, exceeded_token_budget, empty_response, blocked,
  parse_model_response, reported_nothing, no_lookups, reported, too_many_lookups, unknown_action,
  exceeded_turns, Result, ok, err, gemini_turn, gemini_action,
}
use cursedns.Resolver.Request.{Helper}
use cursedns.Handlers.Texts.{Texts}
use cursedns.Handlers.Payload.{LookupRequest, LookupRecord, TurnInput, TurnResponse}
use cursedns.Handlers.Payload.Marshal.{marshal}
use cursedns.Handlers.Payload.Schema.{system_prompt, response_schema}
use cursedns.Handlers.Gemini.{
  Generated, ModelRequest, Client, read_response, total_lookups_limit, GeminiHandler, settings,
  times, exceeds, exceeds_int32, minus_int32, add_tokens, build_answer, run_lookups,
}

-- the error of a response without text
unfoldable pub reason : Option String → Error
reason none = empty_response
reason (some text) = if text == "" then empty_response else blocked text

-- `h` are the settings in force
module _ (texts : Texts) {S : Type 0} (helper : Helper S) (client : Client S) (h : GeminiHandler)
    (query : Query) where
  -- what goes on with the lookups that remain and the history
  abbrev pub Next : Type 0
  Next = ℕ → List LookupRecord → S → Result Response × S

  unfoldable pub input : ℕ → ℕ → ℕ → List LookupRecord → TurnInput
  input turn tokens remaining history = record {
    query = record {
      name = query.name;
      qtype = texts.type_to_string query.qtype;
      class = texts.class_to_string query.class;
    };
    lookups_so_far = history;
    budget = record {
      turns_remaining = h.max_turns - turn;
      token_budget_remaining = minus_int32 h.max_token_budget tokens;
      lookups_remaining = remaining;
      max_lookups_per_turn = h.max_lookups_per_turn;
    };
  }

  unfoldable pub model_request : ℕ → ℕ → ℕ → List LookupRecord → ModelRequest
  model_request turn tokens remaining history = record {
    model = h.model;
    contents = marshal (input turn tokens remaining history);
    system_instruction = system_prompt;
    response_mime_type = "application/json";
    response_schema = response_schema;
  }

  unfoldable pub continue : Next → Result (ℕ × List LookupRecord) × S → Result Response × S
  continue again (err e, s) = (err e, s)
  continue again (ok (remaining, history), s) = again remaining history s

  -- `case "lookup"`
  unfoldable pub on_lookups : Next → List LookupRequest → Next
  on_lookups again lookups remaining history s =
      if is_empty lookups
      then (err no_lookups, s)
      else if exceeds (length lookups) h.max_lookups_per_turn
      then (err (too_many_lookups (length lookups) h.max_lookups_per_turn), s)
      else continue again
          (run_lookups texts helper (total_lookups_limit h) lookups remaining history s)

  -- the `switch` on the action
  unfoldable pub on_action : Next → TurnResponse → Next
  on_action again parsed remaining history s =
      if parsed.action == "answer"
      then (build_answer texts parsed.answer, s)
      else if parsed.action == "error"
      then (err (if parsed.error == "" then reported_nothing else reported parsed.error), s)
      else if parsed.action == "lookup"
      then on_lookups again parsed.lookups remaining history s
      else (err (unknown_action parsed.action), s)

  unfoldable pub on_parsed : ℕ → Next → Result TurnResponse → Next
  on_parsed turn again (err e) remaining history s = (err (parse_model_response e), s)
  on_parsed turn again (ok parsed) remaining history s =
      on_action again parsed remaining history
        (helper.trace (gemini_action (turn + 1) h.max_turns parsed.action parsed.rationale) s)

  -- what follows the check of the tokens
  unfoldable pub on_text : ℕ → Next → Generated → Next
  on_text turn again g remaining history s =
      if g.text == ""
      then (err (reason g.block_reason), s)
      else on_parsed turn again (read_response client g.text) remaining history s

  -- what follows `GenerateContent`; `again` takes the tokens used
  unfoldable pub on_generated : ℕ → ℕ → (ℕ → Next) → Result Generated → Next
  on_generated turn tokens again (err e) remaining history s = (err (generate_content e), s)
  on_generated turn tokens again (ok g) remaining history s =
      let used = add_tokens tokens g.total_token_count in
      if exceeds_int32 used h.max_token_budget
      then (err (exceeded_token_budget used h.max_token_budget), s)
      else on_text turn (again used) g remaining history s

  -- the loop, with the number of turns that it has left
  unfoldable pub run_turns : ℕ → ℕ → ℕ → Next
  run_turns zero turn tokens remaining history s = (err (exceeded_turns h.max_turns), s)
  run_turns (suc left) turn tokens remaining history s =
      let s' = helper.trace (gemini_turn (turn + 1) h.max_turns tokens h.max_token_budget) s in
      let (generated, s'') = client.generate (model_request turn tokens remaining history) s' in
      on_generated turn tokens (run_turns left (suc turn)) generated remaining history s''

-- `Handle`
unfoldable pub handle :
    Texts → {S : Type 0} → Helper S → Client S → GeminiHandler → Query → S → Result Response × S
handle texts helper client h query s =
    let set = settings h in
    run_turns texts helper client set query (times set.max_turns) 0 0 set.max_total_lookups [] s

-- All of the handler, to be named on one `unfolding` line where a run is computed.
unfoldable pub gemini_program : Unit {0}
unfolding settings times exceeds exceeds_int32 minus_int32 add_tokens build_answer run_lookups
    reason input model_request read_response continue on_lookups on_action on_parsed on_text
    on_generated run_turns handle
gemini_program = tt
