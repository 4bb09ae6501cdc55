-- ===== src/Handlers/Gemini.antt =====
-- `GeminiHandler` of handlers/gemini.go. An `int` or `int32` is its bit pattern, a number below 2^64
-- or 2^32; a value is negative from half of that on. The JSON of a turn's input is not modelled: the
-- model gets the input itself, and what it writes is read by a parameter.
pub mod Turns
pub mod Rule
pub mod Limits
pub mod Meter
pub mod Tokens
pub mod Lookups
pub mod Talks
pub mod Told
pub mod Dialogues
pub mod Obeys
use cursedns.Prelude.{
  ℕ, zero, suc, ◌+◌, ◌-◌, ◌%◌, ◌^◌, String, Bool, not, ◌&&◌, ◌||◌, Option, none, some, List, [],
  ◌∷◌, ◌++◌, map, length, is_empty, ltb, ◌==◌, nat_eq, string_eq, to_upper, if◌then◌else◌,
}
use cursedns.Dns.{Rr}
use cursedns.Resolver.Types.{
  Query, Response, NameServer, LookupResult, Error, unknown_query_type, unknown_rcode,
  generate_content, exceeded_token_budget, empty_response, blocked, parse_model_response,
  reported_nothing, no_lookups, no_answer, reported, too_many_lookups, exceeded_lookup_budget,
  unknown_action, exceeded_turns, invalid_answer_record, Result, ok, err, gemini_turn,
  gemini_action,
}
use cursedns.Resolver.Request.{Helper}
use cursedns.Handlers.Texts.{Texts, resolve_tokens}
use cursedns.Handlers.Payload.Unmarshal.{unmarshal}
use cursedns.Handlers.Payload.Schema.{Schema}
use cursedns.Prelude.Json.{Json}
use cursedns.Handlers.Payload.{
  LookupRequest, ResultView, LookupRecord, QueryInfo, Budget, TurnInput, Answer, TurnResponse,
  slice,
}

abbrev pub default_max_turns : ℕ
default_max_turns = 8

abbrev pub default_max_token_budget : ℕ
default_max_token_budget = 100000

abbrev pub default_max_lookups_per_turn : ℕ
default_max_lookups_per_turn = 5

abbrev pub default_max_total_lookups : ℕ
default_max_total_lookups = 50

-- what the handler reads of a response of the API: the tokens, the text, why it was blocked
pub record Generated : Type 0 where
  pub total_token_count : Option ℕ
  pub text : String
  pub block_reason : Option String

-- a request to `GenerateContent`, whose contents are the text of a JSON value
pub record ModelRequest : Type 0 where
  pub model : String
  pub contents : Json
  pub system_instruction : String
  pub response_mime_type : String
  pub response_schema : Schema

-- `GenerateContent` of the client, and the JSON value that a text is
pub record Client (S : Type 0) : Type 0 where
  pub generate : ModelRequest → S → Result Generated × S
  pub read_json : String → Result Json

-- `json.Unmarshal([]byte(text), &parsed)`
unfoldable pub read_response : {S : Type 0} → Client S → String → Result TurnResponse
read_response client text = elim (client.read_json text) [ err e ↦ err e | ok v ↦ unmarshal v ]

pub record GeminiHandler : Type 0 where
  pub model : String
  pub max_turns : ℕ
  pub max_token_budget : ℕ
  pub max_lookups_per_turn : ℕ
  pub max_total_lookups : ℕ

-- a zero setting stands for the default
unfoldable pub or_default : ℕ → ℕ → ℕ
or_default default n = if n == 0 then default else n

unfoldable pub settings : GeminiHandler → GeminiHandler
unfolding or_default
settings h = record {
  model = h.model;
  max_turns = or_default default_max_turns h.max_turns;
  max_token_budget = or_default default_max_token_budget h.max_token_budget;
  max_lookups_per_turn = or_default default_max_lookups_per_turn h.max_lookups_per_turn;
  max_total_lookups = or_default default_max_total_lookups h.max_total_lookups;
}

-- `totalLookupsLimit`
unfoldable pub total_lookups_limit : GeminiHandler → ℕ
unfolding or_default
total_lookups_limit h = or_default default_max_total_lookups h.max_total_lookups

-- how many times a loop up to an `int` runs
unfoldable pub times : ℕ → ℕ
times n = if ltb n (2 ^ 63) then n else 0

-- `n > m` for a length `n` and an `int` `m`
unfoldable pub exceeds : ℕ → ℕ → Bool
exceeds n m = ltb (times m) n || not (ltb m (2 ^ 63))

-- `a > b` and `a - b` for `int32`
unfoldable pub exceeds_int32 : ℕ → ℕ → Bool
exceeds_int32 a b = ltb ((b + 2 ^ 31) % 2 ^ 32) ((a + 2 ^ 31) % 2 ^ 32)

unfoldable pub minus_int32 : ℕ → ℕ → ℕ
minus_int32 a b = (a + (2 ^ 32 - b)) % 2 ^ 32

-- `tokensUsed += …`
unfoldable pub add_tokens : ℕ → Option ℕ → ℕ
add_tokens used none = used
add_tokens used (some n) = (used + n) % 2 ^ 32

module _ (texts : Texts) where
  unfoldable pub parse_records : List String → Result (List Rr)
  parse_records [] = ok []
  parse_records (s ∷ ss) = elim (texts.new_rr s) [
    | err e ↦ err (invalid_answer_record s e)
    | ok rr ↦ elim (parse_records ss) [ err e ↦ err e | ok rrs ↦ ok (rr ∷ rrs) ]
  ]

  -- `buildGeminiAnswerResponse`
  unfoldable pub build_answer : Option Answer → Result Response
  build_answer none = err no_answer
  build_answer (some answer) = elim (texts.string_to_rcode (to_upper answer.rcode)) [
    | none ↦ err (unknown_rcode answer.rcode)
    | some rcode ↦ elim (parse_records answer.records) [
      | err e ↦ err e
      | ok rrs ↦ ok (record { rcode = rcode; answer = rrs; ns = []; extra = [] })
    ]
  ]

  -- `rrsToStrings`
  unfoldable pub rrs_to_strings : List Rr → List String
  rrs_to_strings = map texts.rr_to_string

  -- the view of a lookup's result
  unfoldable pub view_of : LookupResult → ResultView
  view_of r = record {
    rcode = texts.rcode_to_string r.rcode;
    answer = rrs_to_strings r.answer;
    ns = rrs_to_strings r.ns;
    extra = rrs_to_strings r.extra;
  }

  unfoldable pub failed : LookupRequest → Error → LookupRecord
  failed req e = record { request = req; view = none; error = texts.error_text e }

  unfoldable pub looked_up : LookupRequest → Result LookupResult → LookupRecord
  looked_up req (err e) = failed req e
  looked_up req (ok r) = record { request = req; view = some (view_of r); error = "" }

  module _ {S : Type 0} (helper : Helper S) where
    -- `performLookup`
    unfoldable pub lookup_with : LookupRequest → ℕ → Result (List NameServer) → S → LookupRecord × S
    lookup_with req qtype (err e) s = (failed req e, s)
    lookup_with req qtype (ok servers) s =
        let (result, s') = helper.lookup req.name qtype req.zone servers s in
        (looked_up req result, s')

    unfoldable pub lookup_typed : LookupRequest → Option ℕ → S → LookupRecord × S
    lookup_typed req none s = (failed req (unknown_query_type req.qtype), s)
    lookup_typed req (some qtype) s =
        lookup_with req qtype (resolve_tokens texts helper.root_hints (slice req.nameservers)) s

    unfoldable pub perform_lookup : LookupRequest → S → LookupRecord × S
    perform_lookup req = lookup_typed req (texts.string_to_type (to_upper req.qtype))

    -- the loop over the lookups of a turn: what remains, and the history
    unfoldable pub run_lookups :
        ℕ → List LookupRequest → ℕ → List LookupRecord → S → Result (ℕ × List LookupRecord) × S
    run_lookups limit [] remaining history s = (ok (remaining, history), s)
    run_lookups limit (req ∷ reqs) remaining history s =
        let (done, s') = perform_lookup req s in
        let rest = run_lookups limit reqs (remaining - 1) (history ++ done ∷ []) s' in
        if ltb 0 (times remaining) then rest else (err (exceeded_lookup_budget limit), s)
