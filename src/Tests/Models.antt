-- ===== src/Tests/Models.antt =====
-- A dialogue of two turns with a model, and the theorem on dialogues at it.
use cursedns.Prelude.{◌≡◌, ◌↔◌, refl, [], arith, equal_fold, to_lower}
use cursedns.Resolver.Types.{Response, ok}
use cursedns.Handlers.Texts.{resolve_tokens, add_servers}
use cursedns.Handlers.Gemini.{
  settings, times, exceeds, exceeds_int32, add_tokens, build_answer, parse_records, or_default,
  minus_int32, read_response, perform_lookup, lookup_typed, lookup_with, looked_up, view_of,
}
use cursedns.Handlers.Payload.Marshal.{
  marshal, query_json, history_json, record_json, request_json, slice_json, texts_json,
  result_member, view_json, unless_empty, unless_blank, budget_json, signed,
}
use cursedns.Handlers.Payload.Unmarshal.{
  unmarshal, struct_into, fold_members, response_field, text_into, pointer_into, answer_field,
  texts_from, slice_from, each_from, request_from, request_field,
}
use cursedns.Handlers.Gemini.Turns.{input, model_request, handle, gemini_program}
use cursedns.Handlers.Gemini.Meter.{metered_helper, metered_client}
use cursedns.Handlers.Gemini.Lookups.{perform_all}
use cursedns.Handlers.Gemini.Talks.{Talks, hears, asks, answers}
use cursedns.Handlers.Gemini.Dialogues
use cursedns.Samples.Network.{www}
use cursedns.Samples.Models.{texts, counter, decided, decided_response, three_lookups}

abbrev empty_answer : Response
empty_answer = record { rcode = 0; answer = []; ns = []; extra = [] }

two_turns :
    Talks texts counter decided
      (settings three_lookups)
      www
      (times (settings three_lookups).max_turns)
      0
      0
      (settings three_lookups).max_total_lookups
      []
      0
      empty_answer
      1
unfolding settings or_default times exceeds exceeds_int32 add_tokens minus_int32 build_answer
    parse_records read_response input model_request marshal query_json history_json record_json
    request_json slice_json texts_json result_member view_json unless_empty unless_blank budget_json
    signed unmarshal struct_into fold_members response_field text_into pointer_into answer_field
    texts_from slice_from each_from request_from request_field perform_all perform_lookup
    lookup_typed lookup_with looked_up view_of resolve_tokens add_servers equal_fold to_lower
two_turns =
    asks (decided_response "lookup") (hears _ (decided_response "lookup") 0 refl refl refl refl)
      refl refl refl (omega arith)
      (answers (decided_response "answer")
        (hears _ (decided_response "answer") 1 refl refl refl refl) refl refl)

handle-Talks_example :
    (handle texts counter decided three_lookups www 0 ≡ (ok empty_answer, 1))
    ↔ Talks texts counter decided
        (settings three_lookups)
        www
        (times (settings three_lookups).max_turns)
        0
        0
        (settings three_lookups).max_total_lookups
        []
        0
        empty_answer
        1
handle-Talks_example =
    Dialogues.handle-Talks texts counter decided three_lookups www 0 1 empty_answer

-- the tokens of this run, whose answer is within the budget
answered_within :
    let answered =
      handle texts
        (metered_helper counter)
        (metered_client decided)
        three_lookups
        www
        (record { spent = 0; inner = 0 }) in
    (answered.0 ≡ ok empty_answer) × (answered.1.spent ≡ 200)
unfolding gemini_program settings or_default times exceeds exceeds_int32 add_tokens minus_int32
    build_answer parse_records read_response input model_request marshal query_json history_json
    record_json request_json slice_json texts_json result_member view_json unless_empty unless_blank
    budget_json signed unmarshal struct_into fold_members response_field text_into pointer_into
    answer_field texts_from slice_from each_from request_from request_field perform_all
    perform_lookup lookup_typed lookup_with looked_up view_of resolve_tokens add_servers equal_fold
    to_lower
answered_within = (refl, refl)
