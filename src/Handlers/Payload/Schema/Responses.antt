-- ===== src/Handlers/Payload/Schema/Responses.antt =====
-- `json.Unmarshal` in handlers/gemini.go reads every response that the schema of the responses
-- allows.
use cursedns.Prelude.{◌≡◌, refl, In, here, there, equal_fold, to_lower, string_eq}
use cursedns.Prelude.Json.{Json}
use cursedns.Resolver.Types.{ok}
use cursedns.Handlers.Payload.{TurnResponse}
use cursedns.Handlers.Payload.Unmarshal.{
  request_field, zero_request, answer_field, zero_answer, response_field, zero_response,
  request_from, unmarshal,
}
use cursedns.Handlers.Payload.Schema.{
  first, later, Conforms, actions, answer_properties, request_properties, request_schema,
  response_properties, response_schema,
}
use cursedns.Handlers.Payload.Schema.Reads.{
  Reads, text_into-any, text_into-one_of, slice_from-Reads, texts_from-Reads, ReadsFields,
  other_field, struct_into-Fit, pointer_into-Fit,
}

request_field-Reads : ReadsFields request_field request_properties "name" (λ r. Unit)
unfolding request_field equal_fold to_lower
request_field-Reads _ _ v a first c =
    let (s, e) = text_into-any v a.name c in (record a { name = s }, rw e refl, λ i. i, λ p. tt)
request_field-Reads _ _ v a (later first) c =
    other_field request_field request_properties "name" (λ r. Unit) "qtype" a _ _
      (text_into-any v a.qtype c) (λ s i. i) refl
request_field-Reads _ _ v a (later (later first)) c =
    other_field request_field request_properties "name" (λ r. Unit) "zone" a _ _
      (text_into-any v a.zone c) (λ s i. i) refl
request_field-Reads _ _ v a (later (later (later first))) c =
    other_field request_field request_properties "name" (λ r. Unit) "nameservers" a _ _
      (texts_from-Reads v c) (λ s i. i) refl
request_field-Reads _ _ v a (later (later (later (later x)))) c = elim x [ ]

request_from-Reads : (v : Json) → Conforms request_schema v → Reads (request_from v)
unfolding request_from
request_from-Reads v c =
    let (r, e, i) =
      struct_into-Fit request_field request_properties "name" (λ r. Unit) v zero_request
        request_field-Reads (here refl) c in
    (r, e)

answer_field-Reads : ReadsFields answer_field answer_properties "rcode" (λ a. Unit)
unfolding answer_field equal_fold to_lower
answer_field-Reads _ _ v a first c =
    let (s, e) = text_into-any v a.rcode c in (record a { rcode = s }, rw e refl, λ i. i, λ p. tt)
answer_field-Reads _ _ v a (later first) c =
    other_field answer_field answer_properties "rcode" (λ a. Unit) "records" a _ _
      (texts_from-Reads v c) (λ s i. i) refl
answer_field-Reads _ _ v a (later (later x)) c = elim x [ ]

-- the action is one of those that the schema names
abbrev Named : TurnResponse → Type 0
Named r = In r.action actions

response_field-Reads : ReadsFields response_field response_properties "action" Named
unfolding response_field equal_fold to_lower
response_field-Reads _ _ v r first c =
    other_field response_field response_properties "action" Named "rationale" r _ _
      (text_into-any v r.rationale c) (λ s i. i) refl
response_field-Reads _ _ v r (later first) c =
    let (s, e, i) = text_into-one_of v r.action c in
    (record r { action = s }, rw e refl, λ old. i, λ p. i)
response_field-Reads _ _ v r (later (later first)) c =
    other_field response_field response_properties "action" Named "answer" r _ _
      (pointer_into-Fit answer_field answer_properties "rcode" (λ a. Unit) zero_answer v r.answer
        answer_field-Reads c)
      (λ s i. i) refl
response_field-Reads _ _ v r (later (later (later first))) c =
    other_field response_field response_properties "action" Named "error" r _ _
      (text_into-any v r.error c) (λ s i. i) refl
response_field-Reads _ _ v r (later (later (later (later first)))) c =
    other_field response_field response_properties "action" Named "lookups" r _ _
      (slice_from-Reads request_from v c request_from-Reads) (λ s i. i) refl
response_field-Reads _ _ v r (later (later (later (later (later x))))) c = elim x [ ]

-- Every JSON value that the schema of the responses allows, its members in any order and some of them
-- perhaps twice, is read without an error, and its action is one of those that the schema names.
pub unmarshal-Conforms :
    (v : Json)
    → Conforms response_schema v
    → (r : TurnResponse) × (unmarshal v ≡ ok r) × In r.action actions
unfolding unmarshal
unmarshal-Conforms v c =
    struct_into-Fit response_field response_properties "action" Named v zero_response
      response_field-Reads (there (here refl)) c
