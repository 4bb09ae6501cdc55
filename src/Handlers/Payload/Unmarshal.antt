-- ===== src/Handlers/Payload/Unmarshal.antt =====
-- A response of the model as `json.Unmarshal` in handlers/gemini.go reads it. A key stands for the
-- field of that name in any letter case, later members count more than earlier ones, other members
-- are skipped, and null leaves a text or a struct as it is. One thing differs: where an object has the
-- key of an array twice, encoding/json decodes the second array over the elements of the first, and
-- here it starts from zero values.
use cursedns.Prelude.{String, Option, none, some, List, [], ◌∷◌, equal_fold, if◌then◌else◌}
use cursedns.Prelude.Json.{Json, null, text, array, object, items, members}
use cursedns.Resolver.Types.{Error, external, Result, ok, err}
use cursedns.Handlers.Payload.{LookupRequest, Answer, TurnResponse}

-- `json.UnmarshalTypeError`
abbrev pub wrong_type : Error
wrong_type = external "json: cannot unmarshal"

abbrev pub map_ok : {A B : Type 0} → (A → B) → Result A → Result B
map_ok f (ok a) = ok (f a)
map_ok f (err e) = err e

unfoldable pub text_into : Json → String → Result String
text_into null old = ok old
text_into (text s) old = ok s
text_into _ old = err wrong_type

-- a list, element by element
unfoldable pub each_from : {A : Type 0} → (Json → Result A) → List Json → Result (List A)
each_from from [] = ok []
each_from from (v ∷ vs) = elim (from v) [
  | err e ↦ err e
  | ok a ↦ map_ok (λ rest. a ∷ rest) (each_from from vs)
]

unfoldable pub slice_from : {A : Type 0} → (Json → Result A) → Json → Result (Option (List A))
slice_from from null = ok none
slice_from from (array vs) = map_ok some (each_from from (items vs))
slice_from from _ = err wrong_type

abbrev pub list_of : {A : Type 0} → Option (List A) → List A
list_of none = []
list_of (some as') = as'

-- the members of an object, in their order
unfoldable pub fold_members :
    {A : Type 0} → (String → Json → A → Result A) → List (String × Json) → A → Result A
fold_members field [] a = ok a
fold_members field ((key, v) ∷ ms) a = elim (field key v a) [
  | err e ↦ err e
  | ok a' ↦ fold_members field ms a'
]

unfoldable pub struct_into : {A : Type 0} → (String → Json → A → Result A) → Json → A → Result A
struct_into field null a = ok a
struct_into field (object ms) a = fold_members field (members ms) a
struct_into field _ a = err wrong_type

-- a pointer to a struct, which is allocated where it is nil
unfoldable pub pointer_into :
    {A : Type 0} → (String → Json → A → Result A) → A → Json → Option A → Result (Option A)
pointer_into field zero_value null old = ok none
pointer_into field zero_value (object ms) none =
    map_ok some (fold_members field (members ms) zero_value)
pointer_into field zero_value (object ms) (some a) = map_ok some (fold_members field (members ms) a)
pointer_into field zero_value _ old = err wrong_type

unfoldable pub texts_from : Json → Result (Option (List String))
texts_from = slice_from (λ v. text_into v "")

abbrev pub zero_request : LookupRequest
zero_request = record { name = ""; qtype = ""; zone = ""; nameservers = none }

unfoldable pub request_field : String → Json → LookupRequest → Result LookupRequest
request_field key v r =
    if equal_fold key "name"
    then map_ok (λ s. record r { name = s }) (text_into v r.name)
    else if equal_fold key "qtype"
    then map_ok (λ s. record r { qtype = s }) (text_into v r.qtype)
    else if equal_fold key "zone"
    then map_ok (λ s. record r { zone = s }) (text_into v r.zone)
    else if equal_fold key "nameservers"
    then map_ok (λ ss. record r { nameservers = ss }) (texts_from v)
    else ok r

abbrev pub zero_answer : Answer
zero_answer = record { rcode = ""; records = [] }

unfoldable pub answer_field : String → Json → Answer → Result Answer
answer_field key v a =
    if equal_fold key "rcode"
    then map_ok (λ s. record a { rcode = s }) (text_into v a.rcode)
    else if equal_fold key "records"
    then map_ok (λ ss. record a { records = list_of ss }) (texts_from v)
    else ok a

abbrev pub zero_response : TurnResponse
zero_response = record { rationale = ""; action = ""; answer = none; error = ""; lookups = [] }

unfoldable pub request_from : Json → Result LookupRequest
request_from v = struct_into request_field v zero_request

unfoldable pub response_field : String → Json → TurnResponse → Result TurnResponse
response_field key v r =
    if equal_fold key "rationale"
    then map_ok (λ s. record r { rationale = s }) (text_into v r.rationale)
    else if equal_fold key "action"
    then map_ok (λ s. record r { action = s }) (text_into v r.action)
    else if equal_fold key "answer"
    then map_ok (λ a. record r { answer = a }) (pointer_into answer_field zero_answer v r.answer)
    else if equal_fold key "error"
    then map_ok (λ s. record r { error = s }) (text_into v r.error)
    else if equal_fold key "lookups"
    then map_ok (λ reqs. record r { lookups = list_of reqs }) (slice_from request_from v)
    else ok r

-- `json.Unmarshal([]byte(text), &parsed)`, once the text is read as a value
unfoldable pub unmarshal : Json → Result TurnResponse
unmarshal v = struct_into response_field v zero_response
