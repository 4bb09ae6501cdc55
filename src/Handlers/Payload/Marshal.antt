-- ===== src/Handlers/Payload/Marshal.antt =====
-- The input of a turn as the JSON of `json.Marshal` in handlers/gemini.go: the names of the fields,
-- and those that are left out where they are empty.
use cursedns.Prelude.{
  ℕ, ◌-◌, ◌^◌, String, Option, none, some, List, [], ◌∷◌, ◌++◌, map, ltb, is_empty, ◌==◌, string_eq,
  if◌then◌else◌,
}
use cursedns.Prelude.Json.{Json, null, number, minus, text, array, object, to_items, to_members}
use cursedns.Handlers.Payload.{
  LookupRequest, ResultView, LookupRecord, QueryInfo, Budget, TurnInput,
}

-- an integer of so many bits, from its bit pattern
unfoldable pub signed : ℕ → ℕ → Json
signed width n = if ltb n (2 ^ (width - 1)) then number n else minus (2 ^ width - n)

unfoldable pub texts_json : List String → Json
texts_json ss = array (to_items (map text ss))

-- a slice, null where it is nil
unfoldable pub slice_json : Option (List String) → Json
slice_json none = null
slice_json (some ss) = texts_json ss

-- fields with `omitempty`
unfoldable pub unless_empty : String → List String → List (String × Json)
unless_empty key ss = if is_empty ss then [] else (key, texts_json ss) ∷ []

unfoldable pub unless_blank : String → String → List (String × Json)
unless_blank key s = if s == "" then [] else (key, text s) ∷ []

unfoldable pub request_json : LookupRequest → Json
request_json r = object (
    to_members (
      ("name", text r.name)
      ∷ ("qtype", text r.qtype)
      ∷ ("zone", text r.zone)
      ∷ ("nameservers", slice_json r.nameservers)
      ∷ []))

unfoldable pub view_json : ResultView → Json
view_json v = object (
    to_members (
      ("rcode", text v.rcode)
      ∷ (unless_empty "answer" v.answer ++ unless_empty "ns" v.ns ++ unless_empty "extra" v.extra)))

unfoldable pub result_member : Option ResultView → List (String × Json)
result_member none = []
result_member (some view) = ("result", view_json view) ∷ []

unfoldable pub record_json : LookupRecord → Json
record_json r = object (
    to_members (
      ("request", request_json r.request) ∷ (result_member r.view ++ unless_blank "error" r.error)))

-- the history, a nil slice before the first lookup
unfoldable pub history_json : List LookupRecord → Json
history_json [] = null
history_json (r ∷ rs) = array (to_items (map record_json (r ∷ rs)))

unfoldable pub query_json : QueryInfo → Json
query_json q =
    object
      (to_members (("name", text q.name) ∷ ("type", text q.qtype) ∷ ("class", text q.class) ∷ []))

unfoldable pub budget_json : Budget → Json
budget_json b = object (
    to_members (
      ("turns_remaining", signed 64 b.turns_remaining)
      ∷ ("token_budget_remaining", signed 32 b.token_budget_remaining)
      ∷ ("lookups_remaining", signed 64 b.lookups_remaining)
      ∷ ("max_lookups_per_turn", signed 64 b.max_lookups_per_turn)
      ∷ []))

-- `json.Marshal(input)`
unfoldable pub marshal : TurnInput → Json
marshal input = object (
    to_members (
      ("query", query_json input.query)
      ∷ ("lookups_so_far", history_json input.lookups_so_far)
      ∷ ("budget", budget_json input.budget)
      ∷ []))
