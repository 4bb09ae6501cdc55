-- ===== src/Handlers/Payload/Requests.antt =====
-- A lookup that the model asked for, as handlers/gemini.go gives it back to the model in the history.
use cursedns.Prelude.{
  String, ◌≡◌, refl, List, [], ◌∷◌, map, Option, none, some, ap, equal_fold, to_lower,
}
use cursedns.Prelude.Json.{text, items-to_items}
use cursedns.Resolver.Types.{ok}
use cursedns.Handlers.Payload.{LookupRequest}
use cursedns.Handlers.Payload.Marshal.{request_json, slice_json, texts_json}
use cursedns.Handlers.Payload.Unmarshal.{
  map_ok, text_into, each_from, slice_from, texts_from, struct_into, fold_members, request_field,
  request_from,
}

each_from-text : (ss : List String) → each_from (λ v. text_into v "") (map text ss) ≡ ok ss
unfolding each_from text_into
each_from-text [] = refl
each_from-text (s ∷ ss) = rw (each_from-text ss) refl

slice_from-slice_json :
    (ss : Option (List String)) → slice_from (λ v. text_into v "") (slice_json ss) ≡ ok ss
unfolding slice_from slice_json texts_json
slice_from-slice_json none = refl
slice_from-slice_json (some ss) = rw (items-to_items (map text ss), each_from-text ss) refl

-- A lookup in JSON is read back as the same lookup, with a nil slice of nameservers, which is written
-- as null, told apart from an empty one.
request_from-request_json : (r : LookupRequest) → request_from (request_json r) ≡ ok r
unfolding request_from request_json struct_into fold_members request_field equal_fold to_lower
    text_into texts_from
request_from-request_json r =
    ap (λ read. map_ok (λ r'. r') (map_ok (λ ss. record r { nameservers = ss }) read))
      (slice_from-slice_json r.nameservers)
