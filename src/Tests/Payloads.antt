-- ===== src/Tests/Payloads.antt =====
-- A response in JSON that the schema allows, and the theorems on payloads at it.
use cursedns.Prelude.{
  String, Bool, true, false, ◌≡◌, refl, ap, subst, In, here, there, if◌then◌else◌,
}
use cursedns.Resolver.Types.{Result, ok, err}
use cursedns.Handlers.Payload.{TurnResponse}
use cursedns.Handlers.Payload.Unmarshal.{unmarshal}
use cursedns.Handlers.Payload.Schema.{
  Conforms, actions, first, later, any_text, one_of, an_array, an_object, none_left, also, no_more,
  fits, request_schema, response_schema,
}
use cursedns.Handlers.Payload.Schema.Responses
use cursedns.Handlers.Gemini.{Generated}
use cursedns.Handlers.Gemini.Turns.{handle}
use cursedns.Handlers.Gemini.Obeys
use cursedns.Handlers.Gemini.Obeys.{Obeys, IsUnderstood}
use cursedns.Samples.Network.{www}
use cursedns.Samples.Models.{texts, counter, decided, is_first, reply, lookup_json, three_lookups}

lookup_json-Conforms : Conforms request_schema lookup_json
lookup_json-Conforms =
    an_object
      (fits first any_text (
        fits (later first) any_text (
          fits (later (later first)) any_text
            (fits (later (later (later first))) (an_array (also any_text none_left)) no_more))))
      (
        here refl,
        (there (here refl), (there (there (here refl)), (there (there (there (here refl))), tt))),
      )

reply-Conforms : (action : String) → In action actions → Conforms response_schema (reply action)
reply-Conforms action i =
    an_object
      (fits first any_text (
        fits (later first) (one_of i) (
          fits (later (later first))
            (an_object (fits first any_text (fits (later first) (an_array none_left) no_more))
              (here refl, tt))
            (fits (later (later (later (later first))))
              (an_array (also lookup_json-Conforms none_left)) no_more))))
      (here refl, (there (here refl), tt))

unmarshal-Conforms_example :
    (r : TurnResponse) × (unmarshal (reply "answer") ≡ ok r) × In r.action actions
unmarshal-Conforms_example =
    Responses.unmarshal-Conforms (reply "answer") (reply-Conforms "answer" (here refl))

lookup_or_answer : (b : Bool) → In (if b then "lookup" else "answer") actions
lookup_or_answer true = there (there (here refl))
lookup_or_answer false = here refl

-- the text of a response is an action
abbrev InText : Result Generated → Type 0
InText (err e) = Unit
InText (ok g) = In g.text actions

decided-Obeys : Obeys decided
decided-Obeys req s g s' same said full = (
  reply g.text,
  refl,
  reply-Conforms g.text
      (subst (λ r. InText r) (ap (λ pair. pair.0) said) (lookup_or_answer (is_first req.contents))),
)

handle-IsUnderstood_example : IsUnderstood (handle texts counter decided three_lookups www 0).0
handle-IsUnderstood_example =
    Obeys.handle-IsUnderstood texts counter decided three_lookups www 0 decided-Obeys
