-- ===== src/Handlers/Gemini/Obeys.antt =====
-- `GeminiHandler.Handle` of handlers/gemini.go with a model whose texts follow the schema of the
-- request: it is always understood.
use cursedns.Prelude.{
  ℕ, zero, suc, ◌-◌, String, false, ◌≡◌, refl, ap, inl, inr, Bool-cases, Option-cases, List, [],
  ◌∷◌, ◌++◌, In, here, there, Option, none, some, length, is_empty, ltb, ◌==◌, string_eq, to_upper,
}
use cursedns.Prelude.Json.{Json}
use cursedns.Resolver.Types.{
  Query, Response, parse_model_response, unknown_action, Result, Result-cases, ok, err,
}
use cursedns.Resolver.Request.{Helper}
use cursedns.Handlers.Texts.{Texts}
use cursedns.Handlers.Payload.{LookupRequest, LookupRecord, Answer, TurnResponse}
use cursedns.Handlers.Payload.Schema.{Conforms, actions, response_schema}
use cursedns.Handlers.Payload.Schema.Responses.{unmarshal-Conforms}
use cursedns.Handlers.Gemini.{
  Generated, ModelRequest, Client, read_response, total_lookups_limit, GeminiHandler, settings,
  times, exceeds, exceeds_int32, add_tokens, build_answer, parse_records, perform_lookup,
  run_lookups,
}
use cursedns.Handlers.Gemini.Turns.{
  Next, reason, model_request, continue, on_lookups, on_action, on_parsed, on_text, on_generated,
  run_turns, handle,
}

-- what the model writes under the schema of the responses is a JSON value that the schema allows
abbrev pub Obeys : {S : Type 0} → Client S → Type 0
Obeys {S} client =
    (req : ModelRequest) (s : S) (g : Generated) (s' : S)
    → req.response_schema ≡ response_schema
    → client.generate req s ≡ (ok g, s')
    → (g.text == "") ≡ false
    → (v : Json) × (client.read_json g.text ≡ ok v) × Conforms response_schema v

-- an outcome other than a response that cannot be parsed and an action that is not known
abbrev pub IsUnderstood : {A : Type 0} → Result A → Type 0
IsUnderstood (err (parse_model_response e)) = ⊥
IsUnderstood (err (unknown_action action)) = ⊥
IsUnderstood _ = Unit

IsUnderstood-map :
    {A B : Type 0} (f : A → B) (r : Result A)
    → IsUnderstood r
    → IsUnderstood (elim r [ err e ↦ err e | ok a ↦ ok (f a) ])
IsUnderstood-map f (ok a) i = tt
IsUnderstood-map f (err e) i = i

reason-IsUnderstood : (why : Option String) → IsUnderstood {A = Response} (err (reason why))
unfolding reason
reason-IsUnderstood none = tt
reason-IsUnderstood (some why) = elim (Bool-cases (why == "")) [ inl e ↦ rw e tt | inr e ↦ rw e tt ]

module _ (texts : Texts) where
  parse_records-IsUnderstood : (ss : List String) → IsUnderstood (parse_records texts ss)
  unfolding parse_records
  parse_records-IsUnderstood [] = tt
  parse_records-IsUnderstood (s ∷ ss) = elim (Result-cases (texts.new_rr s)) [
    | inr (e, h) ↦ rw (h, IsUnderstood) tt
    | inl (rr, h) ↦
        rw (h, IsUnderstood) (IsUnderstood-map (λ rrs. rr ∷ rrs) _ (parse_records-IsUnderstood ss))
  ]

  build_answer-IsUnderstood : (a : Option Answer) → IsUnderstood (build_answer texts a)
  unfolding build_answer
  build_answer-IsUnderstood none = tt
  build_answer-IsUnderstood (some a) =
      elim (Option-cases (texts.string_to_rcode (to_upper a.rcode))) [
        | inl h ↦ rw (h, IsUnderstood) tt
        | inr (rcode, h) ↦
            rw (h, IsUnderstood)
              (IsUnderstood-map (λ rrs. record { rcode = rcode; answer = rrs; ns = []; extra = [] })
                _ (parse_records-IsUnderstood a.records))
      ]

  module _ {S : Type 0} (helper : Helper S) where
    run_lookups-IsUnderstood :
        (limit : ℕ) (reqs : List LookupRequest) (remaining : ℕ) (history : List LookupRecord)
        (s : S)
        → IsUnderstood (run_lookups texts helper limit reqs remaining history s).0
    unfolding run_lookups
    run_lookups-IsUnderstood limit [] remaining history s = tt
    run_lookups-IsUnderstood limit (req ∷ reqs) remaining history s =
        let (done, s') = perform_lookup texts helper req s in
        let rest = run_lookups-IsUnderstood limit reqs (remaining - 1) (history ++ done ∷ []) s' in
        elim (Bool-cases (ltb 0 (times remaining))) [
          | inl left ↦ rw left rest
          | inr spent ↦ rw spent tt
        ]

module _ (texts : Texts) {S : Type 0} (helper : Helper S) (client : Client S) (h : GeminiHandler)
    (query : Query) (obeys : Obeys client) where
  pair_of : {r : Result Generated × S} {g : Generated} → r.0 ≡ ok g → r ≡ (ok g, r.1)
  pair_of {r} e = ap (λ first. (first, r.1)) e

  abbrev Understands : Next texts helper client h query → Type 0
  Understands m =
      (remaining : ℕ) (history : List LookupRecord) (s : S) → IsUnderstood (m remaining history s).0

  continue-IsUnderstood :
      (again : Next texts helper client h query) (looked : Result (ℕ × List LookupRecord) × S)
      → Understands again
      → IsUnderstood looked.0
      → IsUnderstood (continue texts helper client h query again looked).0
  unfolding continue
  continue-IsUnderstood again (err e, s) goes i = i
  continue-IsUnderstood again (ok (remaining, history), s) goes i = goes remaining history s

  on_lookups-Understands :
      (again : Next texts helper client h query) (lookups : List LookupRequest)
      → Understands again
      → Understands (on_lookups texts helper client h query again lookups)
  unfolding on_lookups
  on_lookups-Understands again lookups goes remaining history s =
      elim (Bool-cases (is_empty lookups)) [
        | inl nothing ↦ rw nothing tt
        | inr some_asked ↦ elim (Bool-cases (exceeds (length lookups) h.max_lookups_per_turn)) [
          | inl many ↦ rw (some_asked, many) tt
          | inr few ↦
              rw (some_asked, few)
                (continue-IsUnderstood again
                  (run_lookups texts helper (total_lookups_limit h) lookups remaining history s)
                  goes
                  (run_lookups-IsUnderstood texts helper (total_lookups_limit h) lookups remaining
                    history s))
        ]
      ]

  on_action-Understands :
      (again : Next texts helper client h query) (parsed : TurnResponse)
      → Understands again
      → In parsed.action actions
      → Understands (on_action texts helper client h query again parsed)
  unfolding on_action
  on_action-Understands again parsed goes (here e) remaining history s =
      rw e (build_answer-IsUnderstood texts parsed.answer)
  on_action-Understands again parsed goes (there (here e)) remaining history s =
      elim (Bool-cases (parsed.error == "")) [
        | inl blank ↦ rw (e, blank) tt
        | inr told ↦ rw (e, told) tt
      ]
  on_action-Understands again parsed goes (there (there (here e))) remaining history s =
      rw e (on_lookups-Understands again parsed.lookups goes remaining history s)
  on_action-Understands again parsed goes (there (there (there i))) remaining history s = elim i [ ]

  on_parsed-Understands :
      (turn : ℕ) (again : Next texts helper client h query) (read : Result TurnResponse)
      → Understands again
      → (parsed : TurnResponse) × (read ≡ ok parsed) × In parsed.action actions
      → Understands (on_parsed texts helper client h query turn again read)
  unfolding on_parsed
  on_parsed-Understands turn again read goes (parsed, e, i) remaining history s =
      rw e (on_action-Understands again parsed goes i remaining history _)

  read_response-In :
      (g : Generated) (v : Json)
      → client.read_json g.text ≡ ok v
      → Conforms response_schema v
      → (parsed : TurnResponse) × (read_response client g.text ≡ ok parsed)
        × In parsed.action actions
  unfolding read_response
  read_response-In g v e c = rw (e, read_response) (unmarshal-Conforms v c)

  on_text-Understands :
      (turn : ℕ) (again : Next texts helper client h query) (g : Generated)
      → Understands again
      → ((g.text == "") ≡ false
          → (v : Json) × (client.read_json g.text ≡ ok v) × Conforms response_schema v)
      → Understands (on_text texts helper client h query turn again g)
  unfolding on_text
  on_text-Understands turn again g goes said remaining history s =
      elim (Bool-cases (g.text == "")) [
        | inl blank ↦ rw blank (reason-IsUnderstood g.block_reason)
        | inr full ↦
            let (v, e, c) = said full in
            rw full (
              on_parsed-Understands turn again (read_response client g.text) goes
                (read_response-In g v e c) remaining history s)
      ]

  on_generated-Understands :
      (turn tokens : ℕ) (again : ℕ → Next texts helper client h query)
      (generated : Result Generated)
      → ((used : ℕ) → Understands (again used))
      → ((g : Generated)
          → generated ≡ ok g
          → (g.text == "") ≡ false
          → (v : Json) × (client.read_json g.text ≡ ok v) × Conforms response_schema v)
      → Understands (on_generated texts helper client h query turn tokens again generated)
  unfolding on_generated
  on_generated-Understands turn tokens again (err e) goes said remaining history s = tt
  on_generated-Understands turn tokens again (ok g) goes said remaining history s =
      let used = add_tokens tokens g.total_token_count in
      elim (Bool-cases (exceeds_int32 used h.max_token_budget)) [
        | inl over ↦ rw over tt
        | inr fits ↦
            rw fits (
              on_text-Understands turn (again used) g (goes used) (said g refl) remaining history s)
      ]

  run_turns-Understands :
      (left turn tokens : ℕ) → Understands (run_turns texts helper client h query left turn tokens)
  unfolding run_turns model_request
  run_turns-Understands zero turn tokens remaining history s = tt
  run_turns-Understands (suc left) turn tokens remaining history s =
      on_generated-Understands turn tokens (run_turns texts helper client h query left (suc turn)) _
        (run_turns-Understands left (suc turn))
        (λ g e.
          obeys (model_request texts helper client h query turn tokens remaining history) _ g _ refl
            (pair_of e))
        remaining history _

-- With a model whose texts are JSON values that the schema of its request allows, `Handle` never
-- fails with a response that cannot be parsed or with an action that it does not know, whatever the
-- model asks for and whatever the nameservers answer.
pub handle-IsUnderstood :
    (texts : Texts) {S : Type 0} (helper : Helper S) (client : Client S) (h : GeminiHandler)
    (query : Query) (s : S)
    → Obeys client
    → IsUnderstood (handle texts helper client h query s).0
unfolding handle
handle-IsUnderstood texts helper client h query s obeys =
    run_turns-Understands texts helper client (settings h) query obeys
      (times (settings h).max_turns) 0 0 (settings h).max_total_lookups [] s
