-- ===== src/Handlers/Gemini/Told.antt =====
-- A response of `GeminiHandler.Handle` in handlers/gemini.go has a dialogue that ends in it.
use cursedns.Prelude.{
  ℕ, zero, suc, ◌+◌, ◌-◌, ◌≤◌, true, false, ◌≡◌, refl, subst, inl, inr, Bool-cases, List, ◌++◌,
  length, is_empty, ltb, ◌==◌, string_eq, arith,
}
use cursedns.Resolver.Types.{Query, Response, Result, ok, err, gemini_turn}
use cursedns.Resolver.Request.{Helper}
use cursedns.Handlers.Texts.{Texts}
use cursedns.Handlers.Payload.{LookupRecord, TurnResponse}
use cursedns.Handlers.Gemini.{
  Generated, Client, read_response, total_lookups_limit, GeminiHandler, times, exceeds,
  exceeds_int32, add_tokens, build_answer,
}
use cursedns.Handlers.Gemini.Turns.{
  Next, model_request, continue, on_lookups, on_action, on_parsed, on_text, on_generated, run_turns,
}
use cursedns.Handlers.Gemini.Lookups.{perform_all, run_lookups-perform_all, run_lookups-spent}
use cursedns.Handlers.Gemini.Talks.{Hears, hears, Talks, answers, asks}

module _ {S : Type 0} where
  -- a result that is a response is one that is told of
  abbrev pub Told : (Response → S → Type 0) → Result Response × S → Type 0
  Told T (err e, t) = Unit
  Told T (ok resp, t) = T resp t

  pub Told-ok :
      (T : Response → S → Type 0) (r : Result Response × S) (resp : Response) (t : S)
      → Told T r
      → r ≡ (ok resp, t)
      → T resp t
  Told-ok T r resp t told e = subst (Told T) e told

  Told-map :
      (T U : Response → S → Type 0) (r : Result Response × S)
      → ((resp : Response) (t : S) → T resp t → U resp t)
      → Told T r
      → Told U r
  Told-map T U (err e, t) f told = tt
  Told-map T U (ok resp, t) f told = f resp t told

  Told-answer :
      (T : Response → S → Type 0) (r : Result Response) (t : S)
      → ((resp : Response) → r ≡ ok resp → T resp t)
      → Told T (r, t)
  Told-answer T (err e) t f = tt
  Told-answer T (ok resp) t f = f resp refl

module _ (texts : Texts) {S : Type 0} (helper : Helper S) (client : Client S) (h : GeminiHandler)
    (query : Query) where
  module _ (left turn tokens remaining used : ℕ) (history : List LookupRecord) (s : S)
      (again : Next texts helper client h query)
      (goes : (m : ℕ) (hist : List LookupRecord) (s' : S)
        → Told
            (Talks texts helper client h query left (suc turn) used m hist s')
            (again m hist s')) where
    abbrev Ends : Response → S → Type 0
    Ends = Talks texts helper client h query (suc left) turn tokens remaining history s

    asked-Told :
        (parsed : TurnResponse) (s' : S)
        → Hears texts helper client h query turn tokens remaining history s parsed used s'
        → (parsed.action == "lookup") ≡ true
        → is_empty parsed.lookups ≡ false
        → exceeds (length parsed.lookups) h.max_lookups_per_turn ≡ false
        → length parsed.lookups ≤ times remaining
        → Told Ends (
            again
              (remaining - length parsed.lookups)
              (history ++ (perform_all texts helper parsed.lookups s').0)
              (perform_all texts helper parsed.lookups s').1)
    asked-Told parsed s' heard e f few fits =
        let m = remaining - length parsed.lookups in
        let (records, s'') = perform_all texts helper parsed.lookups s' in
        Told-map (Talks texts helper client h query left (suc turn) used m (history ++ records) s'')
          Ends (again m (history ++ records) s'')
          (λ resp t talk. asks parsed heard e f few fits talk) (goes m (history ++ records) s'')

    on_lookups-Told :
        (parsed : TurnResponse) (s' : S)
        → Hears texts helper client h query turn tokens remaining history s parsed used s'
        → (parsed.action == "lookup") ≡ true
        → Told Ends
            (on_lookups texts helper client h query again parsed.lookups remaining history s')
    unfolding on_lookups continue
    on_lookups-Told parsed s' heard e = elim (Bool-cases (is_empty parsed.lookups)) [
      | inl none_asked ↦ rw none_asked tt
      | inr f ↦ elim (Bool-cases (exceeds (length parsed.lookups) h.max_lookups_per_turn)) [
        | inl many ↦ rw (f, many) tt
        | inr few ↦ elim (Bool-cases (ltb (times remaining) (length parsed.lookups))) [
          | inl spent ↦
              let (er, t, failed) =
                run_lookups-spent texts helper (total_lookups_limit h) parsed.lookups remaining
                  history s' (ground arith) in
              rw (f, few, failed) tt
          | inr left_over ↦
              let fits : length parsed.lookups ≤ times remaining = ground arith in
              rw
                (
                  f,
                  few,
                  run_lookups-perform_all texts helper (total_lookups_limit h) parsed.lookups
                      remaining history s' fits,
                )
                (asked-Told parsed s' heard e f few fits)
        ]
      ]
    ]

    on_action-Told :
        (parsed : TurnResponse) (s' : S)
        → Hears texts helper client h query turn tokens remaining history s parsed used s'
        → Told Ends (on_action texts helper client h query again parsed remaining history s')
    unfolding on_action
    on_action-Told parsed s' heard = elim (Bool-cases (parsed.action == "answer")) [
      | inl e ↦ rw e (
          Told-answer Ends (build_answer texts parsed.answer) s'
            (λ resp built. answers parsed heard e built))
      | inr e ↦ elim (Bool-cases (parsed.action == "error")) [
        | inl f ↦ rw (e, f) tt
        | inr f ↦ elim (Bool-cases (parsed.action == "lookup")) [
          | inl k ↦ rw (e, f, k) (on_lookups-Told parsed s' heard k)
          | inr k ↦ rw (e, f, k) tt
        ]
      ]
    ]

  module _ (left turn tokens remaining : ℕ) (history : List LookupRecord) (s : S)
      (again : ℕ → Next texts helper client h query)
      (goes : (used m : ℕ) (hist : List LookupRecord) (s' : S)
        → Told
            (Talks texts helper client h query left (suc turn) used m hist s')
            (again used m hist s')) where
    abbrev Said : Response → S → Type 0
    Said = Talks texts helper client h query (suc left) turn tokens remaining history s

    on_parsed-Told :
        (g : Generated) (s' : S) (parsed : Result TurnResponse)
        → client.generate
            (model_request texts helper client h query turn tokens remaining history)
            (helper.trace (gemini_turn (turn + 1) h.max_turns tokens h.max_token_budget) s)
          ≡ (ok g, s')
        → exceeds_int32 (add_tokens tokens g.total_token_count) h.max_token_budget ≡ false
        → (g.text == "") ≡ false
        → read_response client g.text ≡ parsed
        → Told Said (
            on_parsed texts helper client h query turn
              (again (add_tokens tokens g.total_token_count))
              parsed
              remaining
              history
              s')
    unfolding on_parsed
    on_parsed-Told g s' (err e) said fits text means = tt
    on_parsed-Told g s' (ok parsed) said fits text means =
        on_action-Told left turn tokens remaining (add_tokens tokens g.total_token_count) history s
          (again (add_tokens tokens g.total_token_count))
          (goes (add_tokens tokens g.total_token_count)) parsed _
          (hears g parsed s' said fits text means)

    on_text-Told :
        (g : Generated) (s' : S)
        → client.generate
            (model_request texts helper client h query turn tokens remaining history)
            (helper.trace (gemini_turn (turn + 1) h.max_turns tokens h.max_token_budget) s)
          ≡ (ok g, s')
        → exceeds_int32 (add_tokens tokens g.total_token_count) h.max_token_budget ≡ false
        → Told Said (
            on_text texts helper client h query turn
              (again (add_tokens tokens g.total_token_count))
              g
              remaining
              history
              s')
    unfolding on_text
    on_text-Told g s' said fits = elim (Bool-cases (g.text == "")) [
      | inl e ↦ rw e tt
      | inr e ↦ rw e (on_parsed-Told g s' (read_response client g.text) said fits e refl)
    ]

    on_generated-Told :
        (generated : Result Generated) (s' : S)
        → client.generate
            (model_request texts helper client h query turn tokens remaining history)
            (helper.trace (gemini_turn (turn + 1) h.max_turns tokens h.max_token_budget) s)
          ≡ (generated, s')
        → Told Said (
            on_generated texts helper client h query turn tokens again generated remaining history
              s')
    unfolding on_generated
    on_generated-Told (err e) s' said = tt
    on_generated-Told (ok g) s' said =
        let used = add_tokens tokens g.total_token_count in
        elim (Bool-cases (exceeds_int32 used h.max_token_budget)) [
          | inl e ↦ rw e tt
          | inr e ↦ rw e (on_text-Told g s' said e)
        ]

  pub run_turns-Told :
      (left turn tokens remaining : ℕ) (history : List LookupRecord) (s : S)
      → Told
          (Talks texts helper client h query left turn tokens remaining history s)
          (run_turns texts helper client h query left turn tokens remaining history s)
  unfolding run_turns
  run_turns-Told zero turn tokens remaining history s = tt
  run_turns-Told (suc left) turn tokens remaining history s =
      on_generated-Told left turn tokens remaining history s
        (run_turns texts helper client h query left (suc turn)) (run_turns-Told left (suc turn)) _ _
        refl
