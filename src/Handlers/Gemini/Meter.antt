-- ===== src/Handlers/Gemini/Meter.antt =====
-- A meter on the model of handlers/gemini.go, which adds up the tokens that it reports.
use cursedns.Prelude.{
  ℕ, ◌+◌, ◌-◌, ◌<◌, ◌≤◌, ◌^◌, ◌≡◌, refl, ◌∙◌, false, inl, inr, Bool-cases, Option, none, some, List,
  [], ◌∷◌, ltb, string_eq, arith,
}
use cursedns.Resolver.Types.{Response, NameServer, Result, ok, err}
use cursedns.Resolver.Request.{Helper}
use cursedns.Handlers.Texts.{Texts}
use cursedns.Handlers.Payload.{LookupRequest, LookupRecord}
use cursedns.Handlers.Gemini.{
  Generated, ModelRequest, Client, times, exceeds_int32, add_tokens, lookup_with, lookup_typed,
  perform_lookup, run_lookups,
}

-- the tokens that the model has reported so far
pub record Metered (S : Type 0) : Type 0 where
  pub spent : ℕ
  pub inner : S

abbrev pub metered_helper : {S : Type 0} → Helper S → Helper (Metered S)
metered_helper h = record {
  lookup = λ name qtype zone servers s.
      let (answered, inner) = h.lookup name qtype zone servers s.inner in
      (answered, record s { inner = inner });
  root_hints = h.root_hints;
  trace = λ event s. record s { inner = h.trace event s.inner };
}

abbrev pub counted : Option ℕ → ℕ
counted none = 0
counted (some n) = n

-- the tokens of a response
abbrev pub cost : Result Generated → ℕ
cost (err e) = 0
cost (ok g) = counted g.total_token_count

abbrev pub metered_client : {S : Type 0} → Client S → Client (Metered S)
metered_client c = record {
  generate = λ req s.
      let (answered, inner) = c.generate req s.inner in
      (answered, record { spent = s.spent + cost answered; inner = inner });
  read_json = c.read_json;
}

-- No turn reports so many tokens that the sum with the budget leaves an `int32`.
abbrev pub IsModest : {S : Type 0} → Client S → ℕ → Type 0
IsModest {S} c budget = (req : ModelRequest) (s : S) → cost (c.generate req s).0 + budget < 2 ^ 31

-- an answer is given within the budget
abbrev pub Afforded : {S : Type 0} → ℕ → Result Response × Metered S → Type 0
Afforded budget (ok resp, s) = s.spent ≤ budget
Afforded budget (err e, s) = Unit

module _ (texts : Texts) {S : Type 0} (helper : Helper S) where
  lookup_with-spent :
      (req : LookupRequest) (qtype : ℕ) (servers : Result (List NameServer)) (s : Metered S)
      → (lookup_with texts (metered_helper helper) req qtype servers s).1.spent ≡ s.spent
  unfolding lookup_with
  lookup_with-spent req qtype (err e) s = refl
  lookup_with-spent req qtype (ok servers) s = refl

  lookup_typed-spent :
      (req : LookupRequest) (qtype : Option ℕ) (s : Metered S)
      → (lookup_typed texts (metered_helper helper) req qtype s).1.spent ≡ s.spent
  unfolding lookup_typed
  lookup_typed-spent req none s = refl
  lookup_typed-spent req (some qtype) s = lookup_with-spent req qtype _ s

  pub run_lookups-spent :
      (limit : ℕ) (reqs : List LookupRequest) (remaining : ℕ) (history : List LookupRecord)
      (s : Metered S)
      → (run_lookups texts (metered_helper helper) limit reqs remaining history s).1.spent ≡ s.spent
  unfolding run_lookups perform_lookup
  run_lookups-spent limit [] remaining history s = refl
  run_lookups-spent limit (req ∷ reqs) remaining history s =
      elim (Bool-cases (ltb 0 (times remaining))) [
        | inl left ↦
            rw left (run_lookups-spent limit reqs (remaining - 1) _ _ ∙ lookup_typed-spent req _ s)
        | inr spent ↦ rw spent refl
      ]

pub build_answer-Afforded :
    {S : Type 0} (budget : ℕ) (r : Result Response) (s : Metered S)
    → s.spent ≤ budget
    → Afforded budget (r, s)
build_answer-Afforded budget (ok resp) s h = h
build_answer-Afforded budget (err e) s h = tt

-- the check of the tokens, while nothing wraps around
pub add_tokens-within :
    (tokens : ℕ) (count : Option ℕ) (budget : ℕ)
    → tokens ≤ budget
    → counted count + budget < 2 ^ 31
    → exceeds_int32 (add_tokens tokens count) budget ≡ false
    → (add_tokens tokens count ≡ tokens + counted count) × (tokens + counted count ≤ budget)
unfolding exceeds_int32 add_tokens
add_tokens-within tokens none budget h k e = (omega arith, omega arith)
add_tokens-within tokens (some n) budget h k e = ground arith
