-- ===== src/Handlers/Interactive/Outcome.antt =====
-- What a command line does to a session of handlers/interactive.go.
use cursedns.Prelude.{ℕ, String, ◌≡◌, refl, Option, none, some, List, [], ◌∷◌}
use cursedns.Dns.{Rr}
use cursedns.Resolver.Types.{Query, Response, NameServer, LookupResult, Result, ok, err}
use cursedns.Resolver.Request.{Helper}
use cursedns.Handlers.Texts.{Texts}
use cursedns.Handlers.Interactive.{
  Session, Section, Console, Command, help, query, roothints, trace, lookup, add_answer, add_ns,
  add_extra, pending, clear, respond, fail, commands, command_in, Verdict, note, add_parsed, add_rr,
  show_lookup, lookup_from, lookup_of, run_lookup, respond_with, build_response, give_up, execute,
  dispatch,
}

-- the response holds the pending records
abbrev pub Holds : Session → Response → Type 0
Holds s resp =
    (resp.answer ≡ s.pending_answer) × (resp.ns ≡ s.pending_ns) × (resp.extra ≡ s.pending_extra)

module _ {S : Type 0} where
  -- how a case of the switch may end, before and after
  abbrev pub Ends : Option Command → Session → Verdict × Console S → Type 0
  Ends command s (err e, c) = c.session ≡ s
  Ends command s (ok none, c) = Unit
  Ends command s (ok (some (ok resp)), c) =
      (command ≡ some respond) × (c.session ≡ s) × Holds s resp
  Ends command s (ok (some (err e)), c) = command ≡ some fail

module _ (texts : Texts) {S : Type 0} (helper : Helper S) (asked : Query) where
  note-Ends :
      (command : Option Command) (args : List String) (c : Console S)
      → Ends command c.session (note texts helper asked args c)
  unfolding note
  note-Ends command [] c = refl
  note-Ends command (arg ∷ args) c = tt

  add_parsed-Ends :
      (command : Option Command) (part : Section) (parsed : Result Rr) (c : Console S)
      → Ends command c.session (add_parsed texts helper asked part parsed c)
  unfolding add_parsed
  add_parsed-Ends command part (err e) c = refl
  add_parsed-Ends command part (ok rr) c = tt

  add_rr-Ends :
      (command : Option Command) (part : Section) (args : List String) (c : Console S)
      → Ends command c.session (add_rr texts helper asked part args c)
  unfolding add_rr
  add_rr-Ends command part [] c = refl
  add_rr-Ends command part (arg ∷ args) c = add_parsed-Ends command part _ c

  show_lookup-Ends :
      (command : Option Command) (answered : Result LookupResult) (s : S) (c : Console S)
      → Ends command c.session (show_lookup texts helper asked (answered, s) c)
  unfolding show_lookup
  show_lookup-Ends command (err e) s c = refl
  show_lookup-Ends command (ok r) s c = tt

  lookup_from-Ends :
      (command : Option Command) (zone name : String) (qtype : ℕ)
      (servers : Result (List NameServer)) (c : Console S)
      → Ends command c.session (lookup_from texts helper asked zone name qtype servers c)
  unfolding lookup_from
  lookup_from-Ends command zone name qtype (err e) c = refl
  lookup_from-Ends command zone name qtype (ok servers) c =
      show_lookup-Ends command (helper.lookup name qtype zone servers c.host).0 _ c

  lookup_of-Ends :
      (command : Option Command) (zone name word : String) (qtype : Option ℕ) (tokens : List String)
      (c : Console S)
      → Ends command c.session (lookup_of texts helper asked zone name word qtype tokens c)
  unfolding lookup_of
  lookup_of-Ends command zone name word none tokens c = refl
  lookup_of-Ends command zone name word (some qtype) tokens c =
      lookup_from-Ends command zone name qtype _ c

  run_lookup-Ends :
      (command : Option Command) (args : List String) (c : Console S)
      → Ends command c.session (run_lookup texts helper asked args c)
  unfolding run_lookup
  run_lookup-Ends command [] c = refl
  run_lookup-Ends command (a ∷ []) c = refl
  run_lookup-Ends command (a ∷ b ∷ []) c = refl
  run_lookup-Ends command (a ∷ b ∷ d ∷ []) c = refl
  run_lookup-Ends command (a ∷ b ∷ d ∷ e ∷ more) c = lookup_of-Ends command a b d _ _ c

  respond_with-Ends :
      (word : String) (rcode : Option ℕ) (c : Console S)
      → Ends (some respond) c.session (respond_with texts helper asked word rcode c)
  unfolding respond_with
  respond_with-Ends word none c = refl
  respond_with-Ends word (some rcode) c = (refl, refl, (refl, refl, refl))

  build_response-Ends :
      (args : List String) (c : Console S)
      → Ends (some respond) c.session (build_response texts helper asked args c)
  unfolding build_response
  build_response-Ends [] c = refl
  build_response-Ends (word ∷ more) c = respond_with-Ends word _ c

  execute-Ends :
      (word : String) (command : Option Command) (args : List String) (c : Console S)
      → Ends command c.session (execute texts helper asked word command args c)
  unfolding execute give_up
  execute-Ends word none args c = refl
  execute-Ends word (some help) args c = tt
  execute-Ends word (some query) args c = tt
  execute-Ends word (some roothints) args c = tt
  execute-Ends word (some trace) args c = note-Ends _ args c
  execute-Ends word (some lookup) args c = run_lookup-Ends _ args c
  execute-Ends word (some add_answer) args c = add_rr-Ends _ _ args c
  execute-Ends word (some add_ns) args c = add_rr-Ends _ _ args c
  execute-Ends word (some add_extra) args c = add_rr-Ends _ _ args c
  execute-Ends word (some pending) args c = tt
  execute-Ends word (some clear) args c = tt
  execute-Ends word (some respond) args c = build_response-Ends args c
  execute-Ends word (some fail) args c = refl

  -- A command that is refused leaves the pending records as they are. A session ends only by
  -- `respond`, in any letter case, with a response of just the pending records, or by `fail`.
  pub dispatch-Ends :
      (word : String) (args : List String) (c : Console S)
      → Ends (command_in commands word) c.session (dispatch texts helper asked (word ∷ args) c)
  unfolding dispatch
  dispatch-Ends word args c = execute-Ends word (command_in commands word) args c
