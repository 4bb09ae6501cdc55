-- ===== src/Handlers/Interactive/Report.antt =====
-- What a whole session of handlers/interactive.go may return.
use cursedns.Prelude.{
  String, Bool, true, false, ◌≡◌, refl, sym, subst, Option, none, some, List, [], ◌∷◌,
}
use cursedns.Resolver.Types.{Query, Error, ok, err}
use cursedns.Resolver.Request.{Helper}
use cursedns.Handlers.Texts.{Texts}
use cursedns.Handlers.Interactive.{
  Console, Verdict, Command, commands, command_in, fields, print, dispatch,
}
use cursedns.Handlers.Interactive.Outcome.{Holds, Ends, dispatch-Ends}
use cursedns.Handlers.Interactive.Desk.{Ended, note_late, on_verdict, run_session, handle}

module _ (texts : Texts) {S : Type 0} (helper : Helper S) (ctx_err : S → Option Error)
    (asked : Query) where
  -- a response holds what is pending at the end
  abbrev pub Reports : Ended texts helper ctx_err asked → Type 0
  Reports (ok resp, c, lines) = Holds c.session resp
  Reports (err e, c, lines) = Unit

  note_late-session :
      (late : Option Error) (c : Console S)
      → (note_late texts helper ctx_err asked late c).session ≡ c.session
  unfolding note_late print
  note_late-session none c = refl
  note_late-session (some e) c = refl

  -- what a verdict may be, of one command or of an empty line
  abbrev Sound : Verdict × Console S → Type 0
  Sound (ok (some (ok resp)), c) = Holds c.session resp
  Sound _ = Unit

  Ends-Sound :
      (command : Option Command) (c : Console S) (verdict : Verdict) (c' : Console S)
      → Ends command c.session (verdict, c')
      → Sound (verdict, c')
  Ends-Sound command c (err e) c' h = tt
  Ends-Sound command c (ok none) c' h = tt
  Ends-Sound command c (ok (some (err e))) c' h = tt
  Ends-Sound command c (ok (some (ok resp))) c' (_, same, holds) =
      subst (λ s. Holds s resp) (sym same) holds

  dispatch-Sound :
      (words : List String) (c : Console S) → Sound (dispatch texts helper asked words c)
  unfolding dispatch
  dispatch-Sound [] c = tt
  dispatch-Sound (word ∷ args) c =
      Ends-Sound (command_in commands word) c _ _ (dispatch-Ends texts helper asked word args c)

  on_verdict-Reports :
      (again : Console S → Ended texts helper ctx_err asked) (lines : List String)
      (verdict : Verdict) (c : Console S)
      → ((c' : Console S) → Reports (again c'))
      → Sound (verdict, c)
      → Reports (on_verdict texts helper ctx_err asked again lines verdict c)
  unfolding on_verdict
  on_verdict-Reports again lines (err e) c f h = f _
  on_verdict-Reports again lines (ok none) c f h = f c
  on_verdict-Reports again lines (ok (some (err e))) c f h = tt
  on_verdict-Reports again lines (ok (some (ok resp))) c f h =
      subst (λ s. Holds s resp) (sym (note_late-session (ctx_err c.host) c)) h

  run_session-Reports :
      (lines : List String) (c : Console S)
      → Reports (run_session texts helper ctx_err asked lines c)
  unfolding run_session
  run_session-Reports [] c = tt
  run_session-Reports (line ∷ lines) c =
      on_verdict-Reports _ lines (dispatch texts helper asked (fields line) c).0 _
        (run_session-Reports lines) (dispatch-Sound (fields line) c)

  -- Whatever the operator types, a response that the handler returns has just the records that are
  -- pending when the session ends, section by section; while the slot is taken there is none.
  pub handle-Reports :
      (taken : Bool) (lines : List String) (s : S)
      → Reports (handle texts helper ctx_err asked taken lines s)
  unfolding handle
  handle-Reports true lines s = tt
  handle-Reports false lines s = run_session-Reports lines _
