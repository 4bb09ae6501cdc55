-- ===== src/Handlers/Interactive/Desk.antt =====
-- `InteractiveHandler.Handle`: its loop, and the single slot that queries compete for.
use cursedns.Prelude.{String, Bool, true, false, Option, none, some, List, [], ◌∷◌}
use cursedns.Resolver.Types.{
  Query, Response, Error, reading_command, operator_busy, Result, ok, err,
}
use cursedns.Resolver.Request.{Helper}
use cursedns.Handlers.Texts.{Texts}
use cursedns.Handlers.Interactive.{
  Console, query_line, rejected, note_timed_out, empty_session, fields, Verdict, print, dispatch,
}

module _ (texts : Texts) {S : Type 0} (helper : Helper S) (ctx_err : S → Option Error)
    (asked : Query) where
  -- the result, the console, and the lines that are still to be read
  abbrev pub Ended : Type 0
  Ended = Result Response × Console S × List String

  unfoldable pub note_late : Option Error → Console S → Console S
  note_late none c = c
  note_late (some e) c = print texts helper asked (note_timed_out e) c

  -- what follows `dispatch`; `again` reads the next line
  unfoldable pub on_verdict : (Console S → Ended) → List String → Verdict → Console S → Ended
  on_verdict again lines (err e) c = again (print texts helper asked (rejected e) c)
  on_verdict again lines (ok none) c = again c
  on_verdict again lines (ok (some result)) c = (result, note_late (ctx_err c.host) c, lines)

  -- the loop
  unfoldable pub run_session : List String → Console S → Ended
  run_session [] c = (err reading_command, c, [])
  run_session (line ∷ lines) c =
      let (verdict, c') = dispatch texts helper asked (fields line) c in
      on_verdict (run_session lines) lines verdict c'

  -- `Handle` with the slot found taken or free
  unfoldable pub handle : Bool → List String → S → Ended
  handle true lines s =
      (err operator_busy, record { session = empty_session; printed = []; host = s }, lines)
  handle false lines s =
      run_session lines
        (record { session = empty_session; printed = query_line asked ∷ []; host = s })
