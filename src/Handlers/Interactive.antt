-- ===== src/Handlers/Interactive.antt =====
-- `InteractiveHandler` of handlers/interactive.go: the session of one query. The terminal is the
-- list of lines that are read from it, and what is printed is kept.
pub mod Outcome
pub mod Desk
pub mod Report
pub mod Slot
pub mod Screen
use Prim.Native.Char.{code}
use Prim.Native.String.{◌++◌ as str_append}
use cursedns.Prelude.{
  ℕ, String, Bool, ◌||◌, ◌&&◌, Option, none, some, List, [], ◌∷◌, ◌++◌, is_empty, leb, ◌==◌,
  nat_beq, string_eq, equal_fold, to_lower, to_upper, if◌then◌else◌,
}
use cursedns.Dns.{Rr}
use cursedns.Resolver.Types.{
  Query, Response, NameServer, LookupResult, Error, reading_command, usage, unknown_command,
  operator_failed, invalid_record, lookup_failed, unknown_query_type, unknown_rcode, Result, ok,
  err, operator_note,
}
use cursedns.Resolver.Request.{Helper}
use cursedns.Handlers.Texts.{Texts, resolve_tokens}

-- `unicode.IsSpace`, of a code point
unfoldable pub is_space : ℕ → Bool
is_space c =
    nat_beq c b' '
    || leb 9 c && leb c 13
    || nat_beq c 133
    || nat_beq c 160
    || nat_beq c 5760
    || leb 8192 c && leb c 8202
    || nat_beq c 8232
    || nat_beq c 8233
    || nat_beq c 8239
    || nat_beq c 8287
    || nat_beq c 12288

unfoldable pub push_word : String → List String → List String
push_word String.[] words = words
push_word (String.◌∷◌ c s) words = String.◌∷◌ c s ∷ words

-- the first word, up to white space, and the words after it
unfoldable pub split_words : String → String × List String
split_words String.[] = ("", [])
split_words (String.◌∷◌ c s) =
    let (word, words) = split_words s in
    if is_space (code c) then ("", push_word word words) else (String.◌∷◌ c word, words)

-- `strings.Fields`, also after `strings.TrimSpace`
unfoldable pub fields : String → List String
fields s = let (word, words) = split_words s in push_word word words

-- `strings.Join(args, " ")`
unfoldable pub join : List String → String
join [] = ""
join (s ∷ []) = s
join (s ∷ t ∷ more) = str_append s (str_append " " (join (t ∷ more)))

-- `interactiveSession`, less what it is given
pub record Session : Type 0 where
  pub pending_answer : List Rr
  pub pending_ns : List Rr
  pub pending_extra : List Rr

abbrev pub empty_session : Session
empty_session = record { pending_answer = []; pending_ns = []; pending_extra = [] }

pub data Section : Type 0 where
  answer_section ns_section extra_section : Section

pub data Output : Type 0 where
  help_text trace_recorded cleared : Output
  query_line : Query → Output
  root_list : List NameServer → Output
  sections : Session → Output
  added : Rr → Output
  looked_up : LookupResult → Output
  rejected note_timed_out : Error → Output

-- the session, what was printed, and what the helper reaches
pub record Console (S : Type 0) : Type 0 where
  pub session : Session
  pub printed : List Output
  pub host : S

-- the cases of the `switch` in `dispatch`
pub data Command : Type 0 where
  help query roothints trace lookup add_answer add_ns add_extra pending clear respond fail : Command

abbrev pub commands : List (String × Command)
commands =
    ("help", help)
    ∷ ("query", query)
    ∷ ("roothints", roothints)
    ∷ ("trace", trace)
    ∷ ("lookup", lookup)
    ∷ ("add-answer", add_answer)
    ∷ ("add-ns", add_ns)
    ∷ ("add-extra", add_extra)
    ∷ ("pending", pending)
    ∷ ("clear", clear)
    ∷ ("respond", respond)
    ∷ ("fail", fail)
    ∷ []

-- the case of a word, in any letter case
unfoldable pub command_in : List (String × Command) → String → Option Command
command_in [] word = none
command_in ((name, command) ∷ more) word =
    let later = command_in more word in if equal_fold word name then some command else later

-- `target` of `addRR`
unfoldable pub append_to : Section → Rr → Session → Session
append_to answer_section rr s = record s { pending_answer = s.pending_answer ++ rr ∷ [] }
append_to ns_section rr s = record s { pending_ns = s.pending_ns ++ rr ∷ [] }
append_to extra_section rr s = record s { pending_extra = s.pending_extra ++ rr ∷ [] }

-- a command refused, done, or done and the session concluded with a `replResult`
abbrev pub Verdict : Type 0
Verdict = Result (Option (Result Response))

module _ (texts : Texts) {S : Type 0} (helper : Helper S) (asked : Query) where
  abbrev pub Act : Type 0
  Act = Console S → Verdict × Console S

  unfoldable pub print : Output → Console S → Console S
  print line c = record c { printed = c.printed ++ line ∷ [] }

  unfoldable pub note : List String → Act
  note args c = if is_empty args then (err (usage "trace <message>"), c) else (
    ok none,
    print trace_recorded (record c { host = helper.trace (operator_note (join args)) c.host }),
  )

  -- `addRR`
  unfoldable pub add_parsed : Section → Result Rr → Act
  add_parsed part (err e) c = (err (invalid_record e), c)
  add_parsed part (ok rr) c =
      (ok none, print (added rr) (record c { session = append_to part rr c.session }))

  unfoldable pub add_rr : Section → List String → Act
  add_rr part args c =
      if is_empty args
      then (err (usage "add-answer|add-ns|add-extra <RR in zone-file format>"), c)
      else add_parsed part (texts.new_rr (join args)) c

  -- `lookup`, once its arguments are read
  unfoldable pub show_lookup : Result LookupResult × S → Act
  show_lookup (err e, s) c = (err (lookup_failed e), record c { host = s })
  show_lookup (ok result, s) c = (ok none, print (looked_up result) (record c { host = s }))

  unfoldable pub lookup_from : String → String → ℕ → Result (List NameServer) → Act
  lookup_from zone name qtype (err e) c = (err e, c)
  lookup_from zone name qtype (ok servers) c =
      show_lookup (helper.lookup name qtype zone servers c.host) c

  unfoldable pub lookup_of : String → String → String → Option ℕ → List String → Act
  lookup_of zone name word none tokens c = (err (unknown_query_type word), c)
  lookup_of zone name word (some qtype) tokens c =
      lookup_from zone name qtype (resolve_tokens texts helper.root_hints tokens) c

  unfoldable pub run_lookup : List String → Act
  run_lookup (zone ∷ name ∷ word ∷ token ∷ tokens) c =
      lookup_of zone name word (texts.string_to_type (to_upper word)) (token ∷ tokens) c
  run_lookup _ c = (err (usage "lookup <zone> <name> <qtype> <ns...>"), c)

  -- `buildResponse`
  unfoldable pub respond_with : String → Option ℕ → Act
  respond_with word none c = (err (unknown_rcode word), c)
  respond_with word (some rcode) c = (
    ok (
        some (
          ok (record {
            rcode = rcode;
            answer = c.session.pending_answer;
            ns = c.session.pending_ns;
            extra = c.session.pending_extra;
          }))),
    c,
  )

  unfoldable pub build_response : List String → Act
  build_response [] c = (err (usage "respond <rcode>"), c)
  build_response (word ∷ _) c = respond_with word (texts.string_to_rcode (to_upper word)) c

  unfoldable pub give_up : List String → Act
  give_up args c =
      let msg = join args in
      (
        ok (some (err (operator_failed (if msg == "" then "operator failed the query" else msg)))),
        c,
      )

  -- the `switch`
  unfoldable pub execute : String → Option Command → List String → Act
  execute word none args c = (err (unknown_command (to_lower word)), c)
  execute word (some help) args c = (ok none, print help_text c)
  execute word (some query) args c = (ok none, print (query_line asked) c)
  execute word (some roothints) args c = (ok none, print (root_list helper.root_hints) c)
  execute word (some trace) args c = note args c
  execute word (some lookup) args c = run_lookup args c
  execute word (some add_answer) args c = add_rr answer_section args c
  execute word (some add_ns) args c = add_rr ns_section args c
  execute word (some add_extra) args c = add_rr extra_section args c
  execute word (some pending) args c = (ok none, print (sections c.session) c)
  execute word (some clear) args c = (ok none, print cleared (record c { session = empty_session }))
  execute word (some respond) args c = build_response args c
  execute word (some fail) args c = give_up args c

  -- `dispatch`, on the fields of the line
  unfoldable pub dispatch : List String → Act
  dispatch [] c = (ok none, c)
  dispatch (word ∷ args) c = execute word (command_in commands word) args c
