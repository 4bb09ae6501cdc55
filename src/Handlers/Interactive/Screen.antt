-- ===== src/Handlers/Interactive/Screen.antt =====
-- What the terminal handler of handlers/interactive.go prints, as text.
use Prim.Native.String.{◌++◌ as str_append}
use cursedns.Prelude.{ℕ, String, List, [], ◌∷◌, map, is_empty, if◌then◌else◌, ◌&&◌}
use cursedns.Dns.{Rr}
use cursedns.Resolver.Types.{Addr, Query, NameServer, LookupResult, Protocol, udp, tcp}
use cursedns.Handlers.Texts.{Texts}
use cursedns.Handlers.Interactive.{
  Session, Output, help_text, trace_recorded, cleared, query_line, root_list, sections, added,
  looked_up, rejected, note_timed_out,
}

-- how `fmt` writes a number, an address, and an address with a port
pub record Formats : Type 0 where
  pub number : ℕ → String
  pub addr : Addr → String
  pub addr_port : Addr × ℕ → String

-- texts one after the other
unfoldable pub concat : List String → String
concat [] = ""
concat (s ∷ ss) = str_append s (concat ss)

unfoldable pub protocol_text : Protocol → String
protocol_text udp = "udp"
protocol_text tcp = "tcp"

unfoldable pub end_line : String → String
end_line s = str_append s "\n"

abbrev pub help_lines : List String
help_lines =
    "commands:" ∷ "  query                                  show the current query"
    ∷ "  roothints                              list root nameservers"
    ∷ "  trace <message>                        record a trace line for this request's log entry"
    ∷ "  lookup <zone> <name> <qtype> <ns...>   call Helper.Lookup; each ns is \"root\" or host@ip"
    ∷ "  add-answer <RR>                        add a record (zone-file format) to the pending answer section"
    ∷ "  add-ns <RR>                            add a record to the pending authority section"
    ∷ "  add-extra <RR>                         add a record to the pending additional section"
    ∷ "  pending                                show the pending answer/ns/extra sections"
    ∷ "  clear                                  discard the pending sections"
    ∷ "  respond <rcode>                        return the pending sections as the response, e.g. \"respond noerror\""
    ∷ "  fail [message]                         abandon the query with an error (server responds SERVFAIL)"
    ∷ "  help                                   show this help" ∷ ""
    ∷ "RRs printed by \"lookup\" are already in the right format to paste into add-answer/add-ns/add-extra."
    ∷ []

-- `printHelp`
unfoldable pub print_help : String
print_help = concat (map end_line help_lines)

module _ (texts : Texts) (formats : Formats) where
  -- `printQuery`
  unfoldable pub print_query : Query → String
  print_query q = concat (
      "id="
      ∷ formats.number q.id
      ∷ " name="
      ∷ q.name
      ∷ " type="
      ∷ texts.type_to_string q.qtype
      ∷ " class="
      ∷ texts.class_to_string q.class
      ∷ " client="
      ∷ formats.addr_port q.client_addr
      ∷ " proto="
      ∷ protocol_text q.protocol
      ∷ "\n"
      ∷ [])

  unfoldable pub root_line : NameServer → String
  root_line ns = concat ("  " ∷ ns.name ∷ " @ " ∷ formats.addr ns.addr ∷ "\n" ∷ [])

  -- `printRootHints`
  unfoldable pub print_root_hints : List NameServer → String
  print_root_hints roots = concat (map root_line roots)

  unfoldable pub record_line : Rr → String
  record_line rr = concat ("  " ∷ texts.rr_to_string rr ∷ "\n" ∷ [])

  -- `printSection`
  unfoldable pub print_section : String → List Rr → String
  print_section label rrs =
      if is_empty rrs
      then ""
      else str_append label (str_append ":\n" (concat (map record_line rrs)))

  -- `printPending`
  unfoldable pub print_pending : Session → String
  print_pending s = concat (
      print_section "answer" s.pending_answer
      ∷ print_section "ns" s.pending_ns
      ∷ print_section "extra" s.pending_extra
      ∷ (if is_empty s.pending_answer && (is_empty s.pending_ns && is_empty s.pending_extra)
          then "(nothing pending)\n"
          else "")
      ∷ [])

  -- the end of `lookup`
  unfoldable pub print_lookup : LookupResult → String
  print_lookup r = concat (
      "rcode: "
      ∷ texts.rcode_to_string r.rcode
      ∷ "\n"
      ∷ print_section "answer" r.answer
      ∷ print_section "ns" r.ns
      ∷ print_section "extra" r.extra
      ∷ [])

  -- what is printed, an output at a time
  unfoldable pub text_of : Output → String
  text_of help_text = print_help
  text_of trace_recorded = "ok\n"
  text_of cleared = "cleared the pending answer/ns/extra sections\n"
  text_of (query_line q) = print_query q
  text_of (root_list roots) = print_root_hints roots
  text_of (sections s) = print_pending s
  text_of (added rr) = concat ("added: " ∷ texts.rr_to_string rr ∷ "\n" ∷ [])
  text_of (looked_up r) = print_lookup r
  text_of (rejected e) = concat ("error: " ∷ texts.error_text e ∷ "\n" ∷ [])
  text_of (note_timed_out e) = concat (
      "note: this query already timed out server-side ("
      ∷ texts.error_text e
      ∷ "); the client was already sent SERVFAIL.\n"
      ∷ [])
