-- ===== src/Tests/ServerRuns.antt =====
-- What the server and the handlers compute on inputs that can be followed in the source.
use cursedns.Prelude.{◌≡◌, refl, [], ◌∷◌}
use cursedns.Resolver.Types.{Protocol}
use cursedns.Resolver.TraceStore.{new_trace_store, back, remove, evict, put}
use cursedns.Resolver.TraceStore.Ids.{id_program}
use cursedns.Resolver.Server.{handle_message, server_program}
use cursedns.Resolver.Server.Frames.{read_full, uint16, frame, frames, serve_from, serve_tcp_conn}
use cursedns.Handlers.Texts.{cut_at, host_and_addr}
use cursedns.Handlers.Interactive.Screen.{
  Formats, concat, record_line, print_section, print_pending, text_of,
}
use cursedns.Handlers.Interactive.{
  empty_session, sections, is_space, push_word, split_words, fields,
}
use cursedns.Samples.Network.{root_addr, web_a}
use cursedns.Samples.Hosts.{bytes, home, running}
use cursedns.Samples.Models.{texts}
use cursedns.Tests.Runs.{recursive_program}

unfoldable pub store_program : Unit {0}
unfolding new_trace_store back remove evict put
store_program = tt

-- a query that is served, one that does not desire recursion, and a message that is malformed
handle_message_run :
    (handle_message bytes home Protocol.udp (root_addr, 5353) (1 ∷ []) running).sent ≡ (0 ∷ []) ∷ []
unfolding recursive_program server_program store_program id_program
handle_message_run = refl

refused_run :
    (handle_message bytes home Protocol.udp (root_addr, 5353) (0 ∷ []) running).sent ≡ (5 ∷ []) ∷ []
unfolding server_program
refused_run = refl

dropped_run : (handle_message bytes home Protocol.udp (root_addr, 5353) [] running).sent ≡ []
unfolding server_program
dropped_run = refl

-- two framed messages and the first byte of a third
serve_tcp_conn_run :
    (serve_tcp_conn bytes home (root_addr, 5353) (0 ∷ 1 ∷ 0 ∷ 0 ∷ 1 ∷ 0 ∷ 0 ∷ []) running).sent
    ≡ (5 ∷ []) ∷ (5 ∷ []) ∷ []
unfolding server_program read_full uint16 frame frames serve_from serve_tcp_conn
serve_tcp_conn_run = refl

host_and_addr_run :
    host_and_addr texts "ns.example.com.@192.0.2.1" ≡ ("ns.example.com.", "192.0.2.1")
unfolding cut_at host_and_addr
host_and_addr_run = refl

bare_addr_run : host_and_addr texts "192.0.2.1" ≡ ("192.0.2.1", "192.0.2.1")
unfolding cut_at host_and_addr
bare_addr_run = refl

fields_run : fields "  lookup .  www A root " ≡ "lookup" ∷ "." ∷ "www" ∷ "A" ∷ "root" ∷ []
unfolding is_space push_word split_words fields
fields_run = refl

abbrev plain : Formats
plain = record { number = λ n. "7"; addr = λ a. "192.0.2.1"; addr_port = λ a. "192.0.2.1:53" }

pending_run :
    text_of texts plain (sections (record empty_session { pending_ns = web_a ∷ [] }))
    ≡ "ns:\n  record\n"
unfolding text_of print_pending print_section record_line concat
pending_run = refl

nothing_pending_run : text_of texts plain (sections empty_session) ≡ "(nothing pending)\n"
unfolding text_of print_pending print_section concat
nothing_pending_run = refl
