-- ===== src/Tests/Servers.antt =====
-- The theorems on the server and on the handlers beside the recursive one, at concrete inputs.
use cursedns.Prelude.Map
use cursedns.Prelude.{
  ℕ, ◌≤◌, ◌≡◌, refl, String, zero, suc, Option, true, false, none, some, List, [], ◌∷◌, string_eq,
  arith,
}
use cursedns.Resolver.Types.{Error, external, ok, Protocol}
use cursedns.Resolver.TraceStore.{new_trace_store}
use cursedns.Resolver.TraceStore.Lists.{view}
use cursedns.Resolver.Helper.{request_helper}
use cursedns.Resolver.TraceStore.Ids.{id_program}
use cursedns.Resolver.Server.{handle_message, make_trace_id}
use cursedns.Resolver.Server.Packing.{Answered}
use cursedns.Resolver.Server.Replies
use cursedns.Resolver.Server.Replies.{code_for, meant_for}
use cursedns.Resolver.Server.Traces
use cursedns.Resolver.Server.Traces.{IsTraced, outcome_of}
use cursedns.Resolver.Server.Frames
use cursedns.Resolver.Server.Frames.{frames, serve_from, serve_tcp_conn, handle_all}
use cursedns.Resolver.Server.Listen
use cursedns.Resolver.Server.Listen.{
  Listener, udp_socket, tcp_socket, IsClosed, run, open_all, sockets,
}
use cursedns.Handlers.Static
use cursedns.Handlers.Static.{StaticHandler, Serves, configured}
use cursedns.Handlers.Gemini.{settings, or_default, times}
use cursedns.Handlers.Gemini.Turns
use cursedns.Handlers.Gemini.Meter.{metered_helper, metered_client, IsModest, Afforded}
use cursedns.Handlers.Gemini.Tokens
use cursedns.Handlers.Gemini.Limits
use cursedns.Handlers.Gemini.Limits.{counting_helper, counting_client, uncounted}
use cursedns.Samples.Domains.{domains}
use cursedns.Samples.Network.{net, hints, start, www, root_addr}
use cursedns.Samples.Hosts.{bytes, bytes-IsWire, home, running, www_question, query_msg}
use cursedns.Samples.Models.{texts, curious, decided, counter, three_lookups}
use cursedns.Tests.Witnesses.{one_IsValid}

abbrev fixed : StaticHandler
fixed = record { ipv4 = some root_addr; ipv6 = none; ttl = 60 }

handle-Serves_example :
    Serves fixed www
      (configured fixed www.qtype)
      (Static.handle fixed www (request_helper net domains hints) start).0
handle-Serves_example = Static.handle-Serves fixed www (request_helper net domains hints) start

handle_message-Answered_example :
    Answered bytes
      (code_for home Protocol.udp (root_addr, 5353) (home.now running.host).1)
      (meant_for bytes home Protocol.udp
        (root_addr, 5353)
        (home.now running.host).1
        running.trace_store)
      (bytes.unpack (1 ∷ []))
      running.sent
      (handle_message bytes home Protocol.udp (root_addr, 5353) (1 ∷ []) running).sent
handle_message-Answered_example =
    Replies.handle_message-Answered bytes bytes-IsWire home Protocol.udp (root_addr, 5353) (1 ∷ [])
      running

undesired : ¬ (false ≡ true)
undesired e = cc

handle_message-refused_example :
    ((handle_message bytes home Protocol.udp (root_addr, 5353) (0 ∷ []) running).trace_store
      ≡ running.trace_store)
    × ((handle_message bytes home Protocol.udp (root_addr, 5353) (0 ∷ []) running).host
        ≡ (home.now running.host).1)
handle_message-refused_example =
    Traces.handle_message-refused bytes home Protocol.udp (root_addr, 5353) (0 ∷ []) running
      undesired

nothing_stored : Map.lookup "a1" (view (new_trace_store 1).ll) ≡ none
unfolding new_trace_store Map.lookup
nothing_stored = refl

made_a1 : (make_trace_id home (home.now running.host).1).0 ≡ ok "a1"
unfolding id_program
made_a1 = refl

handle_message-IsTraced_example :
    let (received, h) =
      outcome_of bytes bytes-IsWire home Protocol.udp
        (root_addr, 5353)
        (query_msg true)
        www_question
        "a1"
        (home.now running.host).1 in
    IsTraced bytes bytes-IsWire home Protocol.udp
      (root_addr, 5353)
      "a1"
      www_question
      received
      (home.trace_lines (home.now h).1)
      (handle_message bytes home Protocol.udp (root_addr, 5353) (1 ∷ []) running).trace_store
handle_message-IsTraced_example =
    Traces.handle_message-IsTraced bytes bytes-IsWire home Protocol.udp (root_addr, 5353) (1 ∷ [])
      (query_msg true) www_question "a1" running (new_trace_store 1) refl refl refl made_a1 refl
      refl one_IsValid nothing_stored

abbrev two_messages : List (List ℕ)
two_messages = (1 ∷ []) ∷ (0 ∷ 0 ∷ []) ∷ []

serve_tcp_conn-frames_example :
    serve_tcp_conn bytes home (root_addr, 5353) (frames two_messages) running
    ≡ handle_all bytes home (root_addr, 5353) two_messages running
serve_tcp_conn-frames_example =
    Frames.serve_tcp_conn-frames bytes home (root_addr, 5353) two_messages running
      (omega arith, (omega arith, tt))

serve_from-fuel_example :
    serve_from bytes home (root_addr, 5353) 9 (0 ∷ 1 ∷ 1 ∷ 0 ∷ []) running
    ≡ serve_from bytes home (root_addr, 5353) 5 (0 ∷ 1 ∷ 1 ∷ 0 ∷ []) running
serve_from-fuel_example =
    Frames.serve_from-fuel bytes home (root_addr, 5353) 9 5 (0 ∷ 1 ∷ 1 ∷ 0 ∷ []) running
      (omega arith) (omega arith)

-- the first address is free, the TCP port of any other is taken
abbrev listen_once : Listener → ℕ → Option Error × ℕ
listen_once (udp_socket addr) n = (none, n)
listen_once (tcp_socket addr) zero = (none, 1)
listen_once (tcp_socket addr) (suc n) = (some (external "address already in use"), n)

abbrev cancelled : ℕ → Error × ℕ
cancelled n = (external "context canceled", n)

abbrev two_addrs : List String
two_addrs = "127.0.0.1:8053" ∷ "[::1]:8053" ∷ []

run-IsClosed_example :
    (ls : List Listener) × IsClosed ls (run listen_once cancelled two_addrs 0).1
    × (((open_all listen_once two_addrs (record { listeners = []; log = []; world = 0 })).0 ≡ none)
        → ls ≡ sockets two_addrs)
run-IsClosed_example = Listen.run-IsClosed listen_once cancelled two_addrs 0

handle-Limits_example :
    let s =
      (Turns.handle texts
        (counting_helper (request_helper net domains hints))
        (counting_client curious)
        three_lookups
        www
        (uncounted start)).1 in
    (s.generated ≤ times (settings three_lookups).max_turns)
    × (s.looked_up ≤ times (settings three_lookups).max_total_lookups)
handle-Limits_example =
    Limits.handle-Limits texts (request_helper net domains hints) curious three_lookups www start

-- a model that asks for a lookup at the first turn and answers at the second, over a counting helper
cheap : IsModest decided (settings three_lookups).max_token_budget
unfolding settings or_default
cheap input s = omega arith

handle-Afforded_example : Afforded (settings three_lookups).max_token_budget (
    Turns.handle texts
      (metered_helper counter)
      (metered_client decided)
      three_lookups
      www
      (record { spent = 0; inner = 0 }))
handle-Afforded_example = Tokens.handle-Afforded texts counter decided three_lookups www 0 cheap
