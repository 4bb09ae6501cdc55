-- ===== src/Tests/Desks.antt =====
-- The theorems on the terminal handler and on the flags, at concrete inputs.
use cursedns.Prelude.{ℕ, ◌≡◌, ◌≤◌, refl, length, false, none, [], ◌∷◌}
use cursedns.Resolver.Types.{ok}
use cursedns.Resolver.Request.{State}
use cursedns.Resolver.Helper.{request_helper}
use cursedns.Handlers.Interactive.{Console, empty_session, command_in, commands, dispatch}
use cursedns.Handlers.Interactive.Outcome
use cursedns.Handlers.Interactive.Outcome.{Ends}
use cursedns.Handlers.Interactive.Desk
use cursedns.Handlers.Interactive.Report
use cursedns.Handlers.Interactive.Report.{Reports}
use cursedns.Handlers.Interactive.Slot
use cursedns.Handlers.Interactive.Slot.{
  Slot, Step, taken, refused, Reachable, idle, after, try_send,
}
use cursedns.Main
use cursedns.Main.{Flags, IsReady, configure}
use cursedns.Samples.Domains.{domains}
use cursedns.Samples.Network.{net, hints, start, www, root_addr, web_a}
use cursedns.Samples.Models.{texts}

abbrev desk : Console (State ℕ)
desk = record {
  session = record empty_session { pending_answer = web_a ∷ [] };
  printed = [];
  host = start;
}

dispatch-Ends_example :
    Ends
      (command_in commands "Respond")
      desk.session
      (dispatch texts (request_helper net domains hints) www ("Respond" ∷ "noerror" ∷ []) desk)
dispatch-Ends_example =
    Outcome.dispatch-Ends texts (request_helper net domains hints) www "Respond" ("noerror" ∷ [])
      desk

handle-Reports_example :
    Reports texts
      (request_helper net domains hints)
      (λ s. none)
      www
      (Desk.handle texts
        (request_helper net domains hints)
        (λ s. none)
        www
        false
        ("roothints" ∷ "respond noerror" ∷ [])
        start)
handle-Reports_example =
    Report.handle-Reports texts (request_helper net domains hints) (λ s. none) www false
      ("roothints" ∷ "respond noerror" ∷ []) start

abbrev pub flags : Flags
flags = record {
  listen = [];
  timeout = 5000000000;
  timeout_set = false;
  handler = "recursive";
  static_ipv4 = "127.0.0.1";
  static_ipv6 = "";
  static_ttl = 60;
  gemini_model = "gemini-2.5-flash";
  gemini_max_turns = 0;
  gemini_max_tokens = 0;
  trace_http_listen = "127.0.0.1:8080";
  trace_capacity = 1000;
}

configure-IsReady_example : IsReady hints (configure (λ text. ok root_addr) (ok tt) flags)
configure-IsReady_example = Main.configure-IsReady (λ text. ok root_addr) (ok tt) hints flags

abbrev nobody : Slot
nobody = record { tokens = 0; working = []; turned_away = [] }

abbrev one_at_work : Slot
one_at_work = record { tokens = 1; working = 7 ∷ []; turned_away = [] }

abbrev one_refused : Slot
one_refused = record { tokens = 1; working = 7 ∷ []; turned_away = 8 ∷ [] }

first_taken : Step nobody one_at_work
unfolding try_send
first_taken = taken 7 1 refl

second_refused : Step one_at_work one_refused
unfolding try_send
second_refused = refused 8 refl

one_refused-Reachable : Reachable one_refused
one_refused-Reachable =
    after one_at_work one_refused (after nobody one_at_work idle first_taken) second_refused

Reachable-exclusive_example :
    (one_refused.tokens ≡ length one_refused.working) × (length one_refused.working ≤ 1)
Reachable-exclusive_example = Slot.Reachable-exclusive one_refused one_refused-Reachable
