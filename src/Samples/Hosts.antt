-- ===== src/Samples/Hosts.antt =====
-- Messages of one byte, and a server whose handler is the recursive one on the sample network.
use cursedns.Prelude.{
  arith, ℕ, Bool, true, ◌≡◌, refl, none, some, List, [], ◌∷◌, ◌<◌, ltb, ◌==◌, nat_eq, if◌then◌else◌,
}
use cursedns.Dns.{Msg, Question, type_a, class_inet, rcode_success}
use cursedns.Resolver.Types.{Result, ok, err, external}
use cursedns.Resolver.Request.{State}
use cursedns.Resolver.TraceStore.{new_trace_store}
use cursedns.Resolver.Server.{Wire, Host, ServerState, available}
use cursedns.Resolver.Server.Packing.{IsWire}
use cursedns.Main.Serving.{Tables, recursive_host}
use cursedns.Samples.Domains.{domains}
use cursedns.Samples.Network.{message, net, hints, start}

abbrev pub www_question : Question
www_question = record { name = "www.example.com."; qtype = type_a; qclass = class_inet }

-- a query with or without the wish for recursion
abbrev pub query_msg : Bool → Msg
query_msg desired = record (message rcode_success [] [] []) {
  recursion_desired = desired;
  question = www_question ∷ [];
}

abbrev pub reply_msg : Msg → ℕ → Msg
reply_msg req code = record (message code [] [] []) { id = req.id; question = req.question }

abbrev pub unpack_byte : List ℕ → Result Msg
unpack_byte (b ∷ []) = ok (query_msg (b == 1))
unpack_byte _ = err (external "bad message")

-- a code that is too large is not packed
abbrev pub bytes : Wire
bytes = record {
  unpack = unpack_byte;
  set_reply = λ req. reply_msg req rcode_success;
  set_rcode = reply_msg;
  edns_udp_size = λ req. none;
  truncate = λ n m. record m { extra = [] };
  pack = λ m. if ltb m.rcode 16 then ok (m.rcode ∷ []) else err (external "bad rcode");
}

pub if_small : (code : ℕ) → code < 16 → ltb code 16 ≡ true
if_small code h = ground arith

pub bytes-IsWire : IsWire bytes
unfolding available
bytes-IsWire = record {
  id_set_rcode = λ req code. refl;
  id_set_reply = λ req. refl;
  rcode_set_rcode = λ req code. refl;
  id_truncate = λ n m. refl;
  rcode_truncate = λ n m. refl;
  available_truncate = λ n m. refl;
  pack_set_rcode = λ raw req code from small. (code ∷ [], rw (if_small code small) refl);
}

abbrev pub tables : Tables ℕ
tables = record {
  read_random = λ w. (ok (161 ∷ []), w);
  line_text = λ line. "line";
  type_text = λ n. "A";
  rcode_text = λ n. "NOERROR";
  addr_text = λ addr. "127.0.0.1:5353";
  error_text = λ e. "handler error";
}

abbrev pub home : Host (State ℕ)
home = recursive_host net domains hints tables

abbrev pub running : ServerState (State ℕ)
running = record { trace_store = some (new_trace_store 1); sent = []; host = start }
