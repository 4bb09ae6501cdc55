-- ===== src/Resolver/Server.antt =====
-- `handleMessage` and `sendReply` of resolver/server.go, less what they log. The handler runs beside
-- the server, which waits for its result or for the deadline.
pub mod Packing
pub mod Delivery
pub mod Replies
pub mod Traces
pub mod Frames
pub mod Listen
pub mod Accept
pub mod Goroutine
pub mod Udp
pub mod Tcp
use cursedns.Prelude.{
  ℕ, ◌-◌, ◌/◌, String, Bool, true, false, not, Option, none, some, List, [], ◌∷◌, ◌++◌, ltb, ◌==◌,
  string_eq, if◌then◌else◌,
}
use cursedns.Dns.{
  Rr, Rdata, Msg, Question, type_txt, class_inet, rcode_format_error, rcode_server_failure,
  rcode_refused,
}
use cursedns.Resolver.Types.{Addr, Query, Response, Error, Result, ok, err, Protocol, udp, tcp}
use cursedns.Resolver.TraceStore.{TraceRecord, TraceStore, put}
use cursedns.Resolver.TraceStore.Ids.{new_trace_id}

-- What the server uses of miekg/dns on whole messages.
pub record Wire : Type 0 where
  -- `Unpack`, into a new message
  pub unpack : List ℕ → Result Msg
  -- `SetReply`, `SetRcode`, on a new message
  pub set_reply : Msg → Msg
  pub set_rcode : Msg → ℕ → Msg
  -- the size that the option of `IsEdns0` gives
  pub edns_udp_size : Msg → Option ℕ
  pub truncate : ℕ → Msg → Msg
  pub pack : Msg → Result (List ℕ)

-- what the `select` takes first: the deadline, or the result of the handler
pub data Received : Type 0 where
  done : Received
  result : Result (Option Response) → Received

-- What surrounds a request: the clock, the source of ids, the handler with its helper, and the
-- tables and formats that make texts.
pub record Host (S : Type 0) : Type 0 where
  -- `time.Now`
  pub now : S → ℕ × S
  -- `rand.Read`, of 16 bytes
  pub read_random : S → Result (List ℕ) × S
  -- the handler is started on a query, its helper traces under an id, and the `select` waits
  pub receive : Query → String → S → Received × S
  -- `traceLines` of that helper
  pub trace_lines : S → List String
  pub type_text : ℕ → String
  pub rcode_text : ℕ → String
  pub addr_text : Addr × ℕ → String
  -- the outcome of a handler's error
  pub error_text : Error → String

abbrev pub make_trace_id : {S : Type 0} → Host S → S → Result String × S
make_trace_id host s = let (raw, s') = host.read_random s in (new_trace_id raw, s')

-- `sent` are the messages given to `respond`, `host` is all that `Host` reaches.
pub record ServerState (S : Type 0) : Type 0 where
  pub trace_store : Option TraceStore
  pub sent : List (List ℕ)
  pub host : S

-- `dns.MinMsgSize`
abbrev pub min_msg_size : ℕ
min_msg_size = 512

-- the record that shows the id of the trace
unfoldable pub trace_txt : String → Rr
trace_txt id = record {
  hdr = record {
    name = "_cursedns-trace.invalid.";
    rrtype = type_txt;
    class = class_inet;
    ttl = 0;
  };
  rdata = Rdata.txt (id ∷ []);
}

module _ (wire : Wire) where
  -- the size to which a reply is truncated
  unfoldable pub udp_size : Msg → ℕ
  udp_size req = elim (wire.edns_udp_size req) [
    | none ↦ min_msg_size
    | some size ↦ if ltb min_msg_size size then size else min_msg_size
  ]

  unfoldable pub available : Msg → Msg
  available reply = record reply { recursion_available = true }

  unfoldable pub fit : Protocol → Msg → Msg → Msg
  fit udp req reply = wire.truncate (udp_size req) reply
  fit tcp req reply = reply

  -- the reply, and what stands in for one that can not be packed
  unfoldable pub pack_reply : Msg → Protocol → Msg → Result (List ℕ)
  pack_reply req protocol reply = elim (wire.pack (fit protocol req (available reply))) [
    | ok out ↦ ok out
    | err e ↦ wire.pack (available (wire.set_rcode req rcode_server_failure))
  ]

  module _ {S : Type 0} where
    unfoldable pub respond : Result (List ℕ) → ServerState S → ServerState S
    respond (ok out) s = record s { sent = s.sent ++ out ∷ [] }
    respond (err e) s = s

    -- `sendReply`
    unfoldable pub send_reply : Msg → Msg → Protocol → ServerState S → ServerState S
    send_reply req reply protocol = respond (pack_reply req protocol reply)

  -- the reply to a query that reached the handler
  unfoldable pub reply_to : Msg → Received → Msg
  reply_to req done = wire.set_rcode req rcode_server_failure
  reply_to req (result (err e)) = wire.set_rcode req rcode_server_failure
  reply_to req (result (ok none)) = wire.set_rcode req rcode_server_failure
  reply_to req (result (ok (some resp))) = record (wire.set_reply req) {
    rcode = resp.rcode;
    answer = resp.answer;
    ns = resp.ns;
    extra = resp.extra;
  }

-- `outcome`
unfoldable pub outcome_text : (Error → String) → Received → String
outcome_text error_text done = "timeout"
outcome_text error_text (result (err e)) = error_text e
outcome_text error_text (result (ok none)) = "handler returned nil response"
outcome_text error_text (result (ok (some resp))) = "ok"

-- `Query` of a question
unfoldable pub query_of : Msg → Question → Protocol → Addr × ℕ → Query
query_of req question protocol client = record {
  id = req.id;
  name = question.name;
  qtype = question.qtype;
  class = question.qclass;
  client_addr = client;
  protocol = protocol;
}

unfoldable pub protocol_text : Protocol → String
protocol_text udp = "udp"
protocol_text tcp = "tcp"

-- `requestID`, empty when none could be made
unfoldable pub request_id : Result String → String
request_id (ok id) = id
request_id (err e) = ""

module _ {S : Type 0} (wire : Wire) (host : Host S) (protocol : Protocol) (client : Addr × ℕ) where
  -- the `TraceRecord` of a request, of `start` and the time when it is made
  unfoldable pub trace_record : ℕ → ℕ → Question → ℕ → Received → S → TraceRecord
  trace_record start t question rcode received h = record {
    id = "";
    name = question.name;
    qtype = host.type_text question.qtype;
    rcode = host.rcode_text rcode;
    outcome = outcome_text host.error_text received;
    client_addr = host.addr_text client;
    protocol = protocol_text protocol;
    duration_ms = (t - start) / 1000000;
    created_at = 0;
    lines = host.trace_lines h;
  }

  -- `if s.TraceStore != nil && requestID != "" { … }`: the reply, and the server after `Put`
  unfoldable pub record_trace :
      ℕ → Question → String → Received → Msg → ServerState S → Msg × ServerState S
  record_trace start question id received reply s = elim s.trace_store [
    | none ↦ (reply, s)
    | some store ↦
        if id == ""
        then (reply, s)
        else (let (t, h) = host.now s.host in
            let entry = trace_record start t question reply.rcode received h in
            let (now, h') = host.now h in
            (
              record reply { extra = reply.extra ++ trace_txt id ∷ [] },
              record s { trace_store = some (put now id entry store); host = h' },
            ))
  ]

  -- what follows the result of the handler
  unfoldable pub conclude : ℕ → Msg → Question → String → Received → ServerState S → ServerState S
  conclude start req question id received s =
      let (reply, s') = record_trace start question id received (reply_to wire req received) s in
      send_reply wire req reply protocol s'

  -- the part for a query that is served
  unfoldable pub dispatch : ℕ → Msg → Question → ServerState S → ServerState S
  dispatch start req question s =
      let (made, h) = make_trace_id host s.host in
      let id = request_id made in
      let (received, h') = host.receive (query_of req question protocol client) id h in
      conclude start req question id received (record s { host = h' })

  -- what follows the test of the number of questions
  unfoldable pub on_question : ℕ → Msg → Question → ServerState S → ServerState S
  on_question start req question s =
      if req.recursion_desired
      then dispatch start req question s
      else send_reply wire req (wire.set_rcode req rcode_refused) protocol s

  unfoldable pub on_request : ℕ → Msg → List Question → ServerState S → ServerState S
  on_request start req (question ∷ []) s = on_question start req question s
  on_request start req _ s = send_reply wire req (wire.set_rcode req rcode_format_error) protocol s

  -- what follows `Unpack`
  unfoldable pub on_unpacked : ℕ → Result Msg → ServerState S → ServerState S
  on_unpacked start (err e) s = s
  on_unpacked start (ok req) s = on_request start req req.question s

  -- `handleMessage`
  unfoldable pub handle_message : List ℕ → ServerState S → ServerState S
  handle_message raw s =
      let (start, h) = host.now s.host in
      on_unpacked start (wire.unpack raw) (record s { host = h })

-- All of the server, to be named on one `unfolding` line where a run is computed.
unfoldable pub server_program : Unit {0}
unfolding trace_txt udp_size available fit pack_reply respond send_reply reply_to outcome_text
    query_of protocol_text request_id trace_record record_trace conclude dispatch on_question
    on_request on_unpacked handle_message
server_program = tt
