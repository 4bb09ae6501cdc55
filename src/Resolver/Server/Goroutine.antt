-- ===== src/Resolver/Server/Goroutine.antt =====
-- A goroutine of resolver/server.go that runs `handleMessage`, in the two steps that its handler
-- parts: up to the start of the handler, and from the result or the deadline on.
use cursedns.Prelude.{ℕ, String, Option, List, [], ◌∷◌, ◌++◌, map, if◌then◌else◌}
use cursedns.Dns.{Msg, Question, rcode_format_error, rcode_refused}
use cursedns.Resolver.Types.{Addr, Result, ok, err, Protocol}
use cursedns.Resolver.TraceStore.{TraceStore}
use cursedns.Resolver.Server.{
  make_trace_id, Wire, Host, ServerState, Received, request_id, send_reply, conclude,
}

-- a message with the client that it came from
pub record Datagram : Type 0 where
  pub client : Addr × ℕ
  pub raw : List ℕ

-- a goroutine that waits for its handler
pub record Job : Type 0 where
  pub datagram : Datagram
  pub start : ℕ
  pub req : Msg
  pub question : Question
  pub id : String

-- The goroutines and what they share: datagrams that are still to be read, those dropped as
-- malformed, the requests whose handlers run, the replies with the datagrams they answer.
pub record Traffic (S : Type 0) : Type 0 where
  pub unread : List Datagram
  pub dropped : List Datagram
  pub jobs : List Job
  pub outbox : List (Datagram × List ℕ)
  pub trace_store : Option TraceStore
  pub host : S

module _ {S : Type 0} (wire : Wire) (host : Host S) (protocol : Protocol) where
  -- what the functions of the server see: nothing sent yet
  abbrev pub fresh : Traffic S → ServerState S
  fresh t = record { trace_store = t.trace_store; sent = []; host = t.host }

  -- a goroutine that ends with what it sent and left
  unfoldable pub finish : Datagram → ServerState S → Traffic S → Traffic S
  finish d s t = record t {
    outbox = map (λ out. (d, out)) s.sent ++ t.outbox;
    trace_store = s.trace_store;
    host = s.host;
  }

  -- the end at once of a request that is refused
  unfoldable pub refuse : Datagram → Msg → ℕ → Traffic S → Traffic S
  refuse d req code t =
      finish d (send_reply wire req (wire.set_rcode req code) protocol (fresh t)) t

  -- the start of the handler
  unfoldable pub begin : Datagram → ℕ → Msg → Question → Traffic S → Traffic S
  begin d start req question t =
      let (made, h) = make_trace_id host t.host in
      let job : Job = record {
        datagram = d;
        start = start;
        req = req;
        question = question;
        id = request_id made;
      } in
      record t { jobs = job ∷ t.jobs; host = h }

  unfoldable pub admit : Datagram → ℕ → Msg → List Question → Traffic S → Traffic S
  admit d start req (question ∷ []) t =
      if req.recursion_desired then begin d start req question t else refuse d req rcode_refused t
  admit d start req _ t = refuse d req rcode_format_error t

  -- `handleMessage` up to the start of the handler
  unfoldable pub arrive : Datagram → ℕ → Result Msg → Traffic S → Traffic S
  arrive d start (err e) t = record t { dropped = d ∷ t.dropped }
  arrive d start (ok req) t = admit d start req req.question t

  unfoldable pub receive : Datagram → Traffic S → Traffic S
  receive d t =
      let (start, h) = host.now t.host in arrive d start (wire.unpack d.raw) (record t { host = h })

  -- the rest, after the `select`
  unfoldable pub complete : Job → Received → Traffic S → Traffic S
  complete j received t =
      finish j.datagram
        (conclude wire host protocol j.datagram.client j.start j.req j.question j.id received
          (fresh t))
        t

-- a server that has read nothing yet
abbrev pub quiet : {S : Type 0} → List Datagram → Option TraceStore → S → Traffic S
quiet datagrams store h = record {
  unread = datagrams;
  dropped = [];
  jobs = [];
  outbox = [];
  trace_store = store;
  host = h;
}
