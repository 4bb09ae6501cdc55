-- ===== src/Main/Serving.antt =====
-- The server of resolver/server.go with the recursive handler and the helper of resolver/helper.go, in
-- the runs where the handler returns before the deadline.
use cursedns.Prelude.{All, ℕ, ◌≤◌, String, true, ◌≡◌, ap, some, List, [], ◌∷◌, map}
use cursedns.Dns.{Msg, Question}
use cursedns.Dns.Names.{Names}
use cursedns.Resolver.Types.{Addr, NameServer, Response, Error, Result, ok, err, tcp}
use cursedns.Resolver.Request.{Env, Line, State, key_of, new_request_helper, trace_lines}
use cursedns.Resolver.Helper.{request_helper}
use cursedns.Resolver.Helper.Steady.{IsSteady}
use cursedns.Resolver.Helper.Cold.{Misses, IsCalm}
use cursedns.Resolver.Server.{Wire, Host, ServerState, Received, result, query_of, handle_message}
use cursedns.Resolver.Server.Packing.{IsWire}
use cursedns.Resolver.Server.Delivery.{Delivered, Packs, handle_message-Delivered}
use cursedns.Handlers.Recursive.{max_cname_restarts, max_total_lookups, handle}
use cursedns.Handlers.Recursive.Follows.{Follows, handle-Follows}

-- the source of random bytes, and the tables and formats that make texts
pub record Tables (W : Type 0) : Type 0 where
  pub read_random : W → Result (List ℕ) × W
  pub line_text : Line → String
  pub type_text : ℕ → String
  pub rcode_text : ℕ → String
  pub addr_text : Addr × ℕ → String
  pub error_text : Error → String

-- the `handlerResult` that the goroutine of the handler sends
abbrev pub received_of : Result Response → Received
received_of (ok resp) = result (ok (some resp))
received_of (err e) = result (err e)

-- A request has a helper of its own, which writes to the shared cache.
abbrev pub recursive_host :
    (env : Env) → Names → List NameServer → Tables env.World → Host (State env.World)
recursive_host env d hints tables = record {
  now = λ s. let (t, w) = env.now s.world in (t, record s { world = w });
  read_random = λ s. let (raw, w) = tables.read_random s.world in (raw, record s { world = w });
  receive = λ query id s.
      let (answered, s') =
        handle (request_helper env d hints) query (new_request_helper s.cache s.world) in
      (received_of answered, s');
  trace_lines = λ s. map tables.line_text (trace_lines s);
  type_text = tables.type_text;
  rcode_text = tables.rcode_text;
  addr_text = tables.addr_text;
  error_text = tables.error_text;
}

-- A query over TCP that wants recursion is answered with the records that the nameservers have for its
-- name, and for the names that aliases in them lead to, in one reply with its id. For each of these
-- names the first nameserver of a zone that responds delegates with glue, from the root hints down,
-- until one answers, and each nameserver does the same whenever it is asked. Given that no more than 8
-- names, 20 zones for each and 100 lookups are needed, that the handler returns before the deadline,
-- that the caches have nothing on the names and other requests store nothing for them, that no
-- response before the answer to a name carries what would be cached for it, that the request is never
-- cancelled, and that miekg/dns can pack the reply that the server makes of these records.
pub handle_message-Follows :
    (env : Env) (d : Names) (hints : List NameServer) (tables : Tables env.World)
    (answers : String → ℕ → Addr → Result Msg) (wire : Wire) (client : Addr × ℕ) (raw : List ℕ)
    (req : Msg) (question : Question) (s : ServerState (State env.World)) (later : List String)
    {p c : ℕ} {resp : Response}
    → IsWire wire
    → wire.unpack raw ≡ ok req
    → req.question ≡ question ∷ []
    → req.recursion_desired ≡ true
    → ((name : String) (qtype : ℕ) (zone : String)
        → IsSteady env d name qtype zone (answers name qtype))
    → All (λ name. IsCalm env (key_of (d.fqdn name) question.qtype)) (question.name ∷ later)
    → All
        (λ name. Misses (key_of (d.fqdn name) question.qtype) s.host.cache)
        (question.name ∷ later)
    → Follows d hints answers question.qtype question.name later [] p c resp
    → p ≤ max_cname_restarts
    → c ≤ max_total_lookups
    → Packs wire (recursive_host env d hints tables) s req resp
    → Delivered wire req resp s.sent
        (handle_message wire (recursive_host env d hints tables) tcp client raw s).sent
unfolding query_of
handle_message-Follows env d hints tables answers wire client raw req question s later laws from one
      wanted steady calm m follows few afforded packs =
    handle_message-Delivered wire laws (recursive_host env d hints tables) client raw req question _
      s from one wanted
      (ap received_of (
        handle-Follows env d hints answers steady (query_of req question tcp client) _ later calm m
          follows few afforded))
      packs
