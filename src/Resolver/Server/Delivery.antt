-- ===== src/Resolver/Server/Delivery.antt =====
-- `handleMessage` of resolver/server.go on a query over TCP that the handler answers: what is sent
-- carries the records of the handler's response.
use cursedns.Prelude.{
  ℕ, String, true, false, ◌≡◌, refl, ◌∙◌, ap, some, List, [], ◌∷◌, ◌++◌, string_eq, Bool,
  if◌then◌else◌, arith,
}
use cursedns.Dns.{Msg, Question}
use cursedns.Resolver.Types.{Addr, Response, ok, tcp}
use cursedns.Resolver.Server.{
  Wire, Host, ServerState, Received, result, make_trace_id, request_id, query_of, available, fit,
  pack_reply, respond, send_reply, reply_to, record_trace, conclude, dispatch, on_question,
  on_request, on_unpacked, handle_message,
}
use cursedns.Resolver.Server.Packing.{IsWire}
use cursedns.Resolver.Server.Replies.{received_for, noted, record_trace-noted}

-- a reply to a request with the code, the answer and the authority section of a response
pub record Carries (req : Msg) (resp : Response) (reply : Msg) : Type 0 where
  pub same_id : reply.id ≡ req.id
  pub same_rcode : reply.rcode ≡ resp.rcode
  pub same_answer : reply.answer ≡ resp.answer
  pub same_ns : reply.ns ≡ resp.ns

-- such a reply is sent after the messages before
abbrev pub Delivered : Wire → Msg → Response → List (List ℕ) → List (List ℕ) → Type 0
Delivered wire req resp before after =
    (reply : Msg) × (out : List ℕ) × Carries req resp reply
    × (wire.pack reply ≡ ok out)
    × (after ≡ before ++ out ∷ [])

-- the reply of the server to a request, once the handler has given the response
abbrev pub reply_with : {S : Type 0} → Wire → Host S → ServerState S → Msg → Response → Msg
reply_with wire host s req resp =
    let (made, h) = make_trace_id host (host.now s.host).1 in
    record (wire.set_reply req) {
      recursion_available = true;
      rcode = resp.rcode;
      answer = resp.answer;
      ns = resp.ns;
      extra = noted s.trace_store (request_id made) resp.extra;
    }

-- this reply can be packed
abbrev pub Packs : {S : Type 0} → Wire → Host S → ServerState S → Msg → Response → Type 0
Packs wire host s req resp = (out : List ℕ) × (wire.pack (reply_with wire host s req resp) ≡ ok out)

module _ {S : Type 0} (wire : Wire) (host : Host S) (client : Addr × ℕ) where
  send_reply-sent :
      (req reply : Msg) (out : List ℕ) (s : ServerState S)
      → wire.pack (available wire reply) ≡ ok out
      → (send_reply wire req reply tcp s).sent ≡ s.sent ++ out ∷ []
  unfolding send_reply pack_reply respond fit
  send_reply-sent req reply out s e = rw (e, pack_reply) refl

  conclude-sent :
      (start : ℕ) (req : Msg) (question : Question) (id : String) (resp : Response)
      (received : Received) (out : List ℕ) (s : ServerState S)
      → received ≡ result (ok (some resp))
      → wire.pack (record (wire.set_reply req) {
        recursion_available = true;
        rcode = resp.rcode;
        answer = resp.answer;
        ns = resp.ns;
        extra = noted s.trace_store id resp.extra;
      })
        ≡ ok out
      → (conclude wire host tcp client start req question id received s).sent ≡ s.sent ++ out ∷ []
  unfolding conclude reply_to available
  conclude-sent start req question id resp received out s e packs =
      let received' = result (ok (some resp)) in
      let reply = reply_to wire req received' in
      let (same, kept) =
        record_trace-noted wire host tcp client start question id received' reply s in
      let (reply', s') = record_trace wire host tcp client start question id received' reply s in
      ap (λ r. (conclude wire host tcp client start req question id r s).sent) e
      ∙ send_reply-sent req reply' out s' (ap (λ m. wire.pack (available wire m)) same ∙ packs)
      ∙ ap (λ sent. sent ++ out ∷ []) kept

if-true : {A : Type 0} (b : Bool) (x y : A) → b ≡ true → (if b then x else y) ≡ x
if-true true x y e = refl
if-true false x y e = absurd (ground arith)

-- A query that wants recursion and has one question, over TCP, to which the handler gives a response
-- before the deadline, is answered with just one reply: it has the id of the query, and the code, the
-- answer and the authority section of the response. Whether it is traced or not, and given that this
-- reply can be packed, with the additional section of the response and the id of its trace, if any.
pub handle_message-Delivered :
    {S : Type 0} (wire : Wire) (laws : IsWire wire) (host : Host S) (client : Addr × ℕ)
    (raw : List ℕ) (req : Msg) (question : Question) (resp : Response) (s : ServerState S)
    → wire.unpack raw ≡ ok req
    → req.question ≡ question ∷ []
    → req.recursion_desired ≡ true
    → received_for host tcp client req question (host.now s.host).1 ≡ result (ok (some resp))
    → Packs wire host s req resp
    → Delivered wire req resp s.sent (handle_message wire host tcp client raw s).sent
unfolding handle_message on_unpacked on_request on_question dispatch
handle_message-Delivered {S} wire laws host client raw req question resp s from one wanted answered
      (out, packs) =
    let (start, h) = host.now s.host in
    let (made, h') = make_trace_id host h in
    let id = request_id made in
    let s' : ServerState S = record s { host = h } in
    let carries : Carries req resp (reply_with wire host s req resp) = record {
      same_id = laws.id_set_reply req;
      same_rcode = refl;
      same_answer = refl;
      same_ns = refl;
    } in
    let sends : (handle_message wire host tcp client raw s).sent ≡ s.sent ++ out ∷ [] =
      ap (λ unpacked. (on_unpacked wire host tcp client start unpacked s').sent) from
      ∙ ap (λ questions. (on_request wire host tcp client start req questions s').sent) one
      ∙ ap (λ (t : ServerState S). t.sent) (if-true req.recursion_desired _ _ wanted)
      ∙ conclude-sent wire host client start req question id resp _ out
          (record s { host = (host.receive (query_of req question tcp client) id h').1 }) answered
          packs in
    (reply_with wire host s req resp, out, carries, packs, sends)
