-- ===== src/Resolver/Server/Replies.antt =====
-- The replies of the server: how many, with which code, and who sees the query.
use cursedns.Prelude.{
  ℕ, ◌≡◌, refl, ◌∙◌, ap, Bool, true, false, String, Option, none, some, List, [], ◌∷◌, ◌++◌, inl,
  inr, Bool-cases, Option-cases, if◌then◌else◌, ◌==◌, string_eq,
}
use cursedns.Dns.{Rr, Msg, Question, rcode_format_error, rcode_server_failure, rcode_refused}
use cursedns.Resolver.Types.{Addr, Result, ok, err, Protocol}
use cursedns.Resolver.TraceStore.{TraceStore}
use cursedns.Resolver.Server.Packing.{IsWire, Answered, send_reply-Answered}
use cursedns.Resolver.Server.{
  trace_txt, make_trace_id, Wire, available, fit, send_reply, Host, ServerState, Received, done,
  result, reply_to, query_of, request_id, record_trace, conclude, dispatch, on_question, on_request,
  on_unpacked, handle_message,
}

-- the code of a handler's result
unfoldable pub code_of : Received → ℕ
code_of done = rcode_server_failure
code_of (result (err e)) = rcode_server_failure
code_of (result (ok none)) = rcode_server_failure
code_of (result (ok (some resp))) = resp.rcode

module _ {S : Type 0} (host : Host S) (protocol : Protocol) (client : Addr × ℕ) where
  -- what the handler makes of a question
  abbrev pub received_for : Msg → Question → S → Received
  received_for req question h =
      let (made, h') = make_trace_id host h in
      (host.receive (query_of req question protocol client) (request_id made) h').0

  -- the code that a request should be answered with
  unfoldable pub code_for_questions : S → Msg → List Question → ℕ
  code_for_questions h req (question ∷ []) =
      if req.recursion_desired then code_of (received_for req question h) else rcode_refused
  code_for_questions h req _ = rcode_format_error

  abbrev pub code_for : S → Msg → ℕ
  code_for h req = code_for_questions h req req.question

-- the additional section, with the record that shows the id of the trace where one is kept
unfoldable pub noted : Option TraceStore → String → List Rr → List Rr
noted none id extra = extra
noted (some store) id extra = if id == "" then extra else extra ++ trace_txt id ∷ []

module _ {S : Type 0} (wire : Wire) (host : Host S) (protocol : Protocol) (client : Addr × ℕ) where
  -- What is meant to be sent to a request, before it is fitted to the transport: a code alone, or
  -- the handler's response and the id of its trace.
  unfoldable pub reply_for : S → Option TraceStore → Msg → List Question → Msg
  reply_for h store req (question ∷ []) =
      if req.recursion_desired
      then (let reply = reply_to wire req (received_for host protocol client req question h) in
          let id = request_id (make_trace_id host h).0 in
          record reply { extra = noted store id reply.extra })
      else wire.set_rcode req rcode_refused
  reply_for h store req _ = wire.set_rcode req rcode_format_error

  abbrev pub meant_for : S → Option TraceStore → Msg → Msg
  meant_for h store req =
      fit wire protocol req (available wire (reply_for h store req req.question))

  -- what the record of the trace changes of a reply, and of the server
  pub record_trace-noted :
      (start : ℕ) (question : Question) (id : String) (received : Received) (reply : Msg)
      (s : ServerState S)
      → let (reply', s') =
          record_trace wire host protocol client start question id received reply s in
        (reply' ≡ record reply { extra = noted s.trace_store id reply.extra }) × (s'.sent ≡ s.sent)
  unfolding record_trace noted
  record_trace-noted start question id received reply s = elim (Option-cases s.trace_store) [
    | inl off ↦ rw (off, record_trace, noted) (refl, refl)
    | inr (store, on) ↦ elim (Bool-cases (id == "")) [
      | inl unknown ↦ rw (on, unknown, record_trace, noted) (refl, refl)
      | inr known ↦ rw (on, known, record_trace, noted) (refl, refl)
    ]
  ]

  reply_to-id :
      IsWire wire → (req : Msg) (received : Received) → (reply_to wire req received).id ≡ req.id
  unfolding reply_to
  reply_to-id laws req done = laws.id_set_rcode req rcode_server_failure
  reply_to-id laws req (result (err e)) = laws.id_set_rcode req rcode_server_failure
  reply_to-id laws req (result (ok none)) = laws.id_set_rcode req rcode_server_failure
  reply_to-id laws req (result (ok (some resp))) = laws.id_set_reply req

  pub reply_to-rcode :
      IsWire wire
      → (req : Msg) (received : Received) → (reply_to wire req received).rcode ≡ code_of received
  unfolding reply_to code_of
  reply_to-rcode laws req done = laws.rcode_set_rcode req rcode_server_failure
  reply_to-rcode laws req (result (err e)) = laws.rcode_set_rcode req rcode_server_failure
  reply_to-rcode laws req (result (ok none)) = laws.rcode_set_rcode req rcode_server_failure
  reply_to-rcode laws req (result (ok (some resp))) = refl

  module _ (laws : IsWire wire) (raw : List ℕ) (req : Msg) (from : wire.unpack raw ≡ ok req) where
    abbrev pub Sends : ℕ → Msg → List (List ℕ) → List (List ℕ) → Type 0
    Sends code reply =
        Answered wire (λ m. code) (λ m. fit wire protocol m (available wire reply)) (ok req)

    -- the end of a request
    pub conclude-Answered :
        (start : ℕ) (question : Question) (id : String) (received : Received) (s : ServerState S)
        → let reply = reply_to wire req received in
          Sends
            (code_of received)
            (record reply { extra = noted s.trace_store id reply.extra })
            s.sent
            (conclude wire host protocol client start req question id received s).sent
    unfolding conclude
    conclude-Answered start question id received s =
        let first = reply_to wire req received in
        let noted_reply : Msg = record first { extra = noted s.trace_store id first.extra } in
        let (same, kept) = record_trace-noted start question id received first s in
        let (reply, s') =
          record_trace wire host protocol client start question id received first s in
        let (m, out, is_reply, packs, e) =
          send_reply-Answered wire laws raw req from protocol reply (code_of received) noted_reply
            s' (ap (λ (r : Msg). r.id) same ∙ reply_to-id laws req received)
            (ap (λ (r : Msg). r.rcode) same ∙ reply_to-rcode laws req received) same in
        (m, out, is_reply, packs, e ∙ ap (λ sent. sent ++ out ∷ []) kept)

    if-Answered :
        (b : Bool) {c c' : ℕ} (m m' : Msg) (x y : ServerState S) (before : List (List ℕ))
        → Sends c m before x.sent
        → Sends c' m' before y.sent
        → Sends (if b then c else c') (if b then m else m') before (if b then x else y).sent
    if-Answered true m m' x y before h k = h
    if-Answered false m m' x y before h k = k

    code-Answered :
        (code : ℕ) (s : ServerState S)
        → Sends code
            (wire.set_rcode req code)
            s.sent
            (send_reply wire req (wire.set_rcode req code) protocol s).sent
    code-Answered code s =
        send_reply-Answered wire laws raw req from protocol (wire.set_rcode req code) code _ s
          (laws.id_set_rcode req code) (laws.rcode_set_rcode req code) refl

    on_request-Answered :
        (start : ℕ) (questions : List Question) (s : ServerState S)
        → Sends
            (code_for_questions host protocol client s.host req questions)
            (reply_for s.host s.trace_store req questions)
            s.sent
            (on_request wire host protocol client start req questions s).sent
    unfolding on_request on_question dispatch code_for_questions reply_for
    on_request-Answered start [] s = code-Answered rcode_format_error s
    on_request-Answered start (q ∷ p ∷ more) s = code-Answered rcode_format_error s
    on_request-Answered start (q ∷ []) s =
        if-Answered req.recursion_desired _ _ _ _ s.sent
          (conclude-Answered start q (request_id (make_trace_id host s.host).0)
            (received_for host protocol client req q s.host)
            (record s {
              host =
                  (host.receive (query_of req q protocol client)
                    (request_id (make_trace_id host s.host).0) (make_trace_id host s.host).1).1;
            }))
          (code-Answered rcode_refused s)

  on_unpacked-Answered :
      (laws : IsWire wire) (raw : List ℕ) (unpacked : Result Msg)
      → wire.unpack raw ≡ unpacked
      → (start : ℕ) (s : ServerState S)
      → Answered wire
          (code_for host protocol client s.host)
          (meant_for s.host s.trace_store)
          unpacked
          s.sent
          (on_unpacked wire host protocol client start unpacked s).sent
  unfolding on_unpacked
  on_unpacked-Answered laws raw (err e) from start s = refl
  on_unpacked-Answered laws raw (ok req) from start s =
      on_request-Answered laws raw req from start req.question s

-- A message that can be unpacked is answered once, and one that can not is dropped. The reply has
-- the id of the request and says that recursion is available; its code is FORMERR unless there is
-- one question, REFUSED where recursion is not desired, and else that of the handler's response,
-- SERVFAIL where there is none in time. It is that code alone, or the handler's response and the id
-- of its trace, fitted to the transport; only where this message can not be packed does a SERVFAIL
-- stand in for it. The functions on messages are as miekg/dns documents them.
pub handle_message-Answered :
    {S : Type 0} (wire : Wire) (laws : IsWire wire) (host : Host S) (protocol : Protocol)
    (client : Addr × ℕ) (raw : List ℕ) (s : ServerState S)
    → Answered wire
        (code_for host protocol client (host.now s.host).1)
        (meant_for wire host protocol client (host.now s.host).1 s.trace_store)
        (wire.unpack raw)
        s.sent
        (handle_message wire host protocol client raw s).sent
unfolding handle_message
handle_message-Answered wire laws host protocol client raw s =
    on_unpacked-Answered wire host protocol client laws raw (wire.unpack raw) refl
      (host.now s.host).0 (record s { host = (host.now s.host).1 })
