-- ===== src/Resolver/Server/Traces.antt =====
-- What the server keeps of a request: the trace that is served later, and nothing of a request that
-- it refuses.
use cursedns.Prelude.Map
use cursedns.Prelude.{
  ℕ, ◌≡◌, refl, sym, ap, subst, ◌∙◌, String, Bool, true, false, Option, none, some, List, [], ◌∷◌,
  ◌==◌, string_eq, if◌then◌else◌,
}
use cursedns.Dns.{Msg, Question, rcode_refused}
use cursedns.Resolver.Types.{Addr, Result, ok, err, Protocol}
use cursedns.Resolver.TraceStore.{TraceStore, TraceRecord, serve_http, found}
use cursedns.Resolver.TraceStore.Lists.{view}
use cursedns.Resolver.TraceStore.Lru.{IsValid}
use cursedns.Resolver.TraceStore.Http.{serve_http-put}
use cursedns.Resolver.Server.{
  make_trace_id, Wire, Host, ServerState, Received, respond, send_reply, reply_to, outcome_text,
  query_of, request_id, trace_record, record_trace, conclude, dispatch, on_question, on_request,
  on_unpacked, handle_message,
}
use cursedns.Resolver.Server.Packing.{IsWire}
use cursedns.Resolver.Server.Replies.{code_of, reply_to-rcode}

module _ {S : Type 0} (wire : Wire) (host : Host S) (protocol : Protocol) (client : Addr × ℕ) where
  -- sending touches neither the store nor what the server stands on
  abbrev SameBut : ServerState S → ServerState S → Type 0
  SameBut s s' = (s'.trace_store ≡ s.trace_store) × (s'.host ≡ s.host)

  respond-SameBut : (out : Result (List ℕ)) (s : ServerState S) → SameBut s (respond wire out s)
  unfolding respond
  respond-SameBut (ok out) s = (refl, refl)
  respond-SameBut (err e) s = (refl, refl)

  send_reply-SameBut :
      (req reply : Msg) (s : ServerState S) → SameBut s (send_reply wire req reply protocol s)
  unfolding send_reply
  send_reply-SameBut req reply s = respond-SameBut _ s

  -- one question, and recursion is desired
  abbrev pub IsServed : Msg → List Question → Type 0
  IsServed req (question ∷ []) = req.recursion_desired ≡ true
  IsServed req _ = ⊥

  abbrev pub IsAccepted : Result Msg → Type 0
  IsAccepted (ok req) = IsServed req req.question
  IsAccepted (err e) = ⊥

  if_false :
      (b : Bool) (s x y : ServerState S)
      → ¬ (b ≡ true)
      → SameBut s y
      → SameBut s (if b then x else y)
  if_false true s x y h k = absurd (h refl)
  if_false false s x y h k = k

  on_request-SameBut :
      (start : ℕ) (req : Msg) (questions : List Question) (s : ServerState S)
      → ¬ IsServed req questions
      → SameBut s (on_request wire host protocol client start req questions s)
  unfolding on_request on_question
  on_request-SameBut start req [] s h = send_reply-SameBut req _ s
  on_request-SameBut start req (q ∷ p ∷ more) s h = send_reply-SameBut req _ s
  on_request-SameBut start req (q ∷ []) s h =
      if_false req.recursion_desired s (dispatch wire host protocol client start req q s) _ h
        (send_reply-SameBut req _ s)

  on_unpacked-SameBut :
      (start : ℕ) (unpacked : Result Msg) (s : ServerState S)
      → ¬ IsAccepted unpacked
      → SameBut s (on_unpacked wire host protocol client start unpacked s)
  unfolding on_unpacked
  on_unpacked-SameBut start (err e) s h = (refl, refl)
  on_unpacked-SameBut start (ok req) s h = on_request-SameBut start req req.question s h

  -- A message that can not be unpacked, has not just one question or does not desire recursion
  -- never reaches the handler, gets no ID and leaves no trace: the server only read its clock.
  pub handle_message-refused :
      (raw : List ℕ) (s : ServerState S)
      → ¬ IsAccepted (wire.unpack raw)
      → ((handle_message wire host protocol client raw s).trace_store ≡ s.trace_store)
        × ((handle_message wire host protocol client raw s).host ≡ (host.now s.host).1)
  unfolding handle_message
  handle_message-refused raw s h =
      on_unpacked-SameBut (host.now s.host).0 (wire.unpack raw)
        (record s { host = (host.now s.host).1 }) h

module _ {S : Type 0} (wire : Wire) (laws : IsWire wire) (host : Host S) (protocol : Protocol)
    (client : Addr × ℕ) where
  -- what is served under an ID after a request with this outcome
  abbrev pub IsTraced : String → Question → Received → List String → Option TraceStore → Type 0
  IsTraced id question received lines none = ⊥
  IsTraced id question received lines (some store) =
      (entry : TraceRecord) × ((serve_http id store).0 ≡ found entry)
      × (entry.id ≡ id)
      × (entry.name ≡ question.name)
      × (entry.rcode ≡ host.rcode_text (code_of received))
      × (entry.outcome ≡ outcome_text host.error_text received)
      × (entry.lines ≡ lines)

  record_trace-IsTraced :
      (start : ℕ) (question : Question) (id : String) (received : Received) (reply : Msg)
      (s : ServerState S) (store : TraceStore)
      → s.trace_store ≡ some store
      → IsValid store
      → (id == "") ≡ false
      → Map.lookup id (view store.ll) ≡ none
      → reply.rcode ≡ code_of received
      → IsTraced id question received
          (host.trace_lines (host.now s.host).1)
          (record_trace wire host protocol client start question id received reply s).1.trace_store
  unfolding record_trace trace_record
  record_trace-IsTraced start question id received reply s store on v known new rcode =
      rw (on, known, record_trace)
        (_, serve_http-put _ id _ store v new, refl, refl, ap host.rcode_text rcode, refl, refl)

  conclude-IsTraced :
      (start : ℕ) (req : Msg) (question : Question) (id : String) (received : Received)
      (s : ServerState S) (store : TraceStore)
      → s.trace_store ≡ some store
      → IsValid store
      → (id == "") ≡ false
      → Map.lookup id (view store.ll) ≡ none
      → IsTraced id question received
          (host.trace_lines (host.now s.host).1)
          (conclude wire host protocol client start req question id received s).trace_store
  unfolding conclude
  conclude-IsTraced start req question id received s store on v known new =
      let first = reply_to wire req received in
      let (reply, s') = record_trace wire host protocol client start question id received first s in
      subst (IsTraced id question received (host.trace_lines (host.now s.host).1))
        (sym (send_reply-SameBut wire host protocol client req reply s').0)
        (record_trace-IsTraced start question id received first s store on v known new
          (reply_to-rcode wire host protocol client laws req received))

  -- what the handler comes back with, and where that leaves the server
  abbrev pub outcome_of : Msg → Question → String → S → Received × S
  outcome_of req question id h =
      host.receive (query_of req question protocol client) id (make_trace_id host h).1

  dispatch-IsTraced :
      (start : ℕ) (req : Msg) (question : Question) (id : String) (s : ServerState S)
      (store : TraceStore)
      → (make_trace_id host s.host).0 ≡ ok id
      → s.trace_store ≡ some store
      → IsValid store
      → (id == "") ≡ false
      → Map.lookup id (view store.ll) ≡ none
      → IsTraced id question
          (outcome_of req question id s.host).0
          (host.trace_lines (host.now (outcome_of req question id s.host).1).1)
          (dispatch wire host protocol client start req question s).trace_store
  unfolding dispatch request_id
  dispatch-IsTraced start req question id s store made on v known new = rw made (
      conclude-IsTraced start req question id (outcome_of req question id s.host).0
        (record s { host = (outcome_of req question id s.host).1 }) store on v known new)

  on_unpacked-served :
      (start : ℕ) (unpacked : Result Msg) (req : Msg) (question : Question) (s : ServerState S)
      → unpacked ≡ ok req
      → req.question ≡ question ∷ []
      → req.recursion_desired ≡ true
      → on_unpacked wire host protocol client start unpacked s
        ≡ dispatch wire host protocol client start req question s
  unfolding on_unpacked on_request on_question
  on_unpacked-served start unpacked req question s from one desired =
      let refused = send_reply wire req (wire.set_rcode req rcode_refused) protocol s in
      ap (λ u. on_unpacked wire host protocol client start u s) from
      ∙ ap (λ qs. on_request wire host protocol client start req qs s) one
      ∙ ap (λ b. if b then dispatch wire host protocol client start req question s else refused)
          desired

  -- While traces are kept, the answer to a query leaves a record that is served under the ID of the
  -- request: it tells the name asked, the code of the reply, the outcome and the lines that the
  -- handler traced. The store is valid, and the ID is made and new.
  pub handle_message-IsTraced :
      (raw : List ℕ) (req : Msg) (question : Question) (id : String) (s : ServerState S)
      (store : TraceStore)
      → wire.unpack raw ≡ ok req
      → req.question ≡ question ∷ []
      → req.recursion_desired ≡ true
      → (make_trace_id host (host.now s.host).1).0 ≡ ok id
      → (id == "") ≡ false
      → s.trace_store ≡ some store
      → IsValid store
      → Map.lookup id (view store.ll) ≡ none
      → let (received, h) = outcome_of req question id (host.now s.host).1 in
        IsTraced id question received
          (host.trace_lines (host.now h).1)
          (handle_message wire host protocol client raw s).trace_store
  unfolding handle_message
  handle_message-IsTraced raw req question id s store from one desired made known on v new =
      let s' = record s { host = (host.now s.host).1 } in
      rw (on_unpacked-served (host.now s.host).0 (wire.unpack raw) req question s' from one desired)
        (dispatch-IsTraced (host.now s.host).0 req question id s' store made on v known new)
