-- ===== src/Resolver/Server/Udp/Replies.antt =====
-- Every datagram is dropped or answered once, whatever the interleaving.
use cursedns.Prelude.{
  ℕ, ◌+◌, ◌≡◌, refl, sym, ap, subst, Bool, true, false, Option, List, [], ◌∷◌, ◌++◌, map, All,
  All-middle, total, total-append, if◌then◌else◌, arith,
}
use cursedns.Dns.{Msg, Question, rcode_format_error, rcode_refused}
use cursedns.Resolver.Types.{Error, Result, ok, err, udp}
use cursedns.Resolver.TraceStore.{TraceStore}
use cursedns.Resolver.Server.{Wire, Host, ServerState, Received}
use cursedns.Resolver.Server.Packing.{IsWire, Answered, send_reply-Answered}
use cursedns.Resolver.Server.Replies.{conclude-Answered, code_of}
use cursedns.Resolver.Server.Goroutine.{
  Datagram, Job, Traffic, fresh, finish, refuse, begin, admit, arrive, receive, complete, quiet,
}
use cursedns.Resolver.Server.Udp.{Step, received, handlers_ran, completed, Reach, here, next}

-- the weight of a datagram under a test
abbrev pub weight : (Datagram → Bool) → Datagram → ℕ
weight test d = if test d then 1 else 0

-- how many datagrams pass the test, of those unread, dropped, in work and answered
abbrev pub accounted : {S : Type 0} → (Datagram → Bool) → Traffic S → ℕ
accounted test t =
    total (weight test) t.unread
    + total (weight test) t.dropped
    + total (λ j. weight test j.datagram) t.jobs
    + total (λ sent. weight test sent.0) t.outbox

module _ (wire : Wire) where
  -- an answer to the request in a datagram
  abbrev pub IsAnswer : Datagram × List ℕ → Type 0
  IsAnswer (d, out) =
      (req : Msg) × (reply : Msg) × (wire.unpack d.raw ≡ ok req)
      × (reply.recursion_available ≡ true)
      × (reply.id ≡ req.id)
      × (wire.pack reply ≡ ok out)

  abbrev pub IsMalformed : Datagram → Type 0
  IsMalformed d = (e : Error) × (wire.unpack d.raw ≡ err e)

  pub record IsGood {S : Type 0} (t : Traffic S) : Type 0 where
    pub jobs_parsed : All (λ j. wire.unpack j.datagram.raw ≡ ok j.req) t.jobs
    pub all_answers : All IsAnswer t.outbox
    pub all_malformed : All IsMalformed t.dropped

  -- a goroutine's datagram is accounted for
  abbrev Adds : {S : Type 0} → Datagram → Traffic S → Traffic S → Type 0
  Adds d t u =
      (IsGood t → IsGood u)
      × ((test : Datagram → Bool) → accounted test u ≡ accounted test t + weight test d)

module _ {S : Type 0} (wire : Wire) (laws : IsWire wire) (host : Host S) where
  finish-Adds :
      (d : Datagram) (s : ServerState S) (t : Traffic S) (req : Msg) (code : ℕ) (meant : Msg)
      → wire.unpack d.raw ≡ ok req
      → Answered wire (λ _. code) (λ _. meant) (ok req) [] s.sent
      → Adds wire d t (finish wire host udp d s t)
  unfolding finish total
  finish-Adds d s t req code meant from (reply, out, (ra, id, _), packs, one) =
      let posted : (finish wire host udp d s t).outbox ≡ (d, out) ∷ t.outbox =
        ap (λ sent. map (λ o. (d, o)) sent ++ t.outbox) one in
      (
        λ good. record {
          jobs_parsed = good.jobs_parsed;
          all_answers =
              subst (All (IsAnswer wire)) (sym posted)
                ((req, reply, from, ra, id, packs), good.all_answers);
          all_malformed = good.all_malformed;
        },
        λ test. omega (arith, ap (total (λ sent. weight test sent.0)) posted),
      )

  if-Adds :
      (d : Datagram) (t : Traffic S) (b : Bool) (u v : Traffic S)
      → Adds wire d t u
      → Adds wire d t v
      → Adds wire d t (if b then u else v)
  if-Adds d t true u v h k = h
  if-Adds d t false u v h k = k

  refuse-Adds :
      (d : Datagram) (req : Msg) (code : ℕ) (t : Traffic S)
      → wire.unpack d.raw ≡ ok req
      → Adds wire d t (refuse wire host udp d req code t)
  unfolding refuse
  refuse-Adds d req code t from = finish-Adds d _ t req code _ from (
      send_reply-Answered wire laws d.raw req from udp (wire.set_rcode req code) code _
        (fresh wire host udp t) (laws.id_set_rcode req code) (laws.rcode_set_rcode req code) refl)

  begin-Adds :
      (d : Datagram) (start : ℕ) (req : Msg) (question : Question) (t : Traffic S)
      → wire.unpack d.raw ≡ ok req
      → Adds wire d t (begin wire host udp d start req question t)
  unfolding begin total
  begin-Adds d start req question t from = (
    λ good. record {
      jobs_parsed = (from, good.jobs_parsed);
      all_answers = good.all_answers;
      all_malformed = good.all_malformed;
    },
    λ test. omega arith,
  )

  admit-Adds :
      (d : Datagram) (start : ℕ) (req : Msg) (questions : List Question) (t : Traffic S)
      → wire.unpack d.raw ≡ ok req
      → Adds wire d t (admit wire host udp d start req questions t)
  unfolding admit
  admit-Adds d start req [] t from = refuse-Adds d req rcode_format_error t from
  admit-Adds d start req (q ∷ p ∷ more) t from = refuse-Adds d req rcode_format_error t from
  admit-Adds d start req (q ∷ []) t from =
      if-Adds d t req.recursion_desired _ _ (begin-Adds d start req q t from)
        (refuse-Adds d req rcode_refused t from)

  arrive-Adds :
      (d : Datagram) (start : ℕ) (unpacked : Result Msg) (t : Traffic S)
      → wire.unpack d.raw ≡ unpacked
      → Adds wire d t (arrive wire host udp d start unpacked t)
  unfolding arrive total
  arrive-Adds d start (ok req) t from = admit-Adds d start req req.question t from
  arrive-Adds d start (err e) t from = (
    λ good. record {
      jobs_parsed = good.jobs_parsed;
      all_answers = good.all_answers;
      all_malformed = ((e, from), good.all_malformed);
    },
    λ test. omega arith,
  )

  -- the invariant, of the datagrams that there are
  abbrev pub IsServed : List Datagram → Traffic S → Type 0
  IsServed all t =
      IsGood wire t × ((test : Datagram → Bool) → accounted test t ≡ total (weight test) all)

  received-IsServed :
      (all : List Datagram) (t : Traffic S) (d : Datagram) (rest : List Datagram)
      → t.unread ≡ d ∷ rest
      → IsServed all t
      → IsServed all (receive wire host udp d (record t { unread = rest }))
  unfolding receive total
  received-IsServed all t d rest e (good, counts) =
      let (keeps, adds) =
        arrive-Adds d (host.now t.host).0 (wire.unpack d.raw)
          (record t { unread = rest; host = (host.now t.host).1 }) refl in
      (
        keeps (record {
          jobs_parsed = good.jobs_parsed;
          all_answers = good.all_answers;
          all_malformed = good.all_malformed;
        }),
        λ test. omega (arith, adds test, counts test, ap (total (weight test)) e),
      )

  completed-IsServed :
      (all : List Datagram) (t : Traffic S) (before : List Job) (j : Job) (after : List Job)
      (r : Received)
      → t.jobs ≡ before ++ j ∷ after
      → IsServed all t
      → IsServed all (complete wire host udp j r (record t { jobs = before ++ after }))
  unfolding complete total
  completed-IsServed all t before j after r e (good, counts) =
      let (from, rest) =
        All-middle (λ k. wire.unpack k.datagram.raw ≡ ok k.req) before j after
          (subst (All (λ k. wire.unpack k.datagram.raw ≡ ok k.req)) e good.jobs_parsed) in
      let left : Traffic S = record t { jobs = before ++ after } in
      let (keeps, adds) = finish-Adds j.datagram _ left j.req (code_of r) _ from (
        conclude-Answered wire host udp j.datagram.client laws j.datagram.raw j.req from j.start
          j.question j.id r (fresh wire host udp left)) in
      (
        keeps (record {
          jobs_parsed = rest;
          all_answers = good.all_answers;
          all_malformed = good.all_malformed;
        }),
        λ test. omega (
          arith,
          adds test,
          counts test,
          ap (total (λ k. weight test k.datagram)) e,
          total-append (λ k. weight test k.datagram) before (j ∷ after),
          total-append (λ k. weight test k.datagram) before after,
        ),
      )

  Step-IsServed :
      (all : List Datagram) (t u : Traffic S) → IsServed all t → Step wire host t u → IsServed all u
  Step-IsServed all _ _ served (received t d rest e) = received-IsServed all t d rest e served
  Step-IsServed all _ _ served (handlers_ran t h) = (
    record {
      jobs_parsed = served.0.jobs_parsed;
      all_answers = served.0.all_answers;
      all_malformed = served.0.all_malformed;
    },
    served.1,
  )
  Step-IsServed all _ _ served (completed t before j after r e) =
      completed-IsServed all t before j after r e served

  Reach-IsServed :
      (all : List Datagram) (t u : Traffic S)
      → IsServed all t
      → Reach wire host t u
      → IsServed all u
  Reach-IsServed all t _ served here = served
  Reach-IsServed all t _ served (next r step) =
      Step-IsServed all _ _ (Reach-IsServed all t _ served r) step

  quiet-IsServed :
      (all : List Datagram) (store : Option TraceStore) (h : S) → IsServed all (quiet all store h)
  unfolding total
  quiet-IsServed all store h =
      (record { jobs_parsed = tt; all_answers = tt; all_malformed = tt }, λ test. omega arith)

  -- In any interleaving of the goroutines, whatever the handlers do to what they share, each
  -- datagram is unread, dropped, in work or answered, and only one of these: counted under any test,
  -- they add up to the datagrams that came. What was dropped could not be unpacked; a reply goes
  -- with the datagram that it answers, has its ID and says that recursion is available. The
  -- functions on messages are as miekg/dns documents them.
  pub Reach-quiet :
      (all : List Datagram) (store : Option TraceStore) (h : S) (t : Traffic S)
      → Reach wire host (quiet all store h) t
      → IsServed all t
  Reach-quiet all store h t r = Reach-IsServed all _ t (quiet-IsServed all store h) r
