-- ===== src/Resolver/Server/Tcp/Order.antt =====
-- The replies of a TCP connection are in the order of its messages.
use cursedns.Prelude.{
  ◌≤◌, ◌≡◌, refl, sym, ◌∙◌, ap, subst, inl, inr, Option, List, [], ◌∷◌, ◌++◌, append_assoc, map,
  length, All, arith,
}
use cursedns.Resolver.Types.{ok, tcp}
use cursedns.Resolver.TraceStore.{TraceStore}
use cursedns.Resolver.Server.{Wire, Host, Received}
use cursedns.Resolver.Server.Packing.{IsWire}
use cursedns.Resolver.Server.Replies.{conclude-Answered, code_of}
use cursedns.Resolver.Server.Goroutine.{Datagram, Job, Traffic, fresh, receive, complete, quiet}
use cursedns.Resolver.Server.Tcp.{Step, received, others_ran, completed, Reach, here, next}
use cursedns.Resolver.Server.Tcp.Messages.{
  Replied, nothing, InOrder, Settles, Waits, finish-Settles, arrive-done,
}

module _ {S : Type 0} (wire : Wire) (laws : IsWire wire) (host : Host S) where
  -- a message that was done or waits is in its place
  shift :
      (all past : List Datagram) (d : Datagram) (rest : List Datagram)
      → all ≡ past ++ d ∷ rest
      → all ≡ (past ++ d ∷ []) ++ rest
  shift all past d rest e = e ∙ sym (append_assoc past (d ∷ []) rest)

  parts-at :
      (all past : List Datagram) (jobs js : List Job) (unread rest : List Datagram)
      → jobs ≡ js
      → unread ≡ rest
      → all ≡ past ++ (map (λ j. j.datagram) js ++ rest)
      → all ≡ past ++ (map (λ j. j.datagram) jobs ++ unread)
  parts-at all past jobs js unread rest p q e = rw (p, q) e

  settled-InOrder :
      (all past : List Datagram) (d : Datagram) (rest : List Datagram) (t u : Traffic S)
      → all ≡ past ++ d ∷ rest
      → Replied wire past t.outbox
      → t.jobs ≡ []
      → t.unread ≡ rest
      → Settles wire d t u
      → InOrder wire all u
  settled-InOrder all past d rest t u e replied idle left (jobs, unread, answers) = record {
    past = past ++ d ∷ [];
    parts =
        parts-at all (past ++ d ∷ []) u.jobs [] u.unread rest (jobs ∙ idle) (unread ∙ left)
          (shift all past d rest e);
    replied = answers past replied;
    one_at_a_time = subst (λ js. length js ≤ 1) (sym (jobs ∙ idle)) (omega arith);
    jobs_parsed = subst (All (λ j. wire.unpack j.datagram.raw ≡ ok j.req)) (sym (jobs ∙ idle)) tt;
  }

  waiting-InOrder :
      (all past : List Datagram) (d : Datagram) (rest : List Datagram) (t u : Traffic S)
      → all ≡ past ++ d ∷ rest
      → Replied wire past t.outbox
      → t.jobs ≡ []
      → t.unread ≡ rest
      → Waits wire d t u
      → InOrder wire all u
  waiting-InOrder all past d rest t u e replied idle left (j, jobs, unread, same, of_d, from) =
      let now : u.jobs ≡ j ∷ [] = jobs ∙ ap (λ js. j ∷ js) idle in
      record {
        past = past;
        parts =
            parts-at all past u.jobs (j ∷ []) u.unread rest now (unread ∙ left)
              (e ∙ ap (λ x. past ++ x ∷ rest) (sym of_d));
        replied = subst (Replied wire past) (sym same) replied;
        one_at_a_time = subst (λ js. length js ≤ 1) (sym now) (omega arith);
        jobs_parsed =
            subst (All (λ k. wire.unpack k.datagram.raw ≡ ok k.req)) (sym now)
              (subst (λ x. wire.unpack x.raw ≡ ok j.req) (sym of_d) from, tt);
      }

  received-InOrder :
      (all : List Datagram) (t : Traffic S) (d : Datagram) (rest : List Datagram)
      → t.jobs ≡ []
      → t.unread ≡ d ∷ rest
      → InOrder wire all t
      → InOrder wire all (receive wire host tcp d (record t { unread = rest }))
  unfolding receive
  received-InOrder all t d rest idle left o =
      let t' : Traffic S = record t { unread = rest; host = (host.now t.host).1 } in
      let e : all ≡ o.past ++ d ∷ rest =
        o.parts
        ∙ ap (λ js. o.past ++ (map (λ j. j.datagram) js ++ t.unread)) idle
        ∙ ap (λ ds. o.past ++ ds) left in
      elim (arrive-done wire laws host d (host.now t.host).0 (wire.unpack d.raw) t' refl) [
        | inl settles ↦ settled-InOrder all o.past d rest t' _ e o.replied idle refl settles
        | inr waits ↦ waiting-InOrder all o.past d rest t' _ e o.replied idle refl waits
      ]

  completed-InOrder :
      (all : List Datagram) (t : Traffic S) (j : Job) (r : Received)
      → t.jobs ≡ j ∷ []
      → InOrder wire all t
      → InOrder wire all (complete wire host tcp j r (record t { jobs = [] }))
  unfolding complete
  completed-InOrder all t j r runs o =
      let t' : Traffic S = record t { jobs = [] } in
      let from : wire.unpack j.datagram.raw ≡ ok j.req =
        (subst (All (λ k. wire.unpack k.datagram.raw ≡ ok k.req)) runs o.jobs_parsed).0 in
      settled-InOrder all o.past j.datagram t.unread t' _
        (o.parts ∙ ap (λ js. o.past ++ (map (λ k. k.datagram) js ++ t.unread)) runs) o.replied refl
        refl
        (finish-Settles wire laws host j.datagram _ t' j.req (code_of r) _ from (
          conclude-Answered wire host tcp j.datagram.client laws j.datagram.raw j.req from j.start
            j.question j.id r (fresh wire host tcp t')))

  Step-InOrder :
      (all : List Datagram) (t u : Traffic S)
      → InOrder wire all t
      → Step wire host t u
      → InOrder wire all u
  Step-InOrder all _ _ o (received t d rest idle left) = received-InOrder all t d rest idle left o
  Step-InOrder all _ _ o (others_ran t store h) = record {
    past = o.past;
    parts = o.parts;
    replied = o.replied;
    one_at_a_time = o.one_at_a_time;
    jobs_parsed = o.jobs_parsed;
  }
  Step-InOrder all _ _ o (completed t j r runs) = completed-InOrder all t j r runs o

  Reach-InOrder :
      (all : List Datagram) (t u : Traffic S)
      → InOrder wire all t
      → Reach wire host t u
      → InOrder wire all u
  Reach-InOrder all t _ o here = o
  Reach-InOrder all t _ o (next r step) = Step-InOrder all _ _ (Reach-InOrder all t _ o r) step

  -- Whatever else runs and however it changes what is shared, a connection handles its messages one
  -- at a time and in their order: those done have each one reply, with the ID of the message and the
  -- RA bit, sent in the order of the messages, or could not be unpacked and have none; then comes at
  -- most one whose handler runs, and then those unread. The functions on messages are as miekg/dns
  -- documents them.
  pub Reach-ordered :
      (all : List Datagram) (store : Option TraceStore) (h : S) (t : Traffic S)
      → Reach wire host (quiet all store h) t
      → InOrder wire all t
  Reach-ordered all store h t r =
      Reach-InOrder all _ t
        (record {
          past = [];
          parts = refl;
          replied = nothing;
          one_at_a_time = omega arith;
          jobs_parsed = tt;
        })
        r
