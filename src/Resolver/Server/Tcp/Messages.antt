-- ===== src/Resolver/Server/Tcp/Messages.antt =====
-- What becomes of one message of a TCP connection.
use cursedns.Prelude.{
  ℕ, ◌≤◌, ◌≡◌, ◌⊎◌, refl, sym, ap, subst, Bool, true, false, inl, inr, List, [], ◌∷◌, ◌++◌, map,
  length, All, if◌then◌else◌,
}
use cursedns.Dns.{Msg, Question, rcode_format_error, rcode_refused}
use cursedns.Resolver.Types.{Result, ok, err, tcp}
use cursedns.Resolver.Server.{Wire, Host, ServerState}
use cursedns.Resolver.Server.Packing.{IsWire, Answered, send_reply-Answered}
use cursedns.Resolver.Server.Goroutine.{
  Datagram, Job, Traffic, fresh, finish, refuse, begin, admit, arrive,
}
use cursedns.Resolver.Server.Udp.Replies.{IsAnswer, IsMalformed}

module _ (wire : Wire) where
  -- messages, in order, and their replies, from the last one back: each has one reply, or is
  -- malformed and has none
  pub data Replied : List Datagram → List (Datagram × List ℕ) → Type 0 where
    nothing : Replied [] []
    answered :
        {past : List Datagram} {outs : List (Datagram × List ℕ)} (d : Datagram) (out : List ℕ)
        → Replied past outs
        → IsAnswer wire (d, out)
        → Replied (past ++ d ∷ []) ((d, out) ∷ outs)
    skipped :
        {past : List Datagram} {outs : List (Datagram × List ℕ)} (d : Datagram)
        → Replied past outs
        → IsMalformed wire d
        → Replied (past ++ d ∷ []) outs

  -- The messages are those that are done, the one whose handler runs, if any, and those unread.
  pub record InOrder {S : Type 0} (all : List Datagram) (t : Traffic S) : Type 0 where
    pub past : List Datagram
    pub parts : all ≡ past ++ (map (λ j. j.datagram) t.jobs ++ t.unread)
    pub replied : Replied past t.outbox
    pub one_at_a_time : length t.jobs ≤ 1
    pub jobs_parsed : All (λ j. wire.unpack j.datagram.raw ≡ ok j.req) t.jobs

  -- a message is done, or its handler runs
  abbrev pub Settles : {S : Type 0} → Datagram → Traffic S → Traffic S → Type 0
  Settles d t u =
      (u.jobs ≡ t.jobs)
      × (u.unread ≡ t.unread)
      × ((past : List Datagram) → Replied past t.outbox → Replied (past ++ d ∷ []) u.outbox)

  abbrev pub Waits : {S : Type 0} → Datagram → Traffic S → Traffic S → Type 0
  Waits d t u =
      (j : Job) × (u.jobs ≡ j ∷ t.jobs)
      × (u.unread ≡ t.unread)
      × (u.outbox ≡ t.outbox)
      × (j.datagram ≡ d)
      × (wire.unpack d.raw ≡ ok j.req)

module _ {S : Type 0} (wire : Wire) (laws : IsWire wire) (host : Host S) where
  pub finish-Settles :
      (d : Datagram) (s : ServerState S) (t : Traffic S) (req : Msg) (code : ℕ) (meant : Msg)
      → wire.unpack d.raw ≡ ok req
      → Answered wire (λ _. code) (λ _. meant) (ok req) [] s.sent
      → Settles wire d t (finish wire host tcp d s t)
  unfolding finish
  finish-Settles d s t req code meant from (reply, out, (ra, id, _), packs, one) = (
    refl,
    refl,
    λ past replied.
        subst (Replied wire (past ++ d ∷ []))
          (sym (ap (λ sent. map (λ o. (d, o)) sent ++ t.outbox) one))
          (answered d out replied (req, reply, from, ra, id, packs)),
  )

  refuse-Settles :
      (d : Datagram) (req : Msg) (code : ℕ) (t : Traffic S)
      → wire.unpack d.raw ≡ ok req
      → Settles wire d t (refuse wire host tcp d req code t)
  unfolding refuse
  refuse-Settles d req code t from = finish-Settles d _ t req code _ from (
      send_reply-Answered wire laws d.raw req from tcp (wire.set_rcode req code) code _
        (fresh wire host tcp t) (laws.id_set_rcode req code) (laws.rcode_set_rcode req code) refl)

  begin-Waits :
      (d : Datagram) (start : ℕ) (req : Msg) (question : Question) (t : Traffic S)
      → wire.unpack d.raw ≡ ok req
      → Waits wire d t (begin wire host tcp d start req question t)
  unfolding begin
  begin-Waits d start req question t from = (_, refl, refl, refl, refl, from)

  if-done :
      (d : Datagram) (t : Traffic S) (b : Bool) (u v : Traffic S)
      → Waits wire d t u
      → Settles wire d t v
      → Settles wire d t (if b then u else v) ⊎ Waits wire d t (if b then u else v)
  if-done d t true u v h k = inr h
  if-done d t false u v h k = inl k

  admit-done :
      (d : Datagram) (start : ℕ) (req : Msg) (questions : List Question) (t : Traffic S)
      → wire.unpack d.raw ≡ ok req
      → Settles wire d t (admit wire host tcp d start req questions t)
        ⊎ Waits wire d t (admit wire host tcp d start req questions t)
  unfolding admit
  admit-done d start req [] t from = inl (refuse-Settles d req rcode_format_error t from)
  admit-done d start req (q ∷ p ∷ more) t from =
      inl (refuse-Settles d req rcode_format_error t from)
  admit-done d start req (q ∷ []) t from =
      if-done d t req.recursion_desired _ _ (begin-Waits d start req q t from)
        (refuse-Settles d req rcode_refused t from)

  pub arrive-done :
      (d : Datagram) (start : ℕ) (unpacked : Result Msg) (t : Traffic S)
      → wire.unpack d.raw ≡ unpacked
      → Settles wire d t (arrive wire host tcp d start unpacked t)
        ⊎ Waits wire d t (arrive wire host tcp d start unpacked t)
  unfolding arrive
  arrive-done d start (ok req) t from = admit-done d start req req.question t from
  arrive-done d start (err e) t from = inl (refl, refl, λ past replied. skipped d replied (e, from))
