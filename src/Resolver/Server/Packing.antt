-- ===== src/Resolver/Server/Packing.antt =====
-- `sendReply` of resolver/server.go: what is packed and sent, and what it says.
use cursedns.Prelude.{
  ℕ, ◌<◌, arith, ◌≡◌, ◌⊎◌, refl, subst, ◌∙◌, true, List, [], ◌∷◌, ◌++◌, inl, inr, string_eq,
}
use cursedns.Dns.{Msg, rcode_server_failure}
use cursedns.Resolver.Types.{Error, Result, ok, err, Protocol, udp, tcp, Result-cases}
use cursedns.Resolver.Server.{
  Wire, ServerState, available, fit, udp_size, pack_reply, respond, send_reply,
}

-- What miekg/dns documents of replies: they carry the id of the request and the code given;
-- truncation drops records only; and a reply of a code alone can
-- be packed, if the code needs no extension.
pub record IsWire (wire : Wire) : Type 0 where
  pub id_set_rcode : (req : Msg) (code : ℕ) → (wire.set_rcode req code).id ≡ req.id
  pub id_set_reply : (req : Msg) → (wire.set_reply req).id ≡ req.id
  pub rcode_set_rcode : (req : Msg) (code : ℕ) → (wire.set_rcode req code).rcode ≡ code
  pub id_truncate : (n : ℕ) (m : Msg) → (wire.truncate n m).id ≡ m.id
  pub rcode_truncate : (n : ℕ) (m : Msg) → (wire.truncate n m).rcode ≡ m.rcode
  pub available_truncate :
      (n : ℕ) (m : Msg) → (wire.truncate n m).recursion_available ≡ m.recursion_available
  pub pack_set_rcode :
      (raw : List ℕ) (req : Msg) (code : ℕ)
      → wire.unpack raw ≡ ok req
      → code < 16
      → (out : List ℕ) × (wire.pack (available wire (wire.set_rcode req code)) ≡ ok out)

-- A reply to a request with the code, or the SERVFAIL that stands in for the message that was meant
-- to be sent, where that can not be packed.
abbrev pub IsReply : Wire → Msg → ℕ → Msg → Msg → Type 0
IsReply wire req code meant reply =
    (reply.recursion_available ≡ true)
    × (reply.id ≡ req.id)
    × (((reply ≡ meant) × (reply.rcode ≡ code))
        ⊎ ((reply.rcode ≡ rcode_server_failure) × (e : Error) × (wire.pack meant ≡ err e)))

-- after a message that was unpacked, one more reply is sent, and none after one that was not
abbrev pub Answered :
    Wire → (Msg → ℕ) → (Msg → Msg) → Result Msg → List (List ℕ) → List (List ℕ) → Type 0
Answered wire code meant (err e) before after = after ≡ before
Answered wire code meant (ok req) before after =
    (reply : Msg) × (out : List ℕ) × IsReply wire req (code req) (meant req) reply
    × (wire.pack reply ≡ ok out)
    × (after ≡ before ++ out ∷ [])

module _ (wire : Wire) (laws : IsWire wire) (raw : List ℕ) (req : Msg)
    (from : wire.unpack raw ≡ ok req) where
  fit-IsReply :
      (protocol : Protocol) (reply : Msg)
      → reply.id ≡ req.id
      → let m = fit wire protocol req (available wire reply) in IsReply wire req reply.rcode m m
  unfolding fit available
  fit-IsReply udp reply i =
      let n = udp_size wire req in
      let m = available wire reply in
      (laws.available_truncate n m, laws.id_truncate n m ∙ i, inl (refl, laws.rcode_truncate n m))
  fit-IsReply tcp reply i = (refl, i, inl (refl, refl))

  -- what is given to `respond`
  abbrev Packed : ℕ → Msg → Result (List ℕ) → Type 0
  Packed code meant packed =
      (reply : Msg) × (out : List ℕ) × IsReply wire req code meant reply
      × (wire.pack reply ≡ ok out)
      × (packed ≡ ok out)

  fallback-IsReply :
      (code : ℕ) (meant : Msg) (e : Error)
      → wire.pack meant ≡ err e
      → IsReply wire req code meant (available wire (wire.set_rcode req rcode_server_failure))
  unfolding available
  fallback-IsReply code meant e failed = (
    refl,
    laws.id_set_rcode req rcode_server_failure,
    inr (laws.rcode_set_rcode req rcode_server_failure, e, failed),
  )

  pack_reply-Packed :
      (protocol : Protocol) (reply : Msg)
      → reply.id ≡ req.id
      → Packed reply.rcode
          (fit wire protocol req (available wire reply))
          (pack_reply wire req protocol reply)
  unfolding pack_reply
  pack_reply-Packed protocol reply i =
      let m = fit wire protocol req (available wire reply) in
      elim (Result-cases (wire.pack m)) [
        | inl (out, e) ↦ (m, out, fit-IsReply protocol reply i, e, rw (e, pack_reply) refl)
        | inr (e, failed) ↦
            let (out, k) = laws.pack_set_rcode raw req rcode_server_failure from (omega arith) in
            (_, out, fallback-IsReply reply.rcode m e failed, k, rw (failed, k, pack_reply) refl)
      ]

  pub send_reply-Answered :
      {S : Type 0} (protocol : Protocol) (reply : Msg) (code : ℕ) (meant : Msg) (s : ServerState S)
      → reply.id ≡ req.id
      → reply.rcode ≡ code
      → reply ≡ meant
      → Answered wire
          (λ m. code)
          (λ m. fit wire protocol m (available wire meant))
          (ok req)
          s.sent
          (send_reply wire req reply protocol s).sent
  unfolding send_reply respond
  send_reply-Answered protocol reply code meant s i c same =
      let (m, out, is_reply, k, sends) = pack_reply-Packed protocol reply i in
      let says =
        subst (λ n. IsReply wire req n (fit wire protocol req (available wire meant)) m) c
          (subst (λ r. IsReply wire req reply.rcode (fit wire protocol req (available wire r)) m)
            same is_reply) in
      (m, out, says, k, rw sends refl)
