-- ===== src/Handlers/Static.antt =====
-- `StaticHandler` of handlers/static.go.
use cursedns.Prelude.{
  ℕ, Option, none, some, List, [], ◌∷◌, ◌≡◌, ◌⊎◌, refl, sym, ◌==◌, nat_eq, nat_beq_iff,
  if◌then◌else◌, Bool-cases, inl, inr,
}
use cursedns.Dns.{Rr, Header, Rdata, type_a, type_aaaa, class_inet, rcode_success}
use cursedns.Resolver.Types.{Addr, Query, Response, Result, ok, static_answering, no_static_answer}
use cursedns.Resolver.Request.{Helper}

-- the zero `netip.Addr`, which is not valid, is `none`
pub record StaticHandler : Type 0 where
  pub ipv4 : Option Addr
  pub ipv6 : Option Addr
  pub ttl : ℕ

module _ (h : StaticHandler) (query : Query) where
  -- `hdr` with its type
  unfoldable pub header : ℕ → Header
  header rrtype = record { name = query.name; rrtype = rrtype; class = class_inet; ttl = h.ttl }

  -- one case of the `switch` on the type
  unfoldable pub answer_with : ℕ → (Addr → Rdata) → Option Addr → List Rr
  unfolding header
  answer_with rrtype data_of none = []
  answer_with rrtype data_of (some addr) = record { hdr = header rrtype; rdata = data_of addr } ∷ []

  unfoldable pub static_answer : List Rr
  static_answer =
      if query.qtype == type_a
      then answer_with type_a Rdata.a h.ipv4
      else if query.qtype == type_aaaa
      then answer_with type_aaaa Rdata.aaaa h.ipv6
      else []

  -- the line of the `default` case
  unfoldable pub trace_default : {S : Type 0} → Helper S → S → S
  trace_default helper s =
      if query.qtype == type_a
      then s
      else if query.qtype == type_aaaa
      then s
      else helper.trace (no_static_answer query.qtype) s

  -- `Handle`
  unfoldable pub handle : {S : Type 0} → Helper S → S → Result Response × S
  handle helper s =
      let s' = trace_default helper (helper.trace (static_answering query.name query.qtype) s) in
      (ok (record { rcode = rcode_success; answer = static_answer; ns = []; extra = [] }), s')

-- the data of a record is of the type of its header
abbrev pub IsTyped : Rr → Addr → Type 0
IsTyped rr addr =
    ((rr.rrtype ≡ type_a) × (rr.rdata ≡ Rdata.a addr))
    ⊎ ((rr.rrtype ≡ type_aaaa) × (rr.rdata ≡ Rdata.aaaa addr))

-- the address configured for a type
unfoldable pub configured : StaticHandler → ℕ → Option Addr
configured h qtype = if qtype == type_a then h.ipv4 else if qtype == type_aaaa then h.ipv6 else none

-- what a response should hold for the address configured
abbrev pub Serves : StaticHandler → Query → Option Addr → Result Response → Type 0
Serves h query none r = r ≡ ok (record { rcode = rcode_success; answer = []; ns = []; extra = [] })
Serves h query (some addr) r =
    (rr : Rr) × (r ≡ ok (record { rcode = rcode_success; answer = rr ∷ []; ns = []; extra = [] }))
    × (rr.name ≡ query.name)
    × (rr.rrtype ≡ query.qtype)
    × (rr.ttl ≡ h.ttl)
    × IsTyped rr addr

-- one case of the switch
answer_with-Serves :
    (h : StaticHandler) (query : Query) (rrtype : ℕ) (data_of : Addr → Rdata) (addr : Option Addr)
    → query.qtype ≡ rrtype
    → ((rr : Rr) (x : Addr) → rr.rrtype ≡ rrtype → rr.rdata ≡ data_of x → IsTyped rr x)
    → Serves h query addr (
        ok (record {
          rcode = rcode_success;
          answer = answer_with h query rrtype data_of addr;
          ns = [];
          extra = [];
        }))
unfolding answer_with header
answer_with-Serves h query rrtype data_of none q typed = refl
answer_with-Serves h query rrtype data_of (some x) q typed =
    let rr : Rr = record { hdr = header h query rrtype; rdata = data_of x } in
    (rr, refl, refl, sym q, refl, typed rr x refl refl)

-- A static answer is always a success; where an address is configured for the type that is asked,
-- it holds one record, of the name and type asked and the configured TTL and address, and else none.
pub handle-Serves :
    {S : Type 0} (h : StaticHandler) (query : Query) (helper : Helper S) (s : S)
    → Serves h query (configured h query.qtype) (handle h query helper s).0
unfolding handle static_answer configured
handle-Serves h query helper s = elim (Bool-cases (query.qtype == type_a)) [
  | inl four ↦ rw four (
      answer_with-Serves h query type_a Rdata.a h.ipv4 ((nat_beq_iff query.qtype type_a).0 four)
        (λ rr x t d. inl (t, d)))
  | inr other ↦ elim (Bool-cases (query.qtype == type_aaaa)) [
    | inl six ↦
        rw (other, six)
          (answer_with-Serves h query type_aaaa Rdata.aaaa h.ipv6
            ((nat_beq_iff query.qtype type_aaaa).0 six) (λ rr x t d. inr (t, d)))
    | inr neither ↦ rw (other, neither) refl
  ]
]
