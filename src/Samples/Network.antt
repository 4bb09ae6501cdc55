-- ===== src/Samples/Network.antt =====
-- A world with a clock that ticks at each reading, no other requests, and two nameservers: one that
-- refers "example.com." to the other, which answers for it with an alias.
use cursedns.Resolver.Bailiwick.Sections.{Named}
use cursedns.Resolver.Helper.Poisoning.{AnswersNamed}
use cursedns.Prelude.{
  All, Bool-cases, inl, inr, refl, subst, codes_eq, ℕ, suc, String, true, false, none, List, [],
  ◌∷◌, ◌==◌, codes-Eq, if◌then◌else◌,
}
use cursedns.Dns.{Rr, Rdata, Msg, type_a, type_ns, type_cname, class_inet, rcode_success}
use cursedns.Resolver.Types.{Addr, NameServer, Query, Result, ok, err, external, Protocol}
use cursedns.Resolver.Cache.{new_cache}
use cursedns.Resolver.Request.{Env, State, new_request_helper}

abbrev pub record_of : String → ℕ → ℕ → Rdata → Rr
record_of name rrtype ttl rdata = record {
  hdr = record { name = name; rrtype = rrtype; class = class_inet; ttl = ttl };
  rdata = rdata;
}

abbrev pub message : ℕ → List Rr → List Rr → List Rr → Msg
message rcode answer ns extra = record {
  id = 7;
  response = true;
  authoritative = false;
  recursion_desired = false;
  recursion_available = false;
  rcode = rcode;
  question = [];
  answer = answer;
  ns = ns;
  extra = extra;
}

abbrev pub root_addr : Addr
root_addr = 198 ∷ 41 ∷ 0 ∷ 4 ∷ []

abbrev pub leaf_addr : Addr
leaf_addr = 192 ∷ 0 ∷ 2 ∷ 53 ∷ []

abbrev pub cut_ns : Rr
cut_ns = record_of "example.com." type_ns 300 (Rdata.ns "ns.example.com.")

abbrev pub glue_a : Rr
glue_a = record_of "ns.example.com." type_a 300 (Rdata.a leaf_addr)

abbrev pub stray_a : Rr
stray_a = record_of "victim.org." type_a 300 (Rdata.a (10 ∷ 0 ∷ 0 ∷ 1 ∷ []))

-- a referral, with one record of a foreign name
abbrev pub referral_msg : Msg
referral_msg = message rcode_success [] (cut_ns ∷ []) (glue_a ∷ stray_a ∷ [])

abbrev pub alias : Rr
alias = record_of "www.example.com." type_cname 60 (Rdata.cname "web.example.com.")

abbrev pub web_a : Rr
web_a = record_of "WEB.example.com." type_a 30 (Rdata.a (192 ∷ 0 ∷ 2 ∷ 80 ∷ []))

-- the answer out of order, with a record that the chain does not reach
abbrev pub alias_msg : Msg
alias_msg = message rcode_success (web_a ∷ stray_a ∷ alias ∷ []) [] []

abbrev pub reply_from : Addr → Result Msg
reply_from addr =
    if addr == root_addr
    then ok referral_msg
    else if addr == leaf_addr
    then ok alias_msg
    else err (external "i/o timeout")

abbrev pub net : Env
net = record {
  World = ℕ;
  now = λ w. (w, suc w);
  cache_times = λ w. ((w, w), suc w);
  ctx_err = λ w. (none, w);
  set_question = λ name qtype. record (message rcode_success [] [] []) {
    question = record { name = name; qtype = qtype; qclass = class_inet } ∷ [];
  };
  exchange = λ req addr port w. (reply_from addr, suc w);
  others = λ w. ([], w);
  range = λ groups w. (groups, w);
}

abbrev pub hints : List NameServer
hints = record { name = "a.root-servers.net."; addr = root_addr } ∷ []

abbrev pub start : State ℕ
start = new_request_helper new_cache 1000

abbrev pub www : Query
www = record {
  id = 1;
  name = "www.example.com.";
  qtype = type_a;
  class = class_inet;
  client_addr = (root_addr, 5353);
  protocol = Protocol.udp;
}

-- no answer of this network has an empty owner name in its authority section
abbrev HasNames : Result Msg → Type 0
HasNames (ok m) = All Named m.ns
HasNames (err e) = Unit

reply_from_named : (addr : Addr) → HasNames (reply_from addr)
reply_from_named addr = elim (Bool-cases (codes_eq addr root_addr)) [
  | inl root ↦ rw root (refl, tt)
  | inr other ↦ elim (Bool-cases (codes_eq addr leaf_addr)) [
    | inl leaf ↦ rw (other, leaf) tt
    | inr neither ↦ rw (other, neither) tt
  ]
]

pub net_names : AnswersNamed net
net_names req addr port w resp h = subst HasNames h (reply_from_named addr)
