-- ===== src/Samples/Aliases.antt =====
-- A network where "www.example.com." is an alias for "web.example.net.", with nameservers of each zone.
use cursedns.Prelude.{suc, String, List, [], ◌∷◌, ◌==◌, string_eq, codes-Eq, if◌then◌else◌}
use cursedns.Dns.{Rr, Rdata, Msg, Question, type_a, type_ns, type_cname, rcode_success}
use cursedns.Resolver.Types.{Addr, Result, ok, err, external}
use cursedns.Resolver.Request.{Env}
use cursedns.Samples.Network.{record_of, message, root_addr, leaf_addr, cut_ns, glue_a, net}

abbrev pub far_addr : Addr
far_addr = 192 ∷ 0 ∷ 2 ∷ 54 ∷ []

abbrev pub far_ns : Rr
far_ns = record_of "example.net." type_ns 300 (Rdata.ns "ns.example.net.")

abbrev pub far_glue : Rr
far_glue = record_of "ns.example.net." type_a 300 (Rdata.a far_addr)

abbrev pub far_alias : Rr
far_alias = record_of "www.example.com." type_cname 60 (Rdata.cname "web.example.net.")

abbrev pub far_a : Rr
far_a = record_of "web.example.net." type_a 30 (Rdata.a (192 ∷ 0 ∷ 2 ∷ 81 ∷ []))

abbrev pub near_referral : Msg
near_referral = message rcode_success [] (cut_ns ∷ []) (glue_a ∷ [])

abbrev pub far_referral : Msg
far_referral = message rcode_success [] (far_ns ∷ []) (far_glue ∷ [])

abbrev pub alias_answer : Msg
alias_answer = message rcode_success (far_alias ∷ []) [] []

abbrev pub far_answer : Msg
far_answer = message rcode_success (far_a ∷ []) [] []

abbrev pub reply_for : String → Addr → Result Msg
reply_for name addr =
    if addr == root_addr
    then (if name == "web.example.net." then ok far_referral else ok near_referral)
    else if addr == leaf_addr
    then ok alias_answer
    else if addr == far_addr
    then ok far_answer
    else err (external "i/o timeout")

abbrev pub asked_name : List Question → String
asked_name [] = ""
asked_name (q ∷ qs) = q.name

abbrev pub aliased_net : Env
aliased_net = record net {
  exchange = λ req addr port w. (reply_for (asked_name req.question) addr, suc w);
}
