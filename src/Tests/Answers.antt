-- ===== src/Tests/Answers.antt =====
-- The sample network leads to its answer: a referral with glue, and the answer of the nameserver
-- that it names.
use cursedns.Prelude.{◌≡◌, refl, arith, ℕ, ◌∷◌, []}
use cursedns.Dns.{rcode_success}
use cursedns.Resolver.Types.{Response, LookupResult, ok, referral}
use cursedns.Resolver.Request.{State, Helper}
use cursedns.Resolver.Helper.{request_helper}
use cursedns.Handlers.Recursive.{handle}
use cursedns.Handlers.Recursive.Leads.{Leads, answered, referred, is_final}
use cursedns.Handlers.Recursive.Answers
use cursedns.Handlers.Recursive.Answers.{Resolves, complete, is_negative}
use cursedns.Samples.Domains.{domains}
use cursedns.Samples.Network.{net, hints, start, www, alias, web_a, cut_ns, glue_a, leaf_addr}
use cursedns.Tests.Runs.{recursive_program}

abbrev helper : Helper (State ℕ)
helper = request_helper net domains hints

abbrev first_result : LookupResult
first_result = record { rcode = rcode_success; answer = []; ns = cut_ns ∷ []; extra = glue_a ∷ [] }

abbrev pub last_result : LookupResult
last_result = record { rcode = rcode_success; answer = alias ∷ web_a ∷ []; ns = []; extra = [] }

abbrev after_first : State ℕ
after_first = (helper.lookup www.name www.qtype "." hints start).1

abbrev before_last : State ℕ
before_last = helper.trace (referral www.name www.qtype "." "example.com." 1) after_first

abbrev after_last : State ℕ
after_last =
    (helper.lookup www.name www.qtype "example.com."
      (record { name = "ns.example.com."; addr = leaf_addr } ∷ []) before_last).1

www-Leads : Leads helper www.name www.qtype 4 "." hints start 2 2 last_result after_last
unfolding recursive_program is_final
www-Leads = referred first_result refl refl refl refl (answered last_result refl refl)

abbrev www_response : Response
www_response = record { rcode = rcode_success; answer = alias ∷ web_a ∷ []; ns = []; extra = [] }

www_resolves : Resolves helper www www.name [] start 1 2 www_response after_last
unfolding recursive_program is_negative
www_resolves = complete last_result www-Leads (omega arith) refl refl

handle-Resolves_example : handle helper www start ≡ (ok www_response, after_last)
handle-Resolves_example =
    Answers.handle-Resolves helper www www_resolves (omega arith) (omega arith)
