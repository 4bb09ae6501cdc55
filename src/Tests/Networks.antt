-- ===== src/Tests/Networks.antt =====
-- The sample network, whose nameservers answer the same at all times, and the theorems on lookups and
-- on the recursive handler at it.
use cursedns.Prelude.{true, ℕ, String, ◌≡◌, refl, arith, List, [], ◌∷◌, map}
use cursedns.Prelude.Map.{lookup}
use cursedns.Dns.{Msg, type_a, rcode_success}
use cursedns.Resolver.Types.{Addr, NameServer, LookupResult, Response, Result, ok, tcp}
use cursedns.Resolver.Cache.{new_cache}
use cursedns.Resolver.Request.{key_of}
use cursedns.Resolver.Helper
use cursedns.Resolver.Helper.{request_helper, request}
use cursedns.Resolver.Helper.Steady
use cursedns.Resolver.Helper.Steady.{IsSteady, first_response, found, cached, cached_negative}
use cursedns.Resolver.Helper.Cold.{IsCalm, Misses}
use cursedns.Resolver.Helper.Leaves.{refers, elsewhere}
use cursedns.Handlers.Recursive.{handle}
use cursedns.Handlers.Recursive.Leads.{is_final}
use cursedns.Handlers.Recursive.Follows
use cursedns.Handlers.Recursive.Follows.{Follows, ends, passes}
use cursedns.Handlers.Recursive.Delegates.{Delegates, authority, delegated, Spares}
use cursedns.Handlers.Recursive.Answers.{is_negative}
use cursedns.Resolver.Server.{handle_message}
use cursedns.Resolver.Server.Delivery.{Delivered, Packs}
use cursedns.Main.Serving
use cursedns.Main.Serving.{recursive_host}
use cursedns.Samples.Aliases.{
  aliased_net, reply_for, near_referral, far_referral, alias_answer, far_answer, far_alias, far_a,
}
use cursedns.Samples.Hosts.{bytes, bytes-IsWire, tables, running, query_msg, www_question}
use cursedns.Samples.Domains.{domains}
use cursedns.Samples.Network.{net, hints, start, www, reply_from, root_addr}
use cursedns.Tests.Runs.{recursive_program}

net-IsSteady :
    (name : String) (qtype : ℕ) (zone : String) → IsSteady net domains name qtype zone reply_from
net-IsSteady name qtype zone = record { steady = λ addr w. refl; patient = λ w. refl }

-- one that does not answer, and the root
abbrev two_servers : List NameServer
two_servers = record { name = "dead.example.net."; addr = 10 ∷ 0 ∷ 0 ∷ 9 ∷ [] } ∷ hints

lookup-found_example :
    (Helper.lookup net domains "www.example.com." type_a "." two_servers start).0
    ≡ found domains
        (domains.fqdn "www.example.com.")
        type_a
        (domains.fqdn ".")
        (cached net (domains.fqdn "www.example.com.") type_a start)
        (cached_negative net (domains.fqdn "www.example.com.") type_a start)
        (map (λ server. reply_from server.addr) two_servers)
lookup-found_example =
    Steady.lookup-found net domains "www.example.com." type_a "." reply_from two_servers start
      (net-IsSteady _ _ _)

-- the names of the aliased network
abbrev www_name : String
www_name = "www.example.com."

abbrev web_name : String
web_name = "web.example.net."

aliased-IsSteady :
    (name : String) (qtype : ℕ) (zone : String)
    → IsSteady aliased_net domains name qtype zone (reply_for name)
unfolding request
aliased-IsSteady name qtype zone = record { steady = λ addr w. refl; patient = λ w. refl }

aliased-IsCalm : (name : String) (qtype : ℕ) → IsCalm aliased_net (key_of name qtype)
aliased-IsCalm name qtype = record { others_quiet = λ w. tt; range_visits = λ groups w g i. i }

start-Misses : (name : String) (qtype : ℕ) → Misses (key_of name qtype) start.cache
unfolding lookup new_cache
start-Misses name qtype = (refl, refl, refl)

abbrev near_result : LookupResult
near_result = record { rcode = rcode_success; answer = far_alias ∷ []; ns = []; extra = [] }

abbrev far_result : LookupResult
far_result = record { rcode = rcode_success; answer = far_a ∷ []; ns = []; extra = [] }

abbrev answers : String → ℕ → Addr → Result Msg
answers name qtype = reply_for name

unfoldable near-Delegates : Delegates domains answers www_name type_a "." hints 2 near_result
unfolding recursive_program is_final first_response
near-Delegates =
    delegated {zone = "."} near_referral refl
      (record { beside = refers refl refl refl; cut_elsewhere = refl; glue_elsewhere = (refl, tt) })
      refl refl refl (authority alias_answer refl refl)

near-Spares : Spares (key_of (domains.fqdn web_name) type_a) near-Delegates
unfolding near-Delegates recursive_program
near-Spares = (
  record { beside = elsewhere refl refl; cut_elsewhere = refl; glue_elsewhere = (refl, tt) },
  record { beside = elsewhere refl refl; cut_elsewhere = refl; glue_elsewhere = tt },
)

far-Delegates : Delegates domains answers web_name type_a "." hints 2 far_result
unfolding recursive_program is_final first_response
far-Delegates =
    delegated {zone = "."} far_referral refl
      (record { beside = refers refl refl refl; cut_elsewhere = refl; glue_elsewhere = (refl, tt) })
      refl refl refl (authority far_answer refl refl)

abbrev both : Response
both = record { rcode = rcode_success; answer = far_alias ∷ far_a ∷ []; ns = []; extra = [] }

aliased-Follows : Follows domains hints answers type_a www_name (web_name ∷ []) [] 2 4 both
unfolding recursive_program is_negative
aliased-Follows =
    passes near-Delegates (omega arith) refl refl (near-Spares, tt)
      (ends far-Delegates (omega arith) refl)

handle-Follows_example : (handle (request_helper aliased_net domains hints) www start).0 ≡ ok both
handle-Follows_example =
    Follows.handle-Follows aliased_net domains hints answers aliased-IsSteady www start
      (web_name ∷ []) (aliased-IsCalm _ _, (aliased-IsCalm _ _, tt))
      (start-Misses _ _, (start-Misses _ _, tt)) aliased-Follows (omega arith) (omega arith)

both-Packs :
    Packs bytes (recursive_host aliased_net domains hints tables) running (query_msg true) both
both-Packs = (0 ∷ [], refl)

handle_message-Follows_example :
    Delivered bytes
      (query_msg true)
      both
      []
      (handle_message bytes
        (recursive_host aliased_net domains hints tables)
        tcp
        (root_addr, 5353)
        (1 ∷ [])
        running).sent
handle_message-Follows_example =
    Serving.handle_message-Follows aliased_net domains hints tables answers bytes (root_addr, 5353)
      (1 ∷ []) (query_msg true) www_question running (web_name ∷ []) bytes-IsWire refl refl refl
      aliased-IsSteady (aliased-IsCalm _ _, (aliased-IsCalm _ _, tt))
      (start-Misses _ _, (start-Misses _ _, tt)) aliased-Follows (omega arith) (omega arith)
      both-Packs
