-- ===== src/Tests/Witnesses.antt =====
-- The theorems at concrete inputs where their conditions hold.
use cursedns.Prelude.Map
use cursedns.Prelude.{
  ℕ, ◌≤◌, ◌≡◌, ◌≢◌, ◌↔◌, refl, none, some, List, [], ◌∷◌, All, In, arith, string_eq, take,
}
use cursedns.Dns.{type_a, type_cname}
use cursedns.Resolver.Cache.{CacheKey, new_cache, get, set}
use cursedns.Resolver.Cache.Ttl
use cursedns.Resolver.Cache.Ttl.{IsFresh}
use cursedns.Resolver.Cache.Spec.{Op, read, write, read_negative, replies, ideal_replies, nothing}
use cursedns.Resolver.Cache.Refinement
use cursedns.Resolver.Bailiwick.{NameType, filter_answer, filter_in_bailiwick, group_by_name_type}
use cursedns.Resolver.Bailiwick.Groups
use cursedns.Resolver.Bailiwick.Groups.{group, of_key}
use cursedns.Resolver.Bailiwick.Loop
use cursedns.Resolver.Bailiwick.Loop.{Loop}
use cursedns.Resolver.Bailiwick.Chain
use cursedns.Resolver.Bailiwick.Chain.{OnChain}
use cursedns.Resolver.Bailiwick.Sections
use cursedns.Resolver.Bailiwick.Sections.{Within, IsReferral, Named}
use cursedns.Resolver.Request.{State, key_of}
use cursedns.Resolver.Helper.{lookup_fqdn, lookup, request_helper}
use cursedns.Resolver.Helper.Poisoning.{Untouched, IsPeaceful}
use cursedns.Resolver.Helper.Protected
use cursedns.Resolver.Helper.Contract
use cursedns.Resolver.Helper.Contract.{IsNarrowing}
use cursedns.Resolver.TraceStore.{TraceRecord, TraceStore, new_trace_store}
use cursedns.Resolver.TraceStore
use cursedns.Resolver.TraceStore.Lists
use cursedns.Resolver.TraceStore.Lists.{view}
use cursedns.Resolver.TraceStore.Lru
use cursedns.Resolver.TraceStore.Lru.{IsValid, stamped}
use cursedns.Resolver.TraceStore.Reads
use cursedns.Resolver.TraceStore.Reads.{touch}
use cursedns.Handlers.Recursive.{handle, max_total_lookups}
use cursedns.Handlers.Recursive.Budget
use cursedns.Handlers.Recursive.Budget.{counted}
use cursedns.Handlers.Recursive.Delegation
use cursedns.Handlers.Recursive.Delegation.{logged, Covers}
use cursedns.Handlers.Recursive.Target
use cursedns.Handlers.Recursive.Target.{Linked, Unanswered}
use cursedns.Samples.Domains.{domains, domains-IsNames}
use cursedns.Samples.Network.{
  alias, web_a, stray_a, alias_msg, referral_msg, net, net_names, hints, start, www,
}
use cursedns.Tests.Runs.{recursive_program, domains_program}

abbrev victim : CacheKey
victim = key_of "victim.org." type_a

calm : IsPeaceful net victim
calm = record {
  others_harmless = λ w. tt;
  range_visits = λ groups w g i. i;
  answers_named = net_names;
}

-- a record of the victim is cached, and has not expired
abbrev holding : State ℕ
holding = record start { cache = set 900 victim (stray_a ∷ []) new_cache }

lookup_fqdn-Untouched_example :
    Untouched net victim holding
      (lookup_fqdn net domains "www.example.com." type_a "example.com." hints holding).1
unfolding domains_program
lookup_fqdn-Untouched_example =
    Protected.lookup_fqdn-Untouched domains domains-IsNames net victim calm "www.example.com."
      type_a "example.com." refl refl refl hints holding

abbrev web_key : NameType
web_key = record { name = "www.example.com."; qtype = type_a }

group-group_by_name_type_example :
    group web_key (group_by_name_type (stray_a ∷ web_a ∷ alias ∷ web_a ∷ []))
    ≡ of_key web_key (stray_a ∷ web_a ∷ alias ∷ web_a ∷ [])
group-group_by_name_type_example =
    Groups.group-group_by_name_type web_key (stray_a ∷ web_a ∷ alias ∷ web_a ∷ [])

mem-filter_answer_example :
    In web_a (filter_answer domains "example.com." "www.example.com." alias_msg.answer)
    ↔ OnChain domains "example.com." "www.example.com." alias_msg.answer web_a
mem-filter_answer_example =
    Chain.mem-filter_answer domains "example.com." "www.example.com." alias_msg.answer web_a

filter_in_bailiwick-Within_example :
    let f =
      filter_in_bailiwick domains "example.com." "www.example.com." [] referral_msg.ns
        referral_msg.extra in
    All (Within domains "example.com.") f.answer
    × All (Within domains "example.com.") f.ns
    × All (Within domains "example.com.") f.extra
filter_in_bailiwick-Within_example =
    Sections.filter_in_bailiwick-Within domains domains-IsNames "example.com." "www.example.com." []
      referral_msg.ns referral_msg.extra (refl, tt)

handle-le-max_total_lookups_example :
    (handle (counted (request_helper net domains hints)) www (0, start)).1.0 ≤ max_total_lookups
handle-le-max_total_lookups_example =
    Budget.handle-le-max_total_lookups (request_helper net domains hints) www start

abbrev calls : List (ℕ × ℕ × Op)
calls =
    (5, 0, write victim (stray_a ∷ []))
    ∷ (300000000000, 1, read victim)
    ∷ (1, 0, read victim)
    ∷ (0, 2, read_negative victim)
    ∷ []

replies-new_cache_example : replies 7 calls new_cache ≡ ideal_replies 7 calls nothing
replies-new_cache_example = Refinement.replies-new_cache 7 calls

lookup_narrows_example :
    IsNarrowing domains
      (domains.fqdn ".")
      (domains.fqdn "www.example.com.")
      (lookup net domains "www.example.com." type_a "." hints start).0
lookup_narrows_example =
    Contract.lookup_narrows domains domains-IsNames net net_names "www.example.com." type_a "."
      hints start

handle-Covers_example :
    All (Covers domains) (handle (logged (request_helper net domains hints)) www ([], start)).1.0
handle-Covers_example =
    Delegation.handle-Covers domains domains-IsNames net net_names hints www start

get-set_example :
    (All (IsFresh 10 20) (stray_a ∷ web_a ∷ [])
      → (get 20 victim (set 10 victim (stray_a ∷ web_a ∷ []) new_cache)).0
        ≡ some (stray_a ∷ web_a ∷ []))
    × (¬ All (IsFresh 10 20) (stray_a ∷ web_a ∷ [])
        → (get 20 victim (set 10 victim (stray_a ∷ web_a ∷ []) new_cache)).0 ≡ none)
get-set_example = Ttl.get-set 10 20 victim (stray_a ∷ web_a ∷ []) new_cache (ground arith)

filter_in_bailiwick-IsReferral_example :
    let f =
      filter_in_bailiwick domains "." "www.example.com." [] referral_msg.ns referral_msg.extra in
    All (λ rr. IsReferral domains "." "www.example.com." f.delegated_zone rr.rdata rr.name) f.ns
filter_in_bailiwick-IsReferral_example =
    Sections.filter_in_bailiwick-IsReferral domains "." "www.example.com." [] referral_msg.ns
      referral_msg.extra (refl, tt)

filter_answer-Loop_example :
    Loop domains "example.com." "www.example.com." alias_msg.answer
      (filter_answer domains "example.com." "www.example.com." alias_msg.answer)
filter_answer-Loop_example =
    Loop.filter_answer-Loop domains "example.com." "www.example.com." alias_msg.answer

abbrev pub blank : TraceRecord
blank = record {
  id = "";
  name = "www.example.com.";
  qtype = "A";
  rcode = "NOERROR";
  outcome = "ok";
  client_addr = "127.0.0.1:5353";
  protocol = "udp";
  duration_ms = 3;
  created_at = 0;
  lines = [];
}

pub one_IsValid : IsValid (new_trace_store 1)
unfolding new_trace_store Map.lookup Lists.address_of_id
one_IsValid = record {
  positive = omega arith;
  bounded = omega arith;
  distinct = tt;
  indexed = λ id. refl;
  allocated = tt;
  labelled = tt;
}

first : TraceStore
first = TraceStore.put 5 "a1" blank (new_trace_store 1)

first-view : IsValid first × (view first.ll ≡ take 1 (("a1", stamped 5 "a1" blank) ∷ []))
unfolding first new_trace_store Map.lookup
first-view = Lru.put-view 5 "a1" blank (new_trace_store 1) one_IsValid refl

first_absent : Map.lookup "b2" (view first.ll) ≡ none
unfolding first TraceStore.put TraceStore.evict new_trace_store Map.lookup
first_absent = refl

put-view_example :
    IsValid (TraceStore.put 6 "b2" blank first)
    × (view (TraceStore.put 6 "b2" blank first).ll
        ≡ take first.capacity (("b2", stamped 6 "b2" blank) ∷ view first.ll))
put-view_example = Lru.put-view 6 "b2" blank first first-view.0 first_absent

get-view_example :
    IsValid (TraceStore.get "a1" first).1
    × ((TraceStore.get "a1" first).0 ≡ Map.lookup "a1" (view first.ll))
    × (view (TraceStore.get "a1" first).1.ll ≡ touch "a1" (view first.ll))
get-view_example = Reads.get-view "a1" first first-view.0

unresolved_cname_target-dangling_example :
    (type_a ≢ type_cname)
    × Linked (alias ∷ []) "www.example.com." "web.example.com."
    × Unanswered (alias ∷ []) "web.example.com."
unfolding recursive_program
unresolved_cname_target-dangling_example =
    Target.unresolved_cname_target-dangling (alias ∷ []) "www.example.com." "web.example.com."
      type_a refl
