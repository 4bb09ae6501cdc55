-- ===== src/Tests/Negatives.antt =====
-- Responses in the cache, and what they do to later lookups: a name error for the end of an alias, and an
-- answer.
use cursedns.Prelude.{ℕ, ◌≡◌, refl, none, List, [], ◌∷◌, arith, inr}
use cursedns.Prelude.Map.{lookup}
use cursedns.Dns.{Msg, type_a, type_txt, rcode_name_error, rcode_success}
use cursedns.Resolver.Types.{NameServer, ok}
use cursedns.Resolver.Cache.{CacheKey-Eq}
use cursedns.Resolver.Request.{State, key_of, apply_all}
use cursedns.Resolver.Cache.Spec.{Op, read, write, read_negative, step}
use cursedns.Resolver.Helper.{accept, lookup_fqdn, lookup_program}
use cursedns.Resolver.Helper.Negative
use cursedns.Samples.Domains.{domains}
use cursedns.Samples.Network.{alias, alias_msg, web_a, leaf_addr, message, net, start}
use cursedns.Resolver.Helper.Positive
use cursedns.Tests.Runs.{filter_program, cache_program}

-- "www.example.com." is an alias for a name that there is not
abbrev dangling_msg : Msg
dangling_msg = message rcode_name_error (alias ∷ []) [] []

abbrev leaf : NameServer
leaf = record { name = "ns.example.com."; addr = leaf_addr }

-- what is left of the state after a response, later calls on the cache, and a time
abbrev moved : State ℕ → List (ℕ × ℕ × Op) → ℕ → State ℕ
moved s calls t = record { cache = apply_all calls s.cache; lines = []; world = t }

-- the name is asked for again, and records of another are stored
abbrev asked_again : List (ℕ × ℕ × Op)
asked_again =
    (1020, 1020, read_negative (key_of "www.example.com." type_a))
    ∷ (1021, 1021, write (key_of "mail.example.com." type_a) (web_a ∷ []))
    ∷ (1022, 1022, read (key_of "www.example.com." type_txt))
    ∷ []

abbrev refused : State ℕ
refused =
    moved (accept net domains "www.example.com." type_a "example.com." leaf dangling_msg start).1
      asked_again 1030

no_records : lookup (key_of "www.example.com." type_txt) refused.cache.entries ≡ none
unfolding filter_program cache_program lookup_program apply_all step
no_records = refl

accept-lookup_fqdn_example :
    (lookup_fqdn net domains "www.example.com." type_txt "example.com." (leaf ∷ []) refused).0
    ≡ ok (record { rcode = rcode_name_error; answer = []; ns = []; extra = [] })
unfolding filter_program cache_program lookup_program
accept-lookup_fqdn_example =
    Negative.accept-lookup_fqdn net domains "www.example.com." type_a "example.com." leaf
      dangling_msg start asked_again refused type_txt "example.com." (leaf ∷ []) (λ w. tt) refl
      (inr (omega arith), (tt, (tt, tt))) refl no_records (omega arith)

-- the name is looked up again by others, and records of another are stored
abbrev used : List (ℕ × ℕ × Op)
used =
    (1020, 1020, read (key_of "www.example.com." type_a))
    ∷ (1021, 1021, write (key_of "mail.example.com." type_a) (web_a ∷ []))
    ∷ (1022, 1022, read (key_of "www.example.com." type_a))
    ∷ []

abbrev answered : State ℕ
answered =
    moved (accept net domains "www.example.com." type_a "example.com." leaf alias_msg start).1 used
      1030

accept-lookup_fqdn_answer_example :
    (lookup_fqdn net domains "www.example.com." type_a "example.com." [] answered).0
    ≡ ok (record { rcode = rcode_success; answer = alias ∷ web_a ∷ []; ns = []; extra = [] })
unfolding filter_program cache_program lookup_program
accept-lookup_fqdn_answer_example =
    Positive.accept-lookup_fqdn_answer net (λ groups w g i. i) domains "www.example.com." type_a
      "example.com." leaf alias_msg start used answered "example.com." [] alias (web_a ∷ [])
      (λ w. tt) refl refl refl tt (inr (omega arith), (refl, (inr (omega arith), tt))) refl
      (omega arith)
