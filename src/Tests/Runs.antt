-- ===== src/Tests/Runs.antt =====
-- What the code computes on inputs that can be followed in the source.

use cursedns.Prelude.{◌≡◌, refl, [], ◌∷◌, to_lower, equal_fold}
use cursedns.Prelude.Map.{lookup, delete, insert}
use cursedns.Dns.{rcode_success}
use cursedns.Resolver.Types.{ok, addr_from_slice}
use cursedns.Resolver.Cache.{
  CacheKey-Eq, get, set, min_ttl, check_nxdomain, check_nodata, get_negative, set_nxdomain,
  set_nodata, new_cache,
}
use cursedns.Resolver.Cache.Spec.{step}
use cursedns.Resolver.Bailiwick.{
  matched, rest, next_name, follow, filter_answer, judge_ns, filter_ns, below, filter_extra,
  filter_in_bailiwick, negative_ttl, has_ns as resolver_has_ns, add_to_group, group_by_name_type,
}
use cursedns.Resolver.Helper.{request_helper, lookup_program}
use cursedns.Handlers.Recursive.{
  on_resolved, chase_names, resolve_nameservers, follow_referral, after_lookup, walk, resolve_at,
  resolve_iterative, conclude, restart, handle,
}
use cursedns.Handlers.Recursive.Records.{
  has_ns, delegation_owner, is_seen, unique_from, unique_ns_names, glue_for, glue, addresses, scan,
  chase, unresolved_cname_target,
}
use cursedns.Samples.Domains.{emit, split, labels, is_prefix, fqdn, domains}
use cursedns.Samples.Network.{glue_a, alias, web_a, alias_msg, referral_msg, net, hints, start, www}

unfoldable pub domains_program : Unit {0}
unfolding to_lower equal_fold emit split labels is_prefix fqdn
domains_program = tt

unfoldable pub filter_program : Unit {0}
unfolding domains_program matched rest next_name follow filter_answer judge_ns filter_ns below
    filter_extra filter_in_bailiwick negative_ttl resolver_has_ns add_to_group group_by_name_type
filter_program = tt

unfoldable pub cache_program : Unit {0}
unfolding lookup delete insert get set min_ttl check_nxdomain check_nodata get_negative set_nxdomain
    set_nodata new_cache step
cache_program = tt

unfoldable pub recursive_program : Unit {0}
unfolding filter_program cache_program lookup_program addr_from_slice on_resolved chase_names
    resolve_nameservers follow_referral after_lookup walk resolve_at resolve_iterative conclude
    restart handle has_ns delegation_owner is_seen unique_from unique_ns_names glue_for glue
    addresses scan chase unresolved_cname_target
recursive_program = tt

-- the alias comes first, whatever the order of the message, and the stray record is dropped
filter_answer_run :
    filter_answer domains "example.com." "www.example.com." alias_msg.answer ≡ alias ∷ web_a ∷ []
unfolding filter_program
filter_answer_run = refl

filter_ns_run : (filter_ns domains "." "www.example.com." "" referral_msg.ns).1 ≡ "example.com."
unfolding filter_program
filter_ns_run = refl

-- two lookups: the referral, and the answer of the nameserver that its glue names
handle_run :
    (handle (request_helper net domains hints) www start).0
    ≡ ok (record { rcode = rcode_success; answer = alias ∷ web_a ∷ []; ns = []; extra = [] })
unfolding recursive_program
handle_run = refl

-- the glue of a referral stands for the answer to a query for the nameserver itself
glue_run :
    (handle (request_helper net domains hints) (record www { name = "ns.example.com." }) start).0
    ≡ ok (record { rcode = rcode_success; answer = glue_a ∷ []; ns = []; extra = [] })
unfolding recursive_program
glue_run = refl
