-- ===== src/Resolver/Bailiwick/Groups.antt =====
-- `groupByNameType` and `negativeTTL` of resolver/helper.go.
use mathlib.Core.List.{foldl}
use mathlib.Core.Option
use cursedns.Prelude.{
  String, ◌≡◌, refl, sym, ◌∙◌, List, [], ◌∷◌, ◌++◌, append-nil, append_assoc, arith, if◌then◌else◌,
}
use cursedns.Prelude.Map.{lookup, lookup-insert}
use cursedns.Dns.{Rr}
use cursedns.Dns.Names.{Names}
use cursedns.Resolver.Bailiwick.{
  NameType, NameType-Eq, NameType_beq, NameType_beq_iff, Groups, add_to_group, group_by_name_type,
  filter_ns, judge_ns, negative_ttl,
}

-- the records of one name and type, in order
unfoldable pub of_key : NameType → List Rr → List Rr
of_key key [] = []
of_key key (rr ∷ rrs) =
    let more = of_key key rrs in
    if NameType_beq (record { name = rr.name; qtype = rr.rrtype }) key then rr ∷ more else more

abbrev pub group : NameType → Groups → List Rr
group key groups = Option.get_or (lookup key groups) []

group-add_to_group :
    (key : NameType) (groups : Groups) (rr : Rr)
    → group key (add_to_group groups rr) ≡ group key groups ++ of_key key (rr ∷ [])
unfolding add_to_group of_key
group-add_to_group key groups rr =
    let own : NameType = record { name = rr.name; qtype = rr.rrtype } in
    ground (
      arith,
      lookup-insert own key (group own groups ++ rr ∷ []) groups,
      NameType_beq_iff own key,
      append-nil (group key groups),
    )

of_key-cons :
    (key : NameType) (rr : Rr) (rrs : List Rr)
    → of_key key (rr ∷ rrs) ≡ of_key key (rr ∷ []) ++ of_key key rrs
unfolding of_key
of_key-cons key rr rrs = ground arith

group-foldl :
    (key : NameType) (rrs : List Rr) (groups : Groups)
    → group key (foldl add_to_group groups rrs) ≡ group key groups ++ of_key key rrs
unfolding of_key
group-foldl key [] groups = sym (append-nil (group key groups))
group-foldl key (rr ∷ rrs) groups =
    group-foldl key rrs (add_to_group groups rr)
    ∙ rw (group-add_to_group key groups rr, of_key-cons key rr rrs)
        (append_assoc (group key groups) (of_key key (rr ∷ [])) (of_key key rrs))

-- The group of a name and type holds exactly the records of that name and type, in their order;
-- a missing group stands for none.
pub group-group_by_name_type :
    (key : NameType) (rrs : List Rr) → group key (group_by_name_type rrs) ≡ of_key key rrs
unfolding group_by_name_type lookup
group-group_by_name_type key rrs = group-foldl key rrs []

-- The lifetime of a negative entry is that of the records that the filter keeps: an NS record or an
-- SOA record of a name outside the zone has no part in it.
negative_ttl-filter_ns :
    (d : Names) (zone name delegated : String) (ns : List Rr)
    → negative_ttl d zone (filter_ns d zone name delegated ns).0 ≡ negative_ttl d zone ns
unfolding negative_ttl filter_ns judge_ns
negative_ttl-filter_ns d zone name delegated [] = refl
negative_ttl-filter_ns d zone name delegated (rr ∷ ns) =
    ground (arith, negative_ttl-filter_ns d zone name (judge_ns d zone name delegated rr).1 ns)
