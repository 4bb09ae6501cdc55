-- ===== src/Resolver/Bailiwick.antt =====
-- `filterInBailiwick`, `hasNS`, `negativeTTL` and `groupByNameType` of resolver/helper.go.
pub mod Loop
pub mod Chain
pub mod Sections
pub mod Groups
use mathlib.Core.List.{foldl}
use mathlib.Core.Option
use cursedns.Prelude.Map.{Map, lookup, insert}
use cursedns.Prelude.{
  ℕ, zero, suc, ◌*◌, ◌≡◌, ◌↔◌, arith, eq_iff, Eq, nat_eq, ◌||◌, String, Bool, true, false, not,
  ◌&&◌, List, [], ◌∷◌, ◌++◌, length, is_empty, ltb, ◌==◌, string_eq, if◌then◌else◌, equal_fold,
}
use cursedns.Dns.{Rr, Rdata, is_ns}
use cursedns.Dns.Names.{Names}
use cursedns.Resolver.Cache.{second}

-- `defaultNegativeTTL`
abbrev pub default_negative_ttl : ℕ
default_negative_ttl = 60 * second

-- what `filterInBailiwick` returns
pub record Filtered : Type 0 where
  pub answer : List Rr
  pub ns : List Rr
  pub extra : List Rr
  pub delegated_zone : String

-- one pass over the remaining records: those that `expect` owns, and the rest
unfoldable pub matched : String → List Rr → List Rr
matched expect [] = []
matched expect (rr ∷ rrs) =
    let more = matched expect rrs in if equal_fold rr.name expect then rr ∷ more else more

unfoldable pub rest : String → List Rr → List Rr
rest expect [] = []
rest expect (rr ∷ rrs) =
    let more = rest expect rrs in if equal_fold rr.name expect then more else rr ∷ more

abbrev pub cname_target : Rdata → List String
cname_target (Rdata.cname target) = target ∷ []
cname_target _ = []

-- the target of the first CNAME record, "" if there is none
unfoldable pub next_name : List Rr → String
next_name [] = ""
next_name (rr ∷ rrs) =
    let later = next_name rrs in elim (cname_target rr.rdata) [ [] ↦ later | target ∷ _ ↦ target ]

module _ (d : Names) where
  open d use {is_sub_domain}

  -- the loop that follows the CNAME chain from `expect`, on fuel
  unfoldable pub follow : ℕ → String → String → List Rr → List Rr
  follow zero zone expect remaining = []
  follow (suc fuel) zone expect remaining =
      let here = matched expect remaining in
      let next = next_name here in
      let onward = here ++ follow fuel zone next (rest expect remaining) in
      if is_sub_domain zone expect
      then (if is_empty here then [] else if next == "" then here else onward)
      else []

  -- a round takes at least one record away, so this fuel is enough
  unfoldable pub filter_answer : String → String → List Rr → List Rr
  filter_answer zone name answer = follow (suc (length answer)) zone name answer

  -- one record of the authority section: is it kept, and the delegated zone afterwards
  unfoldable pub judge_ns : String → String → String → Rr → Bool × String
  judge_ns zone name delegated rr = elim rr.rdata [
    | Rdata.ns _ ↦
        if not (is_sub_domain zone rr.name)
        then (false, delegated)
        else if not (is_sub_domain rr.name name)
        then (false, delegated)
        else if delegated == ""
        then (true, rr.name)
        else (equal_fold rr.name delegated, delegated)
    | Rdata.soa _ ↦ (is_sub_domain zone rr.name, delegated)
    | _ ↦ (false, delegated)
  ]

  -- the loop over the authority section: the records kept, and the delegated zone
  unfoldable pub filter_ns : String → String → String → List Rr → List Rr × String
  filter_ns zone name delegated [] = ([], delegated)
  filter_ns zone name delegated (rr ∷ rrs) =
      let (keep, delegated') = judge_ns zone name delegated rr in
      let (kept, final) = filter_ns zone name delegated' rrs in
      (if keep then rr ∷ kept else kept, final)

  -- the loop over the additional section
  unfoldable pub below : String → List Rr → List Rr
  below zone [] = []
  below zone (rr ∷ rrs) =
      let more = below zone rrs in if is_sub_domain zone rr.name then rr ∷ more else more

  unfoldable pub filter_extra : String → List Rr → List Rr
  filter_extra delegated extra = if delegated == "" then [] else below delegated extra

  -- `filterInBailiwick`
  unfoldable pub filter_in_bailiwick : String → String → List Rr → List Rr → List Rr → Filtered
  filter_in_bailiwick zone name answer ns extra =
      let (kept_ns, delegated) = filter_ns zone name "" ns in
      record {
        answer = filter_answer zone name answer;
        ns = kept_ns;
        extra = filter_extra delegated extra;
        delegated_zone = delegated;
      }

  -- `negativeTTL`, in nanoseconds
  unfoldable pub negative_ttl : String → List Rr → ℕ
  negative_ttl zone [] = default_negative_ttl
  negative_ttl zone (rr ∷ rrs) =
      let later = negative_ttl zone rrs in
      elim rr.rdata [
        | Rdata.soa minttl ↦
            if is_sub_domain zone rr.name
            then (if ltb minttl rr.ttl then minttl else rr.ttl) * second
            else later
        | _ ↦ later
      ]

-- `hasNS`
unfoldable pub has_ns : List Rr → Bool
has_ns [] = false
has_ns (rr ∷ rrs) = is_ns rr.rdata || has_ns rrs

pub record NameType : Type 0 where
  pub name : String
  pub qtype : ℕ

abbrev pub NameType_beq : NameType → NameType → Bool
NameType_beq j k = j.name == k.name && j.qtype == k.qtype

pub NameType_beq_iff : (j k : NameType) → (NameType_beq j k ≡ true) ↔ (j ≡ k)
NameType_beq_iff j k = ground (arith, eq_iff j.name k.name)

instance abbrev pub NameType-Eq : Eq NameType
NameType-Eq = record { beq = NameType_beq; beq_iff = NameType_beq_iff }

abbrev pub Groups : Type 0
Groups = Map NameType (List Rr)

-- `groups[key] = append(groups[key], rr)`, where a missing group is nil
unfoldable pub add_to_group : Groups → Rr → Groups
add_to_group groups rr =
    let key : NameType = record { name = rr.name; qtype = rr.rrtype } in
    insert key (Option.get_or (lookup key groups) [] ++ rr ∷ []) groups

-- `groupByNameType`
unfoldable pub group_by_name_type : List Rr → Groups
unfolding add_to_group
group_by_name_type = foldl add_to_group []
