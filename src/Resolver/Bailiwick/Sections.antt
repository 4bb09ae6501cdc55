-- ===== src/Resolver/Bailiwick/Sections.antt =====
-- What `filterInBailiwick` keeps of the authority and additional sections, and that no record of a
-- name outside the zone gets through.
use cursedns.Prelude.{
  String, true, false, ◌≡◌, refl, inl, inr, List, [], ◌∷◌, arith, ◌==◌, string_eq, equal_fold,
  equal_fold_refl, equal_fold_comm, All-In, Bool-cases, All, All-map, In,
}
use cursedns.Dns.{Rr, Rdata, is_ns}
use cursedns.Dns.Names.{Names, IsNames}
use cursedns.Resolver.Bailiwick.{
  judge_ns, filter_ns, below, filter_extra, filter_answer, filter_in_bailiwick,
}
use cursedns.Resolver.Bailiwick.Chain.{mem-filter_answer, In-matched}

-- the owner of the record is at or below the zone
abbrev pub Within : Names → String → Rr → Type 0
Within d zone rr = d.is_sub_domain zone rr.name ≡ true

-- names that `Unpack` yields are never empty: the root is "."
abbrev pub Named : Rr → Type 0
Named rr = (rr.name == "") ≡ false

-- An NS record that may be kept: of the delegated zone, which is at or below `zone` and covers
-- `name`. An SOA record has to be within the zone only.
abbrev pub IsReferral : Names → String → String → String → Rdata → String → Type 0
IsReferral d zone name delegated (Rdata.ns _) owner =
    (equal_fold owner delegated ≡ true)
    × (d.is_sub_domain zone owner ≡ true)
    × (d.is_sub_domain owner name ≡ true)
IsReferral d zone name delegated (Rdata.soa _) owner = d.is_sub_domain zone owner ≡ true
IsReferral d zone name delegated _ owner = ⊥

-- a delegated zone once it is set
abbrev pub IsCut : Names → String → String → String → Type 0
IsCut d zone name delegated =
    (delegated == "") ≡ false
    → (d.is_sub_domain zone delegated ≡ true) × (d.is_sub_domain delegated name ≡ true)

module _ (d : Names) (zone name : String) where
  judge_ns-IsCut :
      (delegated : String) (rr : Rr)
      → IsCut d zone name delegated
      → IsCut d zone name (judge_ns d zone name delegated rr).1
  unfolding judge_ns
  judge_ns-IsCut delegated rr h = ground arith

  -- once set, the delegated zone stays
  judge_ns_stays :
      (delegated : String) (rr : Rr)
      → (delegated == "") ≡ false
      → (judge_ns d zone name delegated rr).1 ≡ delegated
  unfolding judge_ns
  judge_ns_stays delegated rr h = ground arith

  filter_ns_stays :
      (delegated : String) (ns : List Rr)
      → (delegated == "") ≡ false
      → (filter_ns d zone name delegated ns).1 ≡ delegated
  unfolding filter_ns
  filter_ns_stays delegated [] h = refl
  filter_ns_stays delegated (rr ∷ ns) h =
      rw (judge_ns_stays delegated rr h) (filter_ns_stays delegated ns h)

  judge_ns-IsReferral :
      (delegated : String) (rr : Rr)
      → Named rr
      → (judge_ns d zone name delegated rr).0 ≡ true
      → IsReferral d zone name (judge_ns d zone name delegated rr).1 rr.rdata rr.name
  unfolding judge_ns
  judge_ns-IsReferral delegated rr named h = ground (arith, equal_fold_refl rr.name)

  -- a kept NS record leaves a delegated zone that is set
  judge_ns_set :
      (delegated : String) (rr : Rr)
      → Named rr
      → (judge_ns d zone name delegated rr).0 ≡ true
      → is_ns rr.rdata ≡ true
      → ((judge_ns d zone name delegated rr).1 == "") ≡ false
  unfolding judge_ns
  judge_ns_set delegated rr named h k = ground arith

  -- what an SOA record has to meet does not depend on the delegated zone
  IsReferral-final :
      (now final : String) (data' : Rdata) (owner : String)
      → (is_ns data' ≡ true → final ≡ now)
      → IsReferral d zone name now data' owner
      → IsReferral d zone name final data' owner
  IsReferral-final now final (Rdata.ns _) owner h k = rw (h refl) k
  IsReferral-final now final (Rdata.soa _) owner h k = k
  IsReferral-final now final (Rdata.a _) owner h k = k
  IsReferral-final now final _ owner h k = k

  filter_ns-IsReferral :
      (delegated : String) (ns : List Rr)
      → All Named ns
      → All
          (λ rr. IsReferral d zone name (filter_ns d zone name delegated ns).1 rr.rdata rr.name)
          (filter_ns d zone name delegated ns).0
  unfolding filter_ns
  filter_ns-IsReferral delegated [] h = tt
  filter_ns-IsReferral delegated (rr ∷ ns) h =
      let next = (judge_ns d zone name delegated rr).1 in
      let ih = filter_ns-IsReferral next ns h.1 in
      elim (Bool-cases (judge_ns d zone name delegated rr).0) [
        | inr skip ↦ rw skip ih
        | inl keep ↦ rw keep (
          IsReferral-final next (filter_ns d zone name next ns).1 rr.rdata rr.name
              (λ k. filter_ns_stays next ns (judge_ns_set delegated rr h.0 keep k))
              (judge_ns-IsReferral delegated rr h.0 keep),
          ih,
        )
      ]

  filter_ns-IsCut :
      (delegated : String) (ns : List Rr)
      → IsCut d zone name delegated
      → IsCut d zone name (filter_ns d zone name delegated ns).1
  unfolding filter_ns
  filter_ns-IsCut delegated [] h = h
  filter_ns-IsCut delegated (rr ∷ ns) h =
      filter_ns-IsCut (judge_ns d zone name delegated rr).1 ns (judge_ns-IsCut delegated rr h)

  -- Every record that is kept of the authority section is an NS record of the one delegated zone,
  -- which is at or below the zone trusted and covers the name asked for, or an SOA record at or
  -- below the zone; given that no owner name is empty.
  pub filter_in_bailiwick-IsReferral :
      (answer ns extra : List Rr)
      → All Named ns
      → let f = filter_in_bailiwick d zone name answer ns extra in
        All (λ rr. IsReferral d zone name f.delegated_zone rr.rdata rr.name) f.ns
  unfolding filter_in_bailiwick
  filter_in_bailiwick-IsReferral answer ns extra h = filter_ns-IsReferral "" ns h

  pub filter_in_bailiwick-IsCut :
      (answer ns extra : List Rr)
      → IsCut d zone name (filter_in_bailiwick d zone name answer ns extra).delegated_zone
  unfolding filter_in_bailiwick
  filter_in_bailiwick-IsCut answer ns extra = filter_ns-IsCut "" ns (λ e. cc)

module _ (d : Names) (laws : IsNames d) (zone name : String) where
  IsReferral-Within :
      (delegated : String) (data' : Rdata) (owner : String)
      → IsReferral d zone name delegated data' owner
      → d.is_sub_domain zone owner ≡ true
  IsReferral-Within delegated (Rdata.ns _) owner h = h.1
  IsReferral-Within delegated (Rdata.soa _) owner h = h
  IsReferral-Within delegated _ owner h = absurd h

  below-Within : (cut : String) (extra : List Rr) → All (Within d cut) (below d cut extra)
  unfolding below
  below-Within cut [] = tt
  below-Within cut (rr ∷ extra) = elim (Bool-cases (d.is_sub_domain cut rr.name)) [
    | inl keep ↦ rw keep (keep, below-Within cut extra)
    | inr skip ↦ rw skip (below-Within cut extra)
  ]

  filter_extra-Within :
      (delegated : String) (extra : List Rr)
      → IsCut d zone name delegated
      → All (Within d zone) (filter_extra d delegated extra)
  unfolding filter_extra
  filter_extra-Within delegated extra cut = elim (Bool-cases (delegated == "")) [
    | inl unset ↦ rw unset tt
    | inr set ↦ rw set (
        All-map (Within d delegated) (Within d zone) (below d delegated extra)
          (λ rr w. laws.sub_trans zone delegated rr.name (cut set).0 w)
          (below-Within delegated extra))
  ]

  filter_answer-Within :
      (answer : List Rr) → (r : Rr) → In r (filter_answer d zone name answer) → Within d zone r
  filter_answer-Within answer r i =
      let o = (mem-filter_answer d zone name answer r).0 i in
      laws.sub_fold zone o.owner r.name
        (equal_fold_comm r.name o.owner (In-matched o.owner answer o.owned).1) o.inside

  -- Every record that is kept, in any section, is of a name at or below the zone that the server
  -- was trusted for; given that no owner name of the authority section is empty.
  pub filter_in_bailiwick-Within :
      (answer ns extra : List Rr)
      → All Named ns
      → let f = filter_in_bailiwick d zone name answer ns extra in
        All (Within d zone) f.answer × All (Within d zone) f.ns × All (Within d zone) f.extra
  unfolding filter_in_bailiwick
  filter_in_bailiwick-Within answer ns extra h =
      let (kept, cut) = filter_ns d zone name "" ns in
      (
        All-In (Within d zone) (filter_answer d zone name answer) (filter_answer-Within answer),
        All-map _ (Within d zone) kept (λ rr. IsReferral-Within cut rr.rdata rr.name)
            (filter_ns-IsReferral d zone name "" ns h),
        filter_extra-Within cut extra (filter_ns-IsCut d zone name "" ns (λ e. cc)),
      )
