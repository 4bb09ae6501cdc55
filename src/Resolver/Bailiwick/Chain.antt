-- ===== src/Resolver/Bailiwick/Chain.antt =====
-- What `filterInBailiwick` keeps of the answer section: the records of the CNAME chain.
use cursedns.Prelude.{
  String, true, false, ◌≡◌, refl, sym, ◌↔◌, ◌⊎◌, inl, inr, List, [], ◌∷◌, arith, is_empty, ◌==◌,
  string_eq, eq_iff, equal_fold, equal_fold_refl, subst, Bool-cases, In, here, there, In-append,
  In-append_left, In-append_right, In-if, if_here, if_there,
}
use cursedns.Dns.{Rr}
use cursedns.Dns.Names.{Names}
use cursedns.Resolver.Bailiwick.{matched, rest, next_name, filter_answer}
use cursedns.Resolver.Bailiwick.Loop.{
  Loop, outside, unowned, ended, onward, filter_answer-Loop, matched-rest, matched-rest_self,
  matched_fold,
}

pub In-matched :
    (e : String) (rs : List Rr) {r : Rr}
    → In r (matched e rs)
    → In r rs × (equal_fold r.name e ≡ true)
unfolding matched
In-matched e [] i = elim i [ ]
In-matched e (x ∷ rs) {r} i = elim (In-if (equal_fold x.name e) i) [
  | inl (h, q) ↦ (here q, rw q h)
  | inr j ↦ let (k, h) = In-matched e rs j in (there k, h)
]

pub matched-In :
    (e : String) (rs : List Rr) {r : Rr}
    → In r rs
    → equal_fold r.name e ≡ true
    → In r (matched e rs)
unfolding matched
matched-In e (x ∷ rs) {r} (here q) h = if_here (equal_fold x.name e) (matched e rs) (rw q at h) q
matched-In e (x ∷ rs) {r} (there i) h = if_there (equal_fold x.name e) x (matched-In e rs i h)
matched-In e [] i h = elim i [ ]

-- The names of the CNAME chain from `name` in the records `rs`: `name` itself, and the target of the
-- first CNAME record of each name of the chain at or below `zone`.
pub data Chain (d : Names) (zone : String) (rs : List Rr) (name : String) : String → Type 0 where
  start : {n : String} → n ≡ name → Chain d zone rs name n
  chase :
      {m n : String}
      → Chain d zone rs name m
      → d.is_sub_domain zone m ≡ true
      → next_name (matched m rs) ≡ n
      → (n == "") ≡ false
      → Chain d zone rs name n

-- a record of the chain, of a name that the server may answer for
pub record OnChain (d : Names) (zone name : String) (rs : List Rr) (r : Rr) : Type 0 where
  pub owner : String
  pub chain : Chain d zone rs name owner
  pub inside : d.is_sub_domain zone owner ≡ true
  pub owned : In r (matched owner rs)

next_of_none : (n : String) → next_name [] ≡ n → (n == "") ≡ false → ⊥
unfolding next_name
next_of_none n q k = ground (arith, eq_iff n "")

next_of_empty : (xs : List Rr) → is_empty xs ≡ true → (next_name xs == "") ≡ false → ⊥
next_of_empty [] u k = next_of_none (next_name []) refl k
next_of_empty (x ∷ xs) u k = cc

not-In_nil : {r : Rr} → In r [] → ⊥
not-In_nil i = elim i [ ]

not-In_empty : {r : Rr} {xs : List Rr} → is_empty xs ≡ true → In r xs → ⊥
not-In_empty u (here q) = cc
not-In_empty u (there i) = cc

module _ (d : Names) (zone : String) where
  -- the chain after a round is the rest of the chain before it
  chain_after :
      (e : String) (rs : List Rr)
      → d.is_sub_domain zone e ≡ true
      → (next_name (matched e rs) == "") ≡ false
      → {n : String} → Chain d zone (rest e rs) (next_name (matched e rs)) n
      → Chain d zone rs e n
  chain_after e rs inside more {n} (start q) = chase (start refl) inside (sym q) (rw q more)
  chain_after e rs inside more {n} (chase {m = m} c z q k) = elim (Bool-cases (equal_fold m e)) [
    | inl same ↦ absurd (next_of_none n (rw (matched-rest_self m e rs same) at q) k)
    | inr other ↦ chase (chain_after e rs inside more c) z (rw matched-rest at q) k
  ]

  OnChain-after :
      (e : String) (rs : List Rr)
      → d.is_sub_domain zone e ≡ true
      → (next_name (matched e rs) == "") ≡ false
      → {r : Rr} → OnChain d zone (next_name (matched e rs)) (rest e rs) r
      → OnChain d zone e rs r
  OnChain-after e rs inside more {r} o = elim (Bool-cases (equal_fold o.owner e)) [
    | inl same ↦ absurd (not-In_nil (subst (In r) (matched-rest_self o.owner e rs same) o.owned))
    | inr other ↦ record {
      owner = o.owner;
      chain = chain_after e rs inside more o.chain;
      inside = o.inside;
      owned = subst (In r) (matched-rest o.owner e rs other) o.owned;
    }
  ]

  -- the chain before a round is the name of the round, or in the chain after it
  chain_before :
      (e : String) (rs : List Rr)
      → {n : String} → Chain d zone rs e n
      → (equal_fold n e ≡ true)
        ⊎ ((next_name (matched e rs) == "") ≡ false)
          × Chain d zone (rest e rs) (next_name (matched e rs)) n
  chain_before e rs {n} (start q) = inl (rw q (equal_fold_refl e))
  chain_before e rs {n} (chase {m = m} c z q k) = elim (Bool-cases (equal_fold m e)) [
    | inl same ↦
        let q' : next_name (matched e rs) ≡ n = rw (matched_fold m e rs same) at q in
        inr (rw q' k, start (sym q'))
    | inr other ↦ elim (chain_before e rs c) [
      | inl same ↦ absurd (cc)
      | inr (more, c') ↦ inr (more, chase c' z (rw matched-rest q) k)
    ]
  ]

  kept→OnChain :
      {e : String} {rs out : List Rr}
      → Loop d zone e rs out
      → {r : Rr} → In r out
      → OnChain d zone e rs r
  kept→OnChain (outside z q) {r} i = absurd (not-In_nil (subst (In r) q i))
  kept→OnChain (unowned z u q) {r} i = absurd (not-In_nil (subst (In r) q i))
  kept→OnChain {e} {rs} (ended z u q) {r} i = record {
    owner = e;
    chain = start refl;
    inside = z;
    owned = subst (In r) q i;
  }
  kept→OnChain {e} {rs} (onward {out' = out'} z k l q) {r} i =
      elim (In-append (matched e rs) out' (subst (In r) q i)) [
        | inl j ↦ record { owner = e; chain = start refl; inside = z; owned = j }
        | inr j ↦ OnChain-after e rs z k (kept→OnChain l j)
      ]

  -- where the loop stops at once, only the first name is on the chain
  chain_outside :
      {e : String} {rs : List Rr} {n : String}
      → d.is_sub_domain zone e ≡ false
      → Chain d zone rs e n
      → d.is_sub_domain zone n ≡ true
      → ⊥
  chain_outside out (start q) z = cc
  chain_outside out (chase c z q k) _ = chain_outside out c z

  OnChain→kept :
      {e : String} {rs out : List Rr}
      → Loop d zone e rs out
      → {r : Rr} → OnChain d zone e rs r
      → In r out
  OnChain→kept (outside z q) o = absurd (chain_outside z o.chain o.inside)
  OnChain→kept {e} {rs} (unowned z u q) {r} o = elim (chain_before e rs o.chain) [
    | inl same ↦ absurd (not-In_empty u (subst (In r) (matched_fold o.owner e rs same) o.owned))
    | inr (more, c) ↦ absurd (next_of_empty (matched e rs) u more)
  ]
  OnChain→kept {e} {rs} (ended z u q) {r} o = elim (chain_before e rs o.chain) [
    | inl same ↦ rw (q, ← matched_fold o.owner e rs same) o.owned
    | inr (more, c) ↦ absurd (cc)
  ]
  OnChain→kept {e} {rs} (onward {out' = out'} z k l q) {r} o =
      elim (Bool-cases (equal_fold o.owner e)) [
        | inl same ↦ rw q (
            In-append_left (matched e rs) out'
              (subst (In r) (matched_fold o.owner e rs same) o.owned))
        | inr other ↦ elim (chain_before e rs o.chain) [
          | inl same ↦ absurd (cc)
          | inr (more, c) ↦ rw q (
              In-append_right (matched e rs) out' (
                OnChain→kept l (record {
                  owner = o.owner;
                  chain = c;
                  inside = o.inside;
                  owned = rw (matched-rest o.owner e rs other) o.owned;
                })))
        ]
      ]

  -- A record of the answer section is kept exactly if a name of the CNAME chain from the
  -- question, itself at or below the zone, owns it, however the section orders its records.
  pub mem-filter_answer :
      (name : String) (answer : List Rr) (r : Rr)
      → In r (filter_answer d zone name answer) ↔ OnChain d zone name answer r
  mem-filter_answer name answer r = (
    kept→OnChain (filter_answer-Loop d zone name answer),
    OnChain→kept (filter_answer-Loop d zone name answer),
  )
