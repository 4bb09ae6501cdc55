-- ===== src/Resolver/TraceStore/Pointers.antt =====
-- The index of resolver/trace.go and the elements that it leads to.
use mathlib.Core.Option.{some-injective}
use cursedns.Prelude.Map
use cursedns.Prelude.Map.{lookup-insert, lookup-delete}
use cursedns.Prelude.{
  ℕ, String, false, ◌≡◌, refl, sym, ◌∙◌, subst, ap, inl, inr, some, List, [], ◌∷◌, ◌==◌, nat_eq,
  string_eq, eq_iff, nat_beq_iff, Bool-cases, All, arith,
}
use cursedns.Resolver.TraceStore.{Element, back, remove, find}
use cursedns.Resolver.TraceStore.Lists.{back-All, find-All, remove-All}

-- no two elements share an address
abbrev pub IsApart : List Element → Type 0
IsApart [] = Unit
IsApart (e ∷ l) = All (λ f. (f.address == e.address) ≡ false) l × IsApart l

-- the index leads from an ID to an element of the list with that ID
abbrev pub Points : List Element → Map.Map String ℕ → Type 0
Points l index =
    (id : String) (a : ℕ)
    → Map.lookup id index ≡ some a
    → (e : Element) × (find a l ≡ some e) × (e.id ≡ id)

pub find-address : (a : ℕ) (l : List Element) (e : Element) → find a l ≡ some e → e.address ≡ a
unfolding find
find-address a [] e h = cc
find-address a (x ∷ l) e h = elim (Bool-cases (x.address == a)) [
  | inl same ↦ ground (arith, nat_beq_iff x.address a)
  | inr other ↦ find-address a l e (rw other at h)
]

pub find-remove : (a b : ℕ) (l : List Element) → (a == b) ≡ false → find a (remove b l) ≡ find a l
unfolding find remove
find-remove a b [] h = refl
find-remove a b (x ∷ l) h = ground (arith, find-remove a b l h)

pub remove-IsApart : (a : ℕ) (l : List Element) → IsApart l → IsApart (remove a l)
unfolding remove
remove-IsApart a [] h = tt
remove-IsApart a (e ∷ l) h = elim (Bool-cases (e.address == a)) [
  | inl same ↦ rw same h.1
  | inr other ↦ rw other (remove-All _ a l h.0, remove-IsApart a l h.1)
]

-- what is left differs from what was removed
pub remove-away :
    (a : ℕ) (l : List Element) (e : Element)
    → IsApart l
    → find a l ≡ some e
    → All (λ f. (f.address == e.address) ≡ false) (remove a l)
unfolding find remove
remove-away a [] e h q = cc
remove-away a (x ∷ l) e h q = elim (Bool-cases (x.address == a)) [
  | inl same ↦ rw same (
      subst (λ y. All (λ f. (f.address == y.address) ≡ false) l) (some-injective x e (rw same at q))
        h.0)
  | inr other ↦
      let q' : find a l ≡ some e = rw other at q in
      let placed = find-address a l e q' in
      rw other (
        (ground (arith, nat_beq_iff e.address a, nat_beq_iff x.address e.address)),
        remove-away a l e h.1 q',
      )
]

pub find-back :
    (l : List Element) (o : Element) → IsApart l → back l ≡ some o → find o.address l ≡ some o
unfolding find back
find-back [] o h q = cc
find-back (e ∷ []) o h q = ground arith
find-back (e ∷ f ∷ l) o h q = ground (
  arith,
  find-back (f ∷ l) o h.1 q,
  back-All (λ x. (x.address == e.address) ≡ false) (f ∷ l) o h.0 q,
)

same_found :
    (a b : ℕ) (l : List Element) (e f : Element)
    → find a l ≡ some e
    → find b l ≡ some f
    → a ≡ b
    → e ≡ f
same_found a b l e f h k q = some-injective e f (sym h ∙ ap (λ c. find c l) q ∙ k)

pub insert-Points :
    (el : Element) (l : List Element) (index : Map.Map String ℕ)
    → All (λ e. (e.address == el.address) ≡ false) l
    → Points l index
    → Points (el ∷ l) (Map.insert el.id el.address index)
unfolding find
insert-Points el l index new p j a h = elim (Bool-cases (el.id == j)) [
  | inl same ↦ (
    el,
    ground (arith, lookup-insert el.id j el.address index, nat_beq_iff el.address a),
    (eq_iff el.id j).0 same,
  )
  | inr other ↦
      let (e, hit, named) = p j a (ground (arith, lookup-insert el.id j el.address index)) in
      let away = find-All (λ f. (f.address == el.address) ≡ false) a l e new hit in
      (e, ground (arith, find-address a l e hit), named)
]

pub delete-Points :
    (o : Element) (l : List Element) (index : Map.Map String ℕ)
    → find o.address l ≡ some o
    → Points l index
    → Points (remove o.address l) (Map.delete o.id index)
delete-Points o l index last p j a h = elim (Bool-cases (o.id == j)) [
  | inl same ↦ absurd (ground (arith, lookup-delete o.id j index))
  | inr other ↦
      let (e, hit, named) = p j a (ground (arith, lookup-delete o.id j index)) in
      elim (Bool-cases (a == o.address)) [
        | inl here ↦
            let one = same_found a o.address l e o hit last ((nat_beq_iff a o.address).0 here) in
            absurd (ground (arith, eq_iff o.id j, ap (λ f. f.id) one))
        | inr apart ↦ (e, find-remove a o.address l apart ∙ hit, named)
      ]
]

pub touch-Points :
    (b : ℕ) (e : Element) (l : List Element) (index : Map.Map String ℕ)
    → find b l ≡ some e
    → Points l index
    → Points (e ∷ remove b l) index
unfolding find
touch-Points b e l index hit p j a h =
    let (f, other, named) = p j a h in
    elim (Bool-cases (e.address == a)) [
      | inl same ↦
          let placed = find-address b l e hit in
          let one = same_found a b l f e other hit (ground (arith, nat_beq_iff e.address a)) in
          (e, ground arith, ap (λ g. g.id) (sym one) ∙ named)
      | inr apart ↦
          let placed = find-address b l e hit in
          (f, ground (arith, find-remove a b l, nat_beq_iff e.address a), named)
    ]
