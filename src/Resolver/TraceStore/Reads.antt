-- ===== src/Resolver/TraceStore/Reads.antt =====
-- `Get` of resolver/trace.go on the least-recently-used order.
use mathlib.Core.Option.{some-injective}
use mathlib.Core.Path.{ap₂}
use cursedns.Prelude.Map
use cursedns.Prelude.Map.{Map, lookup-insert, lookup-delete}
use cursedns.Prelude.{
  ℕ, ◌<◌, String, false, ◌≡◌, refl, inl, inr, none, some, List, [], ◌∷◌, sym, ◌∙◌, subst, ◌==◌,
  nat_eq, string_eq, eq_iff, Bool-cases, Option-cases, All, arith,
}
use cursedns.Resolver.TraceStore.{Element, TraceRecord, TraceStore, remove, find, get}
use cursedns.Resolver.TraceStore.Lists.{
  address_of_id, IsDistinct, view, remove-All, length-remove, find-All, find-address_of_id,
}
use cursedns.Resolver.TraceStore.Lru.{IsValid}

-- another ID and another address
abbrev Apart : Element → Element → Type 0
Apart e f = ((f.id == e.id) ≡ false) × ((f.address == e.address) ≡ false)

-- moving an element to the front
module _ (a : ℕ) (e : Element) where
  remove-IsDistinct : (l : List Element) → IsDistinct l → IsDistinct (remove a l)
  unfolding remove
  remove-IsDistinct [] d = tt
  remove-IsDistinct (x ∷ l) d = elim (Bool-cases (x.address == a)) [
    | inl same ↦ rw same d.1
    | inr other ↦ rw other (remove-All _ a l d.0, remove-IsDistinct l d.1)
  ]

  -- what is left differs from what was removed
  remove-Apart : (l : List Element) → IsDistinct l → find a l ≡ some e → All (Apart e) (remove a l)
  unfolding find remove
  remove-Apart [] d q = cc
  remove-Apart (x ∷ l) d q = elim (Bool-cases (x.address == a)) [
    | inl same ↦ rw same (subst (λ y. All (Apart y) l) (some-injective x e (rw same at q)) d.0)
    | inr other ↦
        let q' : find a l ≡ some e = rw other at q in
        let (named, placed) = find-All (Apart x) a l e d.0 q' in
        rw other (
          (ground (arith, eq_iff x.id e.id, eq_iff e.id x.id), ground arith),
          remove-Apart l d.1 q',
        )
  ]

  address_of_id-touch :
      (j : String) (l : List Element)
      → IsDistinct l
      → find a l ≡ some e
      → address_of_id j (e ∷ remove a l) ≡ address_of_id j l
  unfolding address_of_id find remove
  address_of_id-touch j [] d q = cc
  address_of_id-touch j (x ∷ l) d q = elim (Bool-cases (x.address == a)) [
    | inl same ↦ let here = some-injective x e (rw same at q) in rw same (rw here)
    | inr other ↦
        let q' : find a l ≡ some e = rw other at q in
        let (named, placed) = find-All (Apart x) a l e d.0 q' in
        ground
          (arith, address_of_id-touch j l d.1 q', eq_iff x.id j, eq_iff e.id j, eq_iff e.id x.id)
  ]

-- the list after a read: the record that is asked for first
abbrev pub touch : String → Map String TraceRecord → Map String TraceRecord
touch id m = elim (Map.lookup id m) [ none ↦ m | some entry ↦ (id, entry) ∷ Map.delete id m ]

touch_miss : (id : String) (m : Map String TraceRecord) → Map.lookup id m ≡ none → touch id m ≡ m
touch_miss id m h = rw (h, touch)

touch_hit :
    (id : String) (m : Map String TraceRecord) (entry : TraceRecord)
    → Map.lookup id m ≡ some entry
    → touch id m ≡ (id, entry) ∷ Map.delete id m
touch_hit id m entry h = rw (h, touch)

address_of_id-none :
    (id : String) (l : List Element) → address_of_id id l ≡ none → Map.lookup id (view l) ≡ none
unfolding address_of_id Map.lookup
address_of_id-none id [] h = refl
address_of_id-none id (e ∷ l) h = ground (arith, address_of_id-none id l)

module _ (id : String) (ts : TraceStore) (v : IsValid ts) where
  -- the two branches
  get_miss : Map.lookup id ts.index ≡ none → get id ts ≡ (none, ts)
  unfolding get
  get_miss h = rw (h, get)

  get_hit :
      (a : ℕ) (e : Element)
      → Map.lookup id ts.index ≡ some a
      → find a ts.ll ≡ some e
      → get id ts ≡ (some e.entry, record ts { ll = e ∷ remove a ts.ll })
  unfolding get
  get_hit a e h k = rw (h, k, get)

  -- A read keeps the invariant, returns the record stored under the ID if the store holds one, and
  -- moves it to the front of the list; a miss changes nothing.
  pub get-view :
      IsValid (get id ts).1
      × ((get id ts).0 ≡ Map.lookup id (view ts.ll))
      × (view (get id ts).1.ll ≡ touch id (view ts.ll))
  get-view = elim (Option-cases (address_of_id id ts.ll)) [
    | inl miss ↦
        let absent = address_of_id-none id ts.ll miss in
        rw (get_miss (v.indexed id ∙ miss)) (v, sym absent, sym (touch_miss id (view ts.ll) absent))
    | inr (a, hit) ↦
        let (e, found, named, placed, seen, gone) = find-address_of_id id a ts.ll v.distinct hit in
        rw (get_hit a e (v.indexed id ∙ hit) found) (
          record {
            positive = v.positive;
            bounded = omega (arith, length-remove a e ts.ll found, v.bounded);
            distinct =
                (remove-Apart a e ts.ll v.distinct found, remove-IsDistinct a e ts.ll v.distinct);
            indexed = λ j. v.indexed j ∙ sym (address_of_id-touch a e j ts.ll v.distinct found);
            allocated = (
              find-All (λ f. f.address < ts.unused) a ts.ll e v.allocated found,
              remove-All (λ f. f.address < ts.unused) a ts.ll v.allocated,
            );
            labelled = (
              find-All (λ f. f.entry.id ≡ f.id) a ts.ll e v.labelled found,
              remove-All (λ f. f.entry.id ≡ f.id) a ts.ll v.labelled,
            );
          },
          sym seen,
          ap₂ (λ n m. (n, e.entry) ∷ m) named gone ∙ sym (touch_hit id (view ts.ll) e.entry seen),
        )
  ]
