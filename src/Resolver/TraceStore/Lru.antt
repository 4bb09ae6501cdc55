-- ===== src/Resolver/TraceStore/Lru.antt =====
-- resolver/trace.go as a least-recently-used store: the first `capacity` records by recency.

use cursedns.Prelude.Map
use cursedns.Prelude.Map.{Map, lookup-insert, lookup-delete}
use cursedns.Prelude.{
  ℕ, suc, ◌≤◌, ◌<◌, String, true, false, ◌≡◌, refl, ap, inl, inr, none, some, List, [], ◌∷◌, length,
  sym, ltb→le, take, take_of_length-le, ltb, ◌==◌, nat_eq, string_eq, Bool-cases, All, All-map,
  All-zip, arith,
}
use cursedns.Resolver.TraceStore.{Element, TraceRecord, TraceStore, back, evict, put}
use cursedns.Resolver.TraceStore.Lists.{
  init, address_of_id, IsDistinct, view, remove-back, address_of_id-init, init-All, init-IsDistinct,
  length-init,
}

-- The list and the index agree, no ID or address occurs twice, and there is room for one record.
pub record IsValid (ts : TraceStore) : Type 0 where
  pub positive : 0 < ts.capacity
  pub bounded : length ts.ll ≤ ts.capacity
  pub distinct : IsDistinct ts.ll
  pub indexed : (id : String) → Map.lookup id ts.index ≡ address_of_id id ts.ll
  pub allocated : All (λ e. e.address < ts.unused) ts.ll
  pub labelled : All (λ e. e.entry.id ≡ e.id) ts.ll

-- the record as `Put` stores it
abbrev pub stamped : ℕ → String → TraceRecord → TraceRecord
stamped now id entry = record entry { id = id; created_at = now }

-- the last element exists
back-cons : (e : Element) (l : List Element) → (o : Element) × (back (e ∷ l) ≡ some o)
unfolding back
back-cons e [] = (e, refl)
back-cons e (f ∷ l) = back-cons f l

view-init : (e : Element) (l : List Element) → view (init (e ∷ l)) ≡ take (length l) (view (e ∷ l))
unfolding init take
view-init e [] = refl
view-init e (f ∷ l) = ap (◌∷◌ (e.id, e.entry)) (view-init f l)

length-view : (l : List Element) → length (view l) ≡ length l
length-view [] = refl
length-view (e ∷ l) = ap suc (length-view l)

-- an ID that is not found is no element's
absent-All :
    (id : String) (l : List Element)
    → Map.lookup id (view l) ≡ none
    → All (λ f. (f.id == id) ≡ false) l
unfolding Map.lookup
absent-All id [] h = tt
absent-All id (e ∷ l) h = elim (Bool-cases (e.id == id)) [
  | inl same ↦ absurd (ground arith)
  | inr other ↦ (other, absent-All id l (rw other at h))
]

module _ (now : ℕ) (id : String) (entry : TraceRecord) (ts : TraceStore) (v : IsValid ts)
    (new : Map.lookup id (view ts.ll) ≡ none) where
  abbrev el : Element
  el = record { address = ts.unused; id = id; entry = stamped now id entry }

  -- the state before the eviction
  abbrev grown : TraceStore
  grown = record ts {
    ll = el ∷ ts.ll;
    index = Map.insert id ts.unused ts.index;
    unused = suc ts.unused;
  }

  put-grown : put now id entry ts ≡ evict grown
  unfolding put
  put-grown = refl

  grown-IsDistinct : IsDistinct (el ∷ ts.ll)
  grown-IsDistinct = (
    All-zip (λ f. (f.id == id) ≡ false) (λ f. f.address < ts.unused) _ ts.ll
        (λ f other earlier. (other, ground arith)) (absent-All id ts.ll new) v.allocated,
    v.distinct,
  )

  grown_indexed : (j : String) → Map.lookup j grown.index ≡ address_of_id j (el ∷ ts.ll)
  unfolding address_of_id
  grown_indexed j = ground (arith, lookup-insert id j ts.unused ts.index, v.indexed j)

  grown_allocated : All (λ e. e.address < suc ts.unused) (el ∷ ts.ll)
  grown_allocated =
      (omega arith, All-map (λ e. e.address < ts.unused) _ ts.ll (λ e h. omega arith) v.allocated)

  evicted : Element → TraceStore
  evicted o = record grown { ll = init (el ∷ ts.ll); index = Map.delete o.id grown.index }

  evict-full :
      (o : Element)
      → back (el ∷ ts.ll) ≡ some o
      → ltb ts.capacity (length (el ∷ ts.ll)) ≡ true
      → evict grown ≡ evicted o
  unfolding evict evicted
  evict-full o last full = rw (full, last) (rw (remove-back (el ∷ ts.ll) o grown-IsDistinct last))

  evict-room : ltb ts.capacity (length (el ∷ ts.ll)) ≡ false → evict grown ≡ grown
  unfolding evict
  evict-room room = rw room

  evicted-IsValid : (o : Element) → back (el ∷ ts.ll) ≡ some o → IsValid (evicted o)
  unfolding evicted
  evicted-IsValid o last = record {
    positive = v.positive;
    bounded = omega (arith, length-init el ts.ll, v.bounded);
    distinct = init-IsDistinct (el ∷ ts.ll) grown-IsDistinct;
    indexed = λ j. ground (
      arith,
      lookup-delete o.id j grown.index,
      address_of_id-init j (el ∷ ts.ll) o grown-IsDistinct last,
      grown_indexed j,
    );
    allocated = init-All (λ e. e.address < suc ts.unused) (el ∷ ts.ll) grown_allocated;
    labelled = init-All (λ e. e.entry.id ≡ e.id) (el ∷ ts.ll) (refl, v.labelled);
  }

  grown-IsValid : length (el ∷ ts.ll) ≤ ts.capacity → IsValid grown
  grown-IsValid room = record {
    positive = v.positive;
    bounded = room;
    distinct = grown-IsDistinct;
    indexed = grown_indexed;
    allocated = grown_allocated;
    labelled = (refl, v.labelled);
  }

  -- Storing under a new ID keeps the invariant, and leaves the new record, stamped with its ID and
  -- the time, in front of the others, of which the least recently used is dropped if there were
  -- `capacity` records.
  pub put-view :
      IsValid (put now id entry ts)
      × (view (put now id entry ts).ll ≡ take ts.capacity ((id, stamped now id entry) ∷ view ts.ll))
  unfolding put evicted
  put-view = elim (Bool-cases (ltb ts.capacity (length (el ∷ ts.ll)))) [
    | inl full ↦
        let (o, last) = back-cons el ts.ll in
        let size : length ts.ll ≡ ts.capacity = ground (arith, v.bounded) in
        rw (evict-full o last full) (evicted-IsValid o last, rw (← size) (view-init el ts.ll))
    | inr room ↦ rw (evict-room room) (
      grown-IsValid (ltb→le _ _ room),
      sym (
          take_of_length-le ts.capacity ((id, stamped now id entry) ∷ view ts.ll)
            (omega (arith, length-view ts.ll, ltb→le _ _ room))),
    )
  ]
