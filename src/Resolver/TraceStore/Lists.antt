-- ===== src/Resolver/TraceStore/Lists.antt =====
-- The linked list of resolver/trace.go: removal by address, and the last element.
use mathlib.Core.Option.{some-injective}
use cursedns.Prelude.Map
use cursedns.Prelude.{
  subst, ℕ, suc, String, false, ◌≡◌, refl, ap, inl, inr, Option, none, some, List, [], ◌∷◌, map,
  length, ◌==◌, nat_eq, string_eq, eq_iff, if◌then◌else◌, Bool-cases, All, All-map, arith,
}
use cursedns.Resolver.TraceStore.{Element, TraceRecord, back, remove, find}

-- the list without its last element
unfoldable pub init : List Element → List Element
init [] = []
init (e ∷ []) = []
init (e ∷ f ∷ l) = e ∷ init (f ∷ l)

-- the address of the first element with the ID
unfoldable pub address_of_id : String → List Element → Option ℕ
address_of_id id [] = none
address_of_id id (e ∷ l) = if e.id == id then some e.address else address_of_id id l

-- no two elements share an ID or an address
abbrev pub IsDistinct : List Element → Type 0
IsDistinct [] = Unit
IsDistinct (e ∷ l) =
    All (λ f. ((f.id == e.id) ≡ false) × ((f.address == e.address) ≡ false)) l × IsDistinct l

-- the records by ID, as a client sees them
abbrev pub view : List Element → List (String × TraceRecord)
view = map (λ e. (e.id, e.entry))

pub back-All :
    (P : Element → Type 0) (l : List Element) (o : Element) → All P l → back l ≡ some o → P o
unfolding back
back-All P [] o h q = cc
back-All P (e ∷ []) o h q = subst P (some-injective e o q) h.0
back-All P (e ∷ f ∷ l) o h q = back-All P (f ∷ l) o h.1 q

pub remove-back :
    (l : List Element) (o : Element) → IsDistinct l → back l ≡ some o → remove o.address l ≡ init l
unfolding remove back init
remove-back [] o d q = refl
remove-back (e ∷ []) o d q = ground arith
remove-back (e ∷ f ∷ l) o d q = ground (
  arith,
  remove-back (f ∷ l) o d.1 q,
  back-All (λ x. ((x.id == e.id) ≡ false) × ((x.address == e.address) ≡ false)) (f ∷ l) o d.0 q,
)

pub address_of_id-init :
    (id : String) (l : List Element) (o : Element)
    → IsDistinct l
    → back l ≡ some o
    → address_of_id id (init l) ≡ (if o.id == id then none else address_of_id id l)
unfolding address_of_id back init
address_of_id-init id [] o d q = cc
address_of_id-init id (e ∷ []) o d q = ground arith
address_of_id-init id (e ∷ f ∷ l) o d q = ground (
  arith,
  address_of_id-init id (f ∷ l) o d.1 q,
  eq_iff o.id id,
  eq_iff e.id id,
  eq_iff o.id e.id,
  back-All (λ x. ((x.id == e.id) ≡ false) × ((x.address == e.address) ≡ false)) (f ∷ l) o d.0 q,
)

pub init-All : (P : Element → Type 0) (l : List Element) → All P l → All P (init l)
unfolding init
init-All P [] h = tt
init-All P (e ∷ []) h = tt
init-All P (e ∷ f ∷ l) h = (h.0, init-All P (f ∷ l) h.1)

pub init-IsDistinct : (l : List Element) → IsDistinct l → IsDistinct (init l)
unfolding init
init-IsDistinct [] d = tt
init-IsDistinct (e ∷ []) d = tt
init-IsDistinct (e ∷ f ∷ l) d = (init-All _ (f ∷ l) d.0, init-IsDistinct (f ∷ l) d.1)

pub length-init : (e : Element) (l : List Element) → length (init (e ∷ l)) ≡ length l
unfolding init
length-init e [] = refl
length-init e (f ∷ l) = ap suc (length-init f l)

pub find-All :
    (P : Element → Type 0) (a : ℕ) (l : List Element) (o : Element)
    → All P l
    → find a l ≡ some o
    → P o
unfolding find
find-All P a [] o h q = cc
find-All P a (e ∷ l) o h q = elim (Bool-cases (e.address == a)) [
  | inl same ↦ subst P (some-injective e o (rw same at q)) h.0
  | inr other ↦ find-All P a l o h.1 (rw other at q)
]

pub delete_absent :
    (id : String) (l : List Element)
    → All (λ f. (f.id == id) ≡ false) l
    → Map.delete id (view l) ≡ view l
unfolding Map.delete
delete_absent id [] h = refl
delete_absent id (f ∷ l) h = ground (arith, delete_absent id l h.1)

-- what is found under an ID
pub find-address_of_id :
    (id : String) (a : ℕ) (l : List Element)
    → IsDistinct l
    → address_of_id id l ≡ some a
    → (e : Element) × (find a l ≡ some e)
      × (e.id ≡ id)
      × (e.address ≡ a)
      × (Map.lookup id (view l) ≡ some e.entry)
      × (view (remove a l) ≡ Map.delete id (view l))
unfolding address_of_id find remove Map.lookup Map.delete
find-address_of_id id a [] d q = cc
find-address_of_id id a (e ∷ l) d q = elim (Bool-cases (e.id == id)) [
  | inl same ↦ (
    e,
    ground arith,
    (eq_iff e.id id).0 same,
    ground arith,
    ground arith,
    ground (arith, delete_absent e.id l (All-map _ _ l (λ f h. h.0) d.0), (eq_iff e.id id).0 same),
  )
  | inr other ↦
      let (x, found, named, placed, seen, gone) = find-address_of_id id a l d.1 (rw other at q) in
      let apart =
        find-All (λ f. ((f.id == e.id) ≡ false) × ((f.address == e.address) ≡ false)) a l x d.0
          found in
      (x, ground arith, named, placed, ground arith, ground arith)
]

pub remove-All : (P : Element → Type 0) (a : ℕ) (l : List Element) → All P l → All P (remove a l)
unfolding remove
remove-All P a [] h = tt
remove-All P a (e ∷ l) h = elim (Bool-cases (e.address == a)) [
  | inl same ↦ rw same h.1
  | inr other ↦ rw other (h.0, remove-All P a l h.1)
]

pub length-remove :
    (a : ℕ) (e : Element) (l : List Element)
    → find a l ≡ some e
    → suc (length (remove a l)) ≡ length l
unfolding find remove
length-remove a e [] q = cc
length-remove a e (x ∷ l) q = ground (arith, length-remove a e l)
