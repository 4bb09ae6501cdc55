-- ===== src/Resolver/TraceStore/Sound.antt =====
-- `TraceStore` of resolver/trace.go under any history of calls, also where an ID is stored twice:
-- the index then holds the newer element only, and evicting the older one takes that entry away.

use cursedns.Prelude.Map
use cursedns.Prelude.Map.{lookup-insert, lookup-delete}
use cursedns.Prelude.{
  ℕ, suc, ◌<◌, ◌≤◌, String, false, true, ◌≡◌, refl, sym, subst, inl, inr, Option, none, some, List,
  [], ◌∷◌, length, ltb, ltb→le, nat_eq, string_eq, Bool-cases, Option-cases, All, All-map, arith,
}
use cursedns.Resolver.TraceStore.{
  Element, TraceRecord, TraceStore, back, remove, find, evict, put, get, Served, found, not_found,
  serve_http,
}
use cursedns.Resolver.TraceStore.Pointers.{
  IsApart, Points, remove-IsApart, find-back, insert-Points, delete-Points, touch-Points,
  remove-away,
}
use cursedns.Resolver.TraceStore.Lists.{find-All, remove-All, length-remove}

-- `P` holds of each element.
module _ (P : Element → Type 0) where
  pub record IsSound (ts : TraceStore) : Type 0 where
    pub bounded : length ts.ll ≤ ts.capacity
    pub apart : IsApart ts.ll
    pub allocated : All (λ e. e.address < ts.unused) ts.ll
    pub labelled : All P ts.ll
    pub pointed : Points ts.ll ts.index

  -- the store before the eviction, where there may be one element too many
  record IsPushed (ts : TraceStore) : Type 0 where
    over : length ts.ll ≤ suc ts.capacity
    apart : IsApart ts.ll
    allocated : All (λ e. e.address < ts.unused) ts.ll
    labelled : All P ts.ll
    pointed : Points ts.ll ts.index

  evict_room : (ts : TraceStore) → ltb ts.capacity (length ts.ll) ≡ false → evict ts ≡ ts
  unfolding evict
  evict_room ts h = rw (h, evict) refl

  evict-none :
      (ts : TraceStore) → ltb ts.capacity (length ts.ll) ≡ true → back ts.ll ≡ none → evict ts ≡ ts
  unfolding evict
  evict-none ts h k = rw (h, k, evict) refl

  evict_oldest :
      (ts : TraceStore) (o : Element)
      → ltb ts.capacity (length ts.ll) ≡ true
      → back ts.ll ≡ some o
      → evict ts ≡ record ts { ll = remove o.address ts.ll; index = Map.delete o.id ts.index }
  unfolding evict
  evict_oldest ts o h k = rw (h, k, evict) refl

  length_of_back-none : (l : List Element) → back l ≡ none → length l ≡ 0
  unfolding back
  length_of_back-none [] h = refl
  length_of_back-none (e ∷ []) h = cc
  length_of_back-none (e ∷ f ∷ l) h = absurd (omega (arith, length_of_back-none (f ∷ l) h))

  evict-IsSound : (ts : TraceStore) → IsPushed ts → IsSound (evict ts)
  evict-IsSound ts p = elim (Bool-cases (ltb ts.capacity (length ts.ll))) [
    | inr room ↦ rw (evict_room ts room) (record {
      bounded = ltb→le _ _ room;
      apart = p.apart;
      allocated = p.allocated;
      labelled = p.labelled;
      pointed = p.pointed;
    })
    | inl full ↦ elim (Option-cases (back ts.ll)) [
      | inl empty ↦ absurd (ground (arith, length_of_back-none ts.ll empty))
      | inr (o, last) ↦
          let hit = find-back ts.ll o p.apart last in
          rw (evict_oldest ts o full last) (record {
            bounded = omega (arith, length-remove o.address o ts.ll hit, p.over);
            apart = remove-IsApart o.address ts.ll p.apart;
            allocated = remove-All _ o.address ts.ll p.allocated;
            labelled = remove-All _ o.address ts.ll p.labelled;
            pointed = delete-Points o ts.ll ts.index hit p.pointed;
          })
    ]
  ]

  pub put-IsSound :
      (now : ℕ) (id : String) (entry : TraceRecord) (ts : TraceStore)
      → P (record {
        address = ts.unused;
        id = id;
        entry = record entry { id = id; created_at = now };
      })
      → IsSound ts
      → IsSound (put now id entry ts)
  unfolding put
  put-IsSound now id entry ts new_one v =
      let new = All-map (λ e. e.address < ts.unused) _ ts.ll (λ e h. ground arith) v.allocated in
      evict-IsSound _ (record {
        over = omega (arith, v.bounded);
        apart = (new, v.apart);
        allocated = (
          omega arith,
          All-map (λ e. e.address < ts.unused) _ ts.ll (λ e h. omega arith) v.allocated,
        );
        labelled = (new_one, v.labelled);
        pointed =
            insert-Points
              (record {
                address = ts.unused;
                id = id;
                entry = record entry { id = id; created_at = now };
              })
              ts.ll ts.index new v.pointed;
      })

  -- what `Get` did: nothing, or an element with the ID was found and moved
  abbrev GetResult : String → TraceStore → Option TraceRecord × TraceStore → Type 0
  GetResult id ts (none, ts') = ts' ≡ ts
  GetResult id ts (some r, ts') =
      (a : ℕ) × (e : Element) × (find a ts.ll ≡ some e)
      × (e.id ≡ id)
      × (r ≡ e.entry)
      × (ts' ≡ record ts { ll = e ∷ remove a ts.ll })

  get-GetResult : (id : String) (ts : TraceStore) → IsSound ts → GetResult id ts (get id ts)
  unfolding get
  get-GetResult id ts v = elim (Option-cases (Map.lookup id ts.index)) [
    | inl miss ↦ rw (miss, get) refl
    | inr (a, hit) ↦
        let (e, there, named) = v.pointed id a hit in
        rw (hit, there, get) (a, e, there, named, refl, refl)
  ]

  GetResult-IsSound :
      (id : String) (ts : TraceStore) (g : Option TraceRecord × TraceStore)
      → IsSound ts
      → GetResult id ts g
      → IsSound g.1
  GetResult-IsSound id ts (none, ts') v same = subst IsSound (sym same) v
  GetResult-IsSound id ts (some r, ts') v (a, e, there, named, is, moved) =
      subst IsSound (sym moved) (record {
        bounded = omega (arith, length-remove a e ts.ll there, v.bounded);
        apart = (remove-away a ts.ll e v.apart there, remove-IsApart a ts.ll v.apart);
        allocated = (
          find-All (λ f. f.address < ts.unused) a ts.ll e v.allocated there,
          remove-All _ a ts.ll v.allocated,
        );
        labelled = (find-All P a ts.ll e v.labelled there, remove-All _ a ts.ll v.labelled);
        pointed = touch-Points a e ts.ll ts.index there v.pointed;
      })

  -- what a client is served is in an element of the ID that it asked for
  abbrev pub IsOwn : String → Served → Type 0
  IsOwn id not_found = Unit
  IsOwn id (found r) = (e : Element) × (e.id ≡ id) × (r ≡ e.entry) × P e

  GetResult-IsOwn :
      (id : String) (ts : TraceStore) (r : TraceRecord) (ts' : TraceStore)
      → IsSound ts
      → GetResult id ts (some r, ts')
      → IsOwn id (found r)
  GetResult-IsOwn id ts r ts' v (a, e, there, named, is, moved) =
      (e, named, is, find-All P a ts.ll e v.labelled there)

  -- the two results of `ServeHTTP`
  pub serve_http-IsSound :
      (id : String) (ts : TraceStore)
      → IsSound ts
      → IsSound (serve_http id ts).1 × IsOwn id (serve_http id ts).0
  unfolding serve_http
  serve_http-IsSound id ts v =
      let kept = GetResult-IsSound id ts (get id ts) v (get-GetResult id ts v) in
      elim (Option-cases (get id ts).0) [
        | inl miss ↦ rw (miss, serve_http) (kept, tt)
        | inr (r, hit) ↦
            rw (hit, serve_http)
              (
                kept,
                GetResult-IsOwn id ts r (get id ts).1 v
                    (subst (λ o. GetResult id ts (o, (get id ts).1)) hit (get-GetResult id ts v)),
              )
      ]
