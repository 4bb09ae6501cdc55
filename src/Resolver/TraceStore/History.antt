-- ===== src/Resolver/TraceStore/History.antt =====
-- `TraceStore` of resolver/trace.go from its making on, under any sequence of calls.
use cursedns.Prelude.Map
use cursedns.Prelude.{
  ℕ, ◌≤◌, String, ◌≡◌, refl, ◌∙◌, subst, inl, inr, List, [], ◌∷◌, length, ltb, string_eq, suc,
  Bool-cases, Option-cases, arith, In, All, All-In,
}
use cursedns.Resolver.TraceStore.{
  Element, TraceRecord, TraceStore, new_trace_store, back, find, evict, put, get, Served, found,
  not_found, serve_http,
}
use cursedns.Resolver.TraceStore.Sound.{IsSound, IsOwn, put-IsSound, serve_http-IsSound}

-- A call of the store: `Put` at a time, or `ServeHTTP`.
pub data Call : Type 0 where
  store : ℕ → String → TraceRecord → Call
  serve : String → Call

unfoldable pub run_calls : List Call → TraceStore → TraceStore
run_calls [] ts = ts
run_calls (store now id entry ∷ calls) ts = run_calls calls (put now id entry ts)
run_calls (serve id ∷ calls) ts = run_calls calls (serve_http id ts).1

-- the record that a call stores
abbrev pub stored : ℕ → String → TraceRecord → TraceRecord
stored now id entry = record entry { id = id; created_at = now }

-- the element is of one of the calls
abbrev IsStored : List Call → Element → Type 0
IsStored all e =
    (now : ℕ) × (entry : TraceRecord) × In (store now e.id entry) all
    × (e.entry ≡ stored now e.id entry)

-- what is served under an ID is not there, or is what one of the calls stored under it
abbrev pub IsServed : List Call → String → Served → Type 0
IsServed all id not_found = Unit
IsServed all id (found r) =
    (now : ℕ) × (entry : TraceRecord) × In (store now id entry) all × (r ≡ stored now id entry)

IsOwn-IsServed :
    (all : List Call) (id : String) (r : Served) → IsOwn (IsStored all) id r → IsServed all id r
IsOwn-IsServed all id not_found own = tt
IsOwn-IsServed all id (found r) (e, named, same, (now, entry, i, is)) =
    subst (λ name. (t : ℕ) × (x : TraceRecord) × In (store t name x) all × (r ≡ stored t name x))
      named (now, entry, i, same ∙ is)

-- `calls` are some of all that there are
run_calls-IsSound :
    (all calls : List Call) (ts : TraceStore)
    → All (λ c. In c all) calls
    → IsSound (IsStored all) ts
    → IsSound (IsStored all) (run_calls calls ts)
unfolding run_calls
run_calls-IsSound all [] ts a v = v
run_calls-IsSound all (store now id entry ∷ calls) ts (i, a) v =
    run_calls-IsSound all calls _ a
      (put-IsSound (IsStored all) now id entry ts (now, entry, i, refl) v)
run_calls-IsSound all (serve id ∷ calls) ts (i, a) v =
    run_calls-IsSound all calls _ a (serve_http-IsSound (IsStored all) id ts v).0

new_trace_store-IsSound :
    (P : Element → Type 0) (capacity : ℕ) → IsSound P (new_trace_store capacity)
unfolding new_trace_store Map.lookup
new_trace_store-IsSound P capacity = record {
  bounded = omega arith;
  apart = tt;
  allocated = tt;
  labelled = tt;
  pointed = λ id a h. cc;
}

evict-capacity : (ts : TraceStore) → (evict ts).capacity ≡ ts.capacity
unfolding evict
evict-capacity ts = elim (Bool-cases (ltb ts.capacity (length ts.ll))) [
  | inr fits ↦ rw (fits, evict) refl
  | inl over ↦ elim (Option-cases (back ts.ll)) [
    | inl nothing ↦ rw (over, evict, nothing) refl
    | inr (e, last) ↦ rw (over, evict, last) refl
  ]
]

put-capacity :
    (now : ℕ) (id : String) (entry : TraceRecord) (ts : TraceStore)
    → (put now id entry ts).capacity ≡ ts.capacity
unfolding put
put-capacity now id entry ts =
    let el : Element = record {
      address = ts.unused;
      id = id;
      entry = record entry { id = id; created_at = now };
    } in
    evict-capacity (record ts {
      ll = el ∷ ts.ll;
      index = Map.insert id ts.unused ts.index;
      unused = suc ts.unused;
    })

get-capacity : (id : String) (ts : TraceStore) → (get id ts).1.capacity ≡ ts.capacity
unfolding get
get-capacity id ts = elim (Option-cases (Map.lookup id ts.index)) [
  | inl miss ↦ rw (miss, get) refl
  | inr (a, hit) ↦ elim (Option-cases (find a ts.ll)) [
    | inl gone ↦ rw (hit, get, gone) refl
    | inr (e, there) ↦ rw (hit, get, there) refl
  ]
]

serve_http-capacity : (id : String) (ts : TraceStore) → (serve_http id ts).1.capacity ≡ ts.capacity
unfolding serve_http
serve_http-capacity id ts = elim (Option-cases (get id ts).0) [
  | inl miss ↦ rw (miss, serve_http) (get-capacity id ts)
  | inr (r, hit) ↦ rw (hit, serve_http) (get-capacity id ts)
]

run_calls-capacity :
    (calls : List Call) (ts : TraceStore) → (run_calls calls ts).capacity ≡ ts.capacity
unfolding run_calls
run_calls-capacity [] ts = refl
run_calls-capacity (store now id entry ∷ calls) ts =
    run_calls-capacity calls _ ∙ put-capacity now id entry ts
run_calls-capacity (serve id ∷ calls) ts = run_calls-capacity calls _ ∙ serve_http-capacity id ts

-- However a store was used since it was made, with IDs stored twice and of any capacity, it holds no
-- more records than its capacity, and what a client is served under an ID, if anything, is a record
-- that was stored under this ID, with this ID and the time of that call in it.
pub run_calls-IsServed :
    (capacity : ℕ) (calls : List Call) (id : String)
    → let ts = run_calls calls (new_trace_store capacity) in
      (length ts.ll ≤ capacity) × IsServed calls id (serve_http id ts).0
unfolding new_trace_store
run_calls-IsServed capacity calls id =
    let v =
      run_calls-IsSound calls calls _ (All-In (λ c. In c calls) calls (λ c i. i))
        (new_trace_store-IsSound (IsStored calls) capacity) in
    (
      subst (λ n. length (run_calls calls (new_trace_store capacity)).ll ≤ n)
          (run_calls-capacity calls (new_trace_store capacity)) v.bounded,
      IsOwn-IsServed calls id _ (serve_http-IsSound (IsStored calls) id _ v).1,
    )
