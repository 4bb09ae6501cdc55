-- ===== src/Resolver/TraceStore.antt =====
-- `TraceStore` of resolver/trace.go. An element of the linked list is known by its address, which
-- the index holds; the list runs from front to back.
pub mod Lists
pub mod Lru
pub mod Reads
pub mod Http
pub mod Pointers
pub mod Sound
pub mod History
pub mod Ids
use cursedns.Prelude.{
  ℕ, suc, ◌+◌, String, Bool, true, false, Option, none, some, List, [], ◌∷◌, length, ltb, ◌==◌,
  nat_eq, string_eq, if◌then◌else◌,
}
use cursedns.Prelude.Map.{Map, lookup, insert, delete}

pub record TraceRecord : Type 0 where
  pub id : String
  pub name : String
  pub qtype : String
  pub rcode : String
  pub outcome : String
  pub client_addr : String
  pub protocol : String
  pub duration_ms : ℕ
  pub created_at : ℕ
  pub lines : List String

-- `list.Element` with the `traceEntry` that it holds
pub record Element : Type 0 where
  pub address : ℕ
  pub id : String
  pub entry : TraceRecord

-- `unused` is the next address that the allocator gives out
pub record TraceStore : Type 0 where
  pub capacity : ℕ
  pub ll : List Element
  pub index : Map String ℕ
  pub unused : ℕ

-- `NewTraceStore`
unfoldable pub new_trace_store : ℕ → TraceStore
new_trace_store capacity = record { capacity = capacity; ll = []; index = []; unused = 0 }

-- `ll.Back()`
unfoldable pub back : List Element → Option Element
back [] = none
back (e ∷ []) = some e
back (e ∷ f ∷ l) = back (f ∷ l)

-- `ll.Remove(e)`, which finds the element by its links
unfoldable pub remove : ℕ → List Element → List Element
remove a [] = []
remove a (e ∷ l) = let rest = remove a l in if e.address == a then l else e ∷ rest

unfoldable pub find : ℕ → List Element → Option Element
find a [] = none
find a (e ∷ l) = if e.address == a then some e else find a l

-- `if ts.ll.Len() > ts.capacity { … }`
unfoldable pub evict : TraceStore → TraceStore
evict ts =
    if ltb ts.capacity (length ts.ll)
    then elim (back ts.ll) [
      | none ↦ ts
      | some oldest ↦ record ts {
        ll = remove oldest.address ts.ll;
        index = delete oldest.id ts.index;
      }
    ]
    else ts

-- `Put`; `now` is what `time.Now` returns
unfoldable pub put : ℕ → String → TraceRecord → TraceStore → TraceStore
unfolding evict
put now id entry ts =
    let el : Element = record {
      address = ts.unused;
      id = id;
      entry = record entry { id = id; created_at = now };
    } in
    evict
      (record ts { ll = el ∷ ts.ll; index = insert id ts.unused ts.index; unused = suc ts.unused })

-- `Get`
unfoldable pub get : String → TraceStore → Option TraceRecord × TraceStore
get id ts = elim (lookup id ts.index) [
  | none ↦ (none, ts)
  | some a ↦ elim (find a ts.ll) [
    | none ↦ (none, ts)
    | some e ↦ (some e.entry, record ts { ll = e ∷ remove a ts.ll })
  ]
]

-- `ServeHTTP`: the status, and the body of a success before it is encoded
pub data Served : Type 0 where
  found : TraceRecord → Served
  not_found : Served

unfoldable pub serve_http : String → TraceStore → Served × TraceStore
unfolding get
serve_http id ts =
    let (entry, ts') = get id ts in elim entry [ none ↦ (not_found, ts') | some e ↦ (found e, ts') ]
