-- ===== src/Resolver/TraceStore/Http.antt =====
-- `ServeHTTP` of resolver/trace.go: what a client reads under an ID after `Put`.
use cursedns.Prelude.Map
use cursedns.Prelude.{
  ℕ, zero, suc, ◌<◌, String, ◌≡◌, refl, ◌∙◌, ap, none, some, List, ◌∷◌, take, arith, string_eq,
  eq_iff,
}
use cursedns.Resolver.TraceStore.{TraceRecord, TraceStore, put, get, serve_http, found}
use cursedns.Resolver.TraceStore.Lists.{view}
use cursedns.Resolver.TraceStore.Lru.{IsValid, stamped, put-view}
use cursedns.Resolver.TraceStore.Reads.{get-view}

-- the newest record is found while there is room for one
lookup-take :
    (id : String) (entry : TraceRecord) (n : ℕ) (m : List (String × TraceRecord))
    → 0 < n
    → Map.lookup id (take n ((id, entry) ∷ m)) ≡ some entry
unfolding Map.lookup take
lookup-take id entry zero m h = absurd (omega arith)
lookup-take id entry (suc n) m h = ground (arith, eq_iff id id)

serve_http-hit :
    (id : String) (ts : TraceStore) (entry : TraceRecord)
    → (get id ts).0 ≡ some entry
    → (serve_http id ts).0 ≡ found entry
unfolding serve_http
serve_http-hit id ts entry h = rw (h, serve_http) refl

-- A record that was put under a new ID is served under that ID, stamped with the ID and the time.
pub serve_http-put :
    (now : ℕ) (id : String) (entry : TraceRecord) (ts : TraceStore)
    → IsValid ts
    → Map.lookup id (view ts.ll) ≡ none
    → (serve_http id (put now id entry ts)).0 ≡ found (stamped now id entry)
serve_http-put now id entry ts v new =
    let (valid, seen) = put-view now id entry ts v new in
    let (_, hit, _) = get-view id (put now id entry ts) valid in
    serve_http-hit id (put now id entry ts) (stamped now id entry) (
      hit
      ∙ ap (Map.lookup id) seen
      ∙ lookup-take id (stamped now id entry) ts.capacity (view ts.ll) v.positive)
