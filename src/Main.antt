-- ===== src/Main.antt =====
-- `run` of main.go, from the flags to the server: which handler it makes and what it refuses. An
-- `int` flag is its bit pattern.
pub mod Run
pub mod Serving
use cursedns.Prelude.Map
use cursedns.Prelude.{
  ℕ, ◌*◌, ◌%◌, ◌^◌, ◌<◌, String, Bool, true, false, not, ◌&&◌, ◌≡◌, refl, inl, inr, Bool-cases,
  Option, none, some, List, [], ◌∷◌, ltb, ◌==◌, string_eq, if◌then◌else◌, arith,
}
use cursedns.Resolver.Types.{
  Addr, NameServer, Error, invalid_trace_capacity, invalid_static_ipv4, invalid_static_ipv6,
  creating_gemini_client, unknown_handler, Result, ok, err,
}
use cursedns.Resolver.TraceStore.{new_trace_store}
use cursedns.Resolver.TraceStore.Lists.{address_of_id}
use cursedns.Resolver.TraceStore.Lru.{IsValid}
use cursedns.Resolver.Server.Listen.{Server, complete, with_handler}
use cursedns.Handlers.Static.{StaticHandler}
use cursedns.Handlers.Gemini.{GeminiHandler, times}

pub record Flags : Type 0 where
  pub listen : List String
  pub timeout : ℕ
  -- the flag was given
  pub timeout_set : Bool
  pub handler : String
  pub static_ipv4 : String
  pub static_ipv6 : String
  pub static_ttl : ℕ
  pub gemini_model : String
  pub gemini_max_turns : ℕ
  pub gemini_max_tokens : ℕ
  pub trace_http_listen : String
  pub trace_capacity : ℕ

pub data Handler : Type 0 where
  static : StaticHandler → Handler
  interactive recursive : Handler
  gemini : GeminiHandler → Handler

-- the server that is started: its addresses, the handler, the timeout, the capacity of its traces
pub record Config : Type 0 where
  pub listen : List String
  pub handler : Handler
  pub timeout : ℕ
  pub trace_capacity : Option ℕ

abbrev pub five_minutes : ℕ
five_minutes = 5 * 60 * 1000000000

-- `netip.ParseAddr` and `genai.NewClient`
module _ (parse_addr : String → Result Addr) (new_client : Result (Unit {0})) where
  -- an address of the static handler, "" for none
  unfoldable pub address : (Error → Error) → String → Result (Option Addr)
  address wrap text =
      if text == ""
      then ok none
      else elim (parse_addr text) [ err e ↦ err (wrap e) | ok addr ↦ ok (some addr) ]

  unfoldable pub static_with : ℕ → Result (Option Addr) → Result (Option Addr) → Result Handler
  static_with ttl (err e) six = err e
  static_with ttl (ok four) (err e) = err e
  static_with ttl (ok four) (ok six) =
      ok (static (record { ipv4 = four; ipv6 = six; ttl = ttl % 2 ^ 32 }))

  unfoldable pub gemini_with : Flags → Result (Unit {0}) → Result Handler
  gemini_with flags (err e) = err (creating_gemini_client e)
  gemini_with flags (ok tt) = ok (
      gemini (record {
        model = flags.gemini_model;
        max_turns = flags.gemini_max_turns;
        max_token_budget = flags.gemini_max_tokens % 2 ^ 32;
        max_lookups_per_turn = 0;
        max_total_lookups = 0;
      }))

  -- the `switch` on the name
  unfoldable pub choose : Flags → Result Handler
  choose flags =
      if flags.handler == "static"
      then static_with flags.static_ttl (address invalid_static_ipv4 flags.static_ipv4)
          (address invalid_static_ipv6 flags.static_ipv6)
      else if flags.handler == "interactive"
      then ok interactive
      else if flags.handler == "recursive"
      then ok recursive
      else if flags.handler == "gemini"
      then gemini_with flags new_client
      else err (unknown_handler flags.handler)

  -- the timeout, longer for a human
  unfoldable pub timeout_for : Flags → ℕ
  timeout_for flags =
      if flags.handler == "interactive"
      then (if flags.timeout_set then flags.timeout else five_minutes)
      else flags.timeout

  unfoldable pub addresses : List String → List String
  addresses [] = "127.0.0.1:8053" ∷ []
  addresses (addr ∷ addrs) = addr ∷ addrs

  unfoldable pub traces : Flags → Option ℕ
  traces flags = if flags.trace_http_listen == "" then none else some flags.trace_capacity

  unfoldable pub config_with : Flags → Result Handler → Result Config
  config_with flags (err e) = err e
  config_with flags (ok handler) = ok (record {
    listen = addresses flags.listen;
    handler = handler;
    timeout = timeout_for flags;
    trace_capacity = traces flags;
  })

  -- `run` up to the start of the server
  unfoldable pub configure : Flags → Result Config
  configure flags =
      if not (flags.trace_http_listen == "") && not (ltb 0 (times flags.trace_capacity))
      then err (invalid_trace_capacity flags.trace_capacity)
      else config_with flags (choose flags)

-- the `Server` that `run` makes
unfoldable pub server_of : Config → Server Handler
server_of c = record {
  handler = some c.handler;
  cache = none;
  root_hints = none;
  request_timeout = c.timeout;
}

-- a store of traces is valid from the start
abbrev pub HasValidStore : Option ℕ → Type 0
HasValidStore none = Unit
HasValidStore (some capacity) = IsValid (new_trace_store capacity)

-- what the server relies on
abbrev pub IsReady : List NameServer → Result Config → Type 0
IsReady hints (err e) = Unit
IsReady hints (ok c) =
    (complete hints (server_of c) c.listen ≡ ok (with_handler hints (server_of c) c.handler))
    × HasValidStore c.trace_capacity

new_trace_store-IsValid : (n : ℕ) → 0 < n → IsValid (new_trace_store n)
unfolding new_trace_store Map.lookup address_of_id
new_trace_store-IsValid n h = record {
  positive = h;
  bounded = omega arith;
  distinct = tt;
  indexed = λ id. refl;
  allocated = tt;
  labelled = tt;
}

times-positive : (n : ℕ) → ltb 0 (times n) ≡ true → 0 < n
unfolding times
times-positive n h = ground arith

module _ (parse_addr : String → Result Addr) (new_client : Result (Unit {0}))
    (hints : List NameServer) where
  complete-addresses :
      (s : Server Handler) (h : Handler) (addrs : List String)
      → s.handler ≡ some h
      → complete hints s (addresses parse_addr new_client addrs) ≡ ok (with_handler hints s h)
  unfolding complete addresses with_handler
  complete-addresses s h [] e = rw (e, complete) refl
  complete-addresses s h (addr ∷ addrs) e = rw (e, complete) refl

  config_with-IsReady :
      (flags : Flags) (chosen : Result Handler)
      → HasValidStore (traces parse_addr new_client flags)
      → IsReady hints (config_with parse_addr new_client flags chosen)
  unfolding config_with server_of
  config_with-IsReady flags (err e) v = tt
  config_with-IsReady flags (ok handler) v = (complete-addresses _ handler flags.listen refl, v)

  traces-valid :
      (flags : Flags)
      → (not (flags.trace_http_listen == "") && not (ltb 0 (times flags.trace_capacity))) ≡ false
      → HasValidStore (traces parse_addr new_client flags)
  unfolding traces
  traces-valid flags h = elim (Bool-cases (flags.trace_http_listen == "")) [
    | inl off ↦ rw off tt
    | inr on ↦ rw on (
        new_trace_store-IsValid flags.trace_capacity
          (times-positive flags.trace_capacity (ground arith)))
  ]

  -- Flags that `run` accepts make a server that passes its own checks: it has a handler and an
  -- address to listen on, and its trace store, if it has one, has room for a record and is valid.
  pub configure-IsReady : (flags : Flags) → IsReady hints (configure parse_addr new_client flags)
  unfolding configure
  configure-IsReady flags =
      elim (Bool-cases
        (not (flags.trace_http_listen == "") && not (ltb 0 (times flags.trace_capacity)))) [
          | inl bad ↦ rw bad tt
          | inr fine ↦ rw fine (
              config_with-IsReady flags (choose parse_addr new_client flags)
                (traces-valid flags fine))
        ]
