-- ===== src/Resolver/Request.antt =====
-- What a request has: the `Helper` of resolver/helper.go that its handler is given, and the state of
-- `requestHelper`, with the world that it reaches.
use cursedns.Prelude.{ℕ, String, Bool, Option, List, [], ◌∷◌, nat_eq, if◌then◌else◌}
use cursedns.Dns.{Msg, class_inet}
use cursedns.Resolver.Types.{Addr, NameServer, LookupResult, Error, Result, Event}
use cursedns.Resolver.Cache.{Cache, CacheKey}
use cursedns.Resolver.Cache.Spec.{Op, step}
use cursedns.Resolver.Bailiwick.{Groups}

-- What a handler is given, over a state `S` of the request and of all that it reaches.
pub record Helper (S : Type 0) : Type 0 where
  pub lookup : String → ℕ → String → List NameServer → S → Result LookupResult × S
  pub root_hints : List NameServer
  pub trace : Event → S → S

-- The world outside: clock, context, network and the other requests.
pub record Env : Type 1 where
  pub World : Type 0
  -- `time.Now`
  pub now : World → ℕ × World
  -- the two times that one call on the cache may read
  pub cache_times : World → (ℕ × ℕ) × World
  -- `ctx.Err`
  pub ctx_err : World → Option Error × World
  -- `SetQuestion` on a new message
  pub set_question : String → ℕ → Msg
  -- `client.ExchangeContext`, to an address and a port
  pub exchange : Msg → Addr → ℕ → World → Result Msg × World
  -- the calls on the cache by other requests since the last one of this request, with their times
  pub others : World → List (ℕ × ℕ × Op) × World
  -- the order in which `range` visits the groups
  pub range : Groups → World → Groups × World

-- a line of the trace and its time
pub record Line : Type 0 where
  pub time : ℕ
  pub event : Event

-- the shared cache, the `lines` of the request, and the world
pub record State (W : Type 0) : Type 0 where
  pub cache : Cache
  pub lines : List Line
  pub world : W

-- `newRequestHelper`, and `traceLines`
abbrev pub new_request_helper : {W : Type 0} → Cache → W → State W
new_request_helper cache world = record { cache = cache; lines = []; world = world }

abbrev pub trace_lines : {W : Type 0} → State W → List Line
trace_lines s = s.lines

module _ {W : Type 0} where
  infixl 5 ◌>>=◌ ◌>>◌
  abbrev pub ◌>>=◌ {ℓ κ} :
      {A : Type ℓ} {B : Type κ}
      → (State W → A × State W)
      → (A → State W → B × State W)
      → State W
      → B × State W
  ◌>>=◌ m f s = let (a, s') = m s in f a s'

  abbrev pub ◌>>◌ {ℓ κ} :
      {A : Type ℓ} {B : Type κ}
      → (State W → A × State W)
      → (State W → B × State W)
      → State W
      → B × State W
  ◌>>◌ m n s = let (_, s') = m s in n s'

  abbrev pub pure {ℓ} : {A : Type ℓ} → A → State W → A × State W
  pure a s = (a, s)

  abbrev pub when : Bool → (State W → Unit {0} × State W) → State W → Unit {0} × State W
  when b m s = if b then m s else (tt, s)

-- the calls that other requests made
unfoldable pub apply_all : List (ℕ × ℕ × Op) → Cache → Cache
apply_all [] c = c
apply_all ((t, t', op) ∷ ops) c = apply_all ops (step t t' op c).1

abbrev pub key_of : String → ℕ → CacheKey
key_of name qtype = record { name = name; qtype = qtype; qclass = class_inet }
