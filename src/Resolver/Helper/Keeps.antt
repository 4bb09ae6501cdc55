-- ===== src/Resolver/Helper/Keeps.antt =====
-- Relations between the states before and after a part of `Lookup`, a rule for each construct.
use cursedns.Prelude.{◌≡◌, refl, Bool, true, false, if◌then◌else◌, List, ◌∷◌, [], ℕ, All}
use cursedns.Resolver.Types.{Addr, Event}
use cursedns.Dns.{Msg}
use cursedns.Resolver.Bailiwick.{Groups}
use cursedns.Resolver.Cache.{Cache}
use cursedns.Resolver.Cache.Spec.{Op, step}
use cursedns.Resolver.Request.{Env, Line, State, ◌>>=◌, ◌>>◌, pure, when, apply_all}
use cursedns.Resolver.Helper.{outside, call_cache, trace}

-- one step of the world, as a part of a lookup makes it
pub data After (env : Env) : env.World → env.World → Type 0 where
  told : (w : env.World) → After env w (env.now w).1
  timed : (w : env.World) → After env w (env.cache_times w).1
  checked : (w : env.World) → After env w (env.ctx_err w).1
  exchanged :
      (req : Msg) (addr : Addr) (port : ℕ) (w : env.World)
      → After env w (env.exchange req addr port w).1
  shared : (w : env.World) → After env w (env.others w).1
  ranged : (groups : Groups) (w : env.World) → After env w (env.range groups w).1

pub record IsPreorder (R : Cache → Cache → Type 0) : Type 0 where
  pub rfl : (c : Cache) → R c c
  pub trn : {a b c : Cache} → R a b → R b c → R a c

-- such a relation on states, which a step of the world keeps
pub record IsPatient (env : Env) (R : State env.World → State env.World → Type 0) : Type 0 where
  pub rfl : (s : State env.World) → R s s
  pub trn : {a b c : State env.World} → R a b → R b c → R a c
  pub waits :
      (s : State env.World) (w : env.World) (lines : List Line)
      → After env s.world w
      → R s (record { cache = s.cache; lines = lines; world = w })

-- `m` takes each state to a related one
pub record Keeps {ℓ} {W : Type 0} {A : Type ℓ} (R : State W → State W → Type 0)
    (m : State W → A × State W) : Type 0 where
  pub at : (s : State W) → R s (m s).1

-- a relation of the caches alone
abbrev pub OnCache : {W : Type 0} → (Cache → Cache → Type 0) → State W → State W → Type 0
OnCache R s s' = R s.cache s'.cache

pub OnCache-IsPatient :
    (env : Env) {R : Cache → Cache → Type 0} → IsPreorder R → IsPatient env (OnCache R)
OnCache-IsPatient env pre = record {
  rfl = λ s. pre.rfl s.cache;
  trn = λ p q. pre.trn p q;
  waits = λ s w lines a. pre.rfl s.cache;
}

module _ {env : Env} {R : State env.World → State env.World → Type 0} (pre : IsPatient env R) where
  pub Keeps-pure {ℓ} : {A : Type ℓ} (a : A) → Keeps R (pure {W = env.World} a)
  Keeps-pure a = record { at = λ s. pre.rfl s }

  pub Keeps-bind {ℓ κ} :
      {A : Type ℓ} {B : Type κ} (m : State env.World → A × State env.World)
      (f : A → State env.World → B × State env.World)
      → Keeps R m
      → ((a : A) → Keeps R (f a))
      → Keeps R (m >>= f)
  Keeps-bind m f km kf = record { at = λ s. pre.trn (km.at s) ((kf (m s).0).at (m s).1) }

  pub Keeps-then {ℓ κ} :
      {A : Type ℓ} {B : Type κ} (m : State env.World → A × State env.World)
      (n : State env.World → B × State env.World)
      → Keeps R m
      → Keeps R n
      → Keeps R (m >> n)
  Keeps-then m n km kn = record { at = λ s. pre.trn (km.at s) (kn.at (m s).1) }

  pub Keeps-when :
      (b : Bool) (m : State env.World → Unit {0} × State env.World)
      → (b ≡ true → Keeps R m)
      → Keeps R (when b m)
  Keeps-when true m k = record { at = λ s. (k refl).at s }
  Keeps-when false m k = record { at = λ s. pre.rfl s }

  pub Keeps-if {ℓ} :
      (b : Bool) {A : Type ℓ} (m n : State env.World → A × State env.World)
      → Keeps R m
      → Keeps R n
      → Keeps R (if b then m else n)
  Keeps-if true m n km kn = km
  Keeps-if false m n km kn = kn

  pub Keeps-else {ℓ} :
      (b : Bool) {A : Type ℓ} (m n : State env.World → A × State env.World)
      → b ≡ false
      → Keeps R n
      → Keeps R (if b then m else n)
  Keeps-else b m n e k = rw e k

module _ (env : Env) {R : State env.World → State env.World → Type 0} (pre : IsPatient env R) where
  pub Keeps-outside {ℓ} :
      {A : Type ℓ} (f : env.World → A × env.World)
      → ((w : env.World) → After env w (f w).1)
      → Keeps R (outside env f)
  Keeps-outside f step = record { at = λ s. pre.waits s (f s.world).1 s.lines (step s.world) }

  -- the rest of the block may use what the call returned
  pub Keeps-outside_bind {ℓ κ} :
      {A : Type ℓ} {B : Type κ} (f : env.World → A × env.World)
      (g : A → State env.World → B × State env.World)
      → ((w : env.World) → After env w (f w).1)
      → ((a : A) (w : env.World) → (f w).0 ≡ a → Keeps R (g a))
      → Keeps R (outside env f >>= g)
  Keeps-outside_bind f g step h = record {
    at = λ s.
        pre.trn (pre.waits s (f s.world).1 s.lines (step s.world))
          ((h (f s.world).0 s.world refl).at (record s { world = (f s.world).1 }));
  }

  pub Keeps-trace : (event : Event) → Keeps R (trace env event)
  unfolding trace
  Keeps-trace event = record { at = λ s. pre.waits s _ _ (told s.world) }

module _ (env : Env) {R : Cache → Cache → Type 0} (pre : IsPreorder R) where
  pub apply_all-related :
      (P : ℕ × ℕ × Op → Type 0)
      → ((t t' : ℕ) (op : Op) (c : Cache) → P (t, t', op) → R c (step t t' op c).1)
      → (ops : List (ℕ × ℕ × Op)) (c : Cache) → All P ops
      → R c (apply_all ops c)
  unfolding apply_all
  apply_all-related P h [] c a = pre.rfl c
  apply_all-related P h ((t, t', op) ∷ ops) c a =
      pre.trn (h t t' op c a.0) (apply_all-related P h ops (step t t' op c).1 a.1)

  -- A call on the cache, if the steps of this call and of the others are related: what is known of a
  -- call may be about the times that it reads.
  pub timed_call-related :
      (P : ℕ × ℕ × Op → Type 0)
      → ((t t' : ℕ) (op : Op) (c : Cache) → P (t, t', op) → R c (step t t' op c).1)
      → (op : Op) (s : State env.World) → All P (env.others s.world).0
      → let ((t, t'), _) = env.cache_times (env.others s.world).1 in
        P (t, t', op) → R s.cache (call_cache env op s).1.cache
  unfolding call_cache
  timed_call-related P h op s quiet p =
      pre.trn (apply_all-related P h (env.others s.world).0 s.cache quiet) (h _ _ op _ p)

  pub Keeps-call_cache :
      (P : Op → Type 0)
      → ((t t' : ℕ) (op : Op) (c : Cache) → P op → R c (step t t' op c).1)
      → ((w : env.World) → All (λ o. P o.2) (env.others w).0)
      → (op : Op) → P op
      → Keeps (OnCache R) (call_cache env op)
  Keeps-call_cache P h quiet op p = record {
    at = λ s. timed_call-related (λ o. P o.2) h op s (quiet s.world) p;
  }
