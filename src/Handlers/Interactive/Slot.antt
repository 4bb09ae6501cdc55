-- ===== src/Handlers/Interactive/Slot.antt =====
-- The channel `busy` of handlers/interactive.go, of capacity one, which the queries that reach
-- `InteractiveHandler.Handle` at the same time compete for.
use cursedns.Prelude.{
  ℕ, suc, ◌-◌, ◌≤◌, ◌≡◌, refl, Option, none, some, List, [], ◌∷◌, length, ltb, ◌==◌, nat_eq,
  if◌then◌else◌, In, here, there, arith, nat_beq_iff,
}

-- the `select` that sends or falls through
unfoldable pub try_send : ℕ → Option ℕ
try_send tokens = if ltb tokens 1 then some (suc tokens) else none

-- the tokens in the channel, the queries that the operator works on, those that were refused
pub record Slot : Type 0 where
  pub tokens : ℕ
  pub working : List ℕ
  pub turned_away : List ℕ

unfoldable pub without : ℕ → List ℕ → List ℕ
without q [] = []
without q (p ∷ ps) = let rest = without q ps in if p == q then ps else p ∷ rest

-- One step of some query's goroutine.
pub data Step (s : Slot) : Slot → Type 0 where
  -- it is taken on
  taken :
      (q n : ℕ)
      → try_send s.tokens ≡ some n
      → Step s (record s { tokens = n; working = q ∷ s.working })
  -- it is refused at once
  refused :
      (q : ℕ) → try_send s.tokens ≡ none → Step s (record s { turned_away = q ∷ s.turned_away })
  -- it returns, and the deferred receive frees the slot
  returned :
      (q : ℕ)
      → In q s.working
      → Step s (record s { tokens = s.tokens - 1; working = without q s.working })

pub data Reachable : Slot → Type 0 where
  idle : Reachable (record { tokens = 0; working = []; turned_away = [] })
  after : (s t : Slot) → Reachable s → Step s t → Reachable t

abbrev IsExclusive : Slot → Type 0
IsExclusive s = (s.tokens ≡ length s.working) × (s.tokens ≤ 1)

try_send-room : (tokens n : ℕ) → try_send tokens ≡ some n → (tokens ≡ 0) × (n ≡ 1)
unfolding try_send
try_send-room tokens n h = ground arith

length-without : (q : ℕ) (ps : List ℕ) → In q ps → suc (length (without q ps)) ≡ length ps
unfolding without
length-without q [] i = elim i [ ]
length-without q (p ∷ ps) (here e) = ground (arith, nat_beq_iff p q)
length-without q (p ∷ ps) (there i) = ground (arith, length-without q ps i)

Step-IsExclusive : (s t : Slot) → IsExclusive s → Step s t → IsExclusive t
Step-IsExclusive s t e (taken q n sent) =
    let (empty, one) = try_send-room s.tokens n sent in (omega (arith, e.0), omega (arith, e.1))
Step-IsExclusive s t e (refused q full) = e
Step-IsExclusive s t e (returned q i) =
    (omega (arith, e.0, length-without q s.working i), omega (arith, e.1))

Reachable-IsExclusive : (s : Slot) → Reachable s → IsExclusive s
Reachable-IsExclusive s idle = (refl, omega arith)
Reachable-IsExclusive _ (after s t r step) = Step-IsExclusive s t (Reachable-IsExclusive s r) step

-- However queries arrive, are refused and return, the operator never works on more than one, and
-- the channel holds a token just as long as there is one.
pub Reachable-exclusive :
    (s : Slot) → Reachable s → (s.tokens ≡ length s.working) × (length s.working ≤ 1)
Reachable-exclusive s r =
    let (held, one) = Reachable-IsExclusive s r in (held, omega (arith, held, one))
