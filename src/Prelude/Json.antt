-- ===== src/Prelude/Json.antt =====
-- JSON values, as `encoding/json` reads and writes them.
use Prim.Native.Nat.{ℕ}
use Prim.Native.String.{String}
use mathlib.Core.Path.{◌≡◌, refl, ap}
use mathlib.Core.Bool.{Bool}
use mathlib.Core.List.{List, [], ◌∷◌}

mutual
  -- `minus n` is the number below zero
  pub data Json : Type 0 where
    null : Json
    truth : Bool → Json
    number minus : ℕ → Json
    text : String → Json
    array : Items → Json
    object : Members → Json

  pub data Items : Type 0 where
    no_item : Items
    item : Json → Items → Items

  pub data Members : Type 0 where
    no_member : Members
    member : String → Json → Members → Members

abbrev pub items : Items → List Json
items no_item = []
items (item v vs) = v ∷ items vs

abbrev pub members : Members → List (String × Json)
members no_member = []
members (member key v ms) = (key, v) ∷ members ms

abbrev pub to_items : List Json → Items
to_items [] = no_item
to_items (v ∷ vs) = item v (to_items vs)

abbrev pub to_members : List (String × Json) → Members
to_members [] = no_member
to_members ((key, v) ∷ ms) = member key v (to_members ms)

pub items-to_items : (vs : List Json) → items (to_items vs) ≡ vs
items-to_items [] = refl
items-to_items (v ∷ vs) = ap (λ ws. v ∷ ws) (items-to_items vs)
