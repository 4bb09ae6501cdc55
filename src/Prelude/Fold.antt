-- ===== src/Prelude/Fold.antt =====
-- Go's `strings.ToLower`, `strings.ToUpper` and `strings.EqualFold` on ASCII texts.
use Prim.Native.Nat.{ℕ, ◌+◌, ◌-◌}
use Prim.Native.Char.{code}
use Prim.Native.String.{String}
use mathlib.Core.Path.{◌≡◌, refl, sym, ◌∙◌}
use mathlib.Core.Logic.{◌↔◌}
use mathlib.Core.Bool.{Bool, true, ◌&&◌}
use mathlib.Core.List.{List, [], ◌∷◌}
use cursedns.Prelude.Tests.{leb, if◌then◌else◌, codes_eq, codes_eq_iff}

abbrev pub lower_code : ℕ → ℕ
lower_code c = if leb b'A' c && leb c b'Z' then c + 32 else c

-- the code points of the text in lower case
unfoldable pub to_lower : String → List ℕ
to_lower String.[] = []
to_lower (String.◌∷◌ c s) = lower_code (code c) ∷ to_lower s

abbrev pub upper_code : ℕ → ℕ
upper_code c = if leb b'a' c && leb c b'z' then c - 32 else c

-- the code points of the text in upper case
unfoldable pub to_upper : String → List ℕ
to_upper String.[] = []
to_upper (String.◌∷◌ c s) = upper_code (code c) ∷ to_upper s

-- equal up to case
unfoldable pub equal_fold : String → String → Bool
equal_fold a b = codes_eq (to_lower a) (to_lower b)

pub equal_fold_iff : (a b : String) → (equal_fold a b ≡ true) ↔ (to_lower a ≡ to_lower b)
unfolding equal_fold
equal_fold_iff a b = codes_eq_iff (to_lower a) (to_lower b)

pub equal_fold_refl : (a : String) → equal_fold a a ≡ true
equal_fold_refl a = (equal_fold_iff a a).1 refl

pub equal_fold_comm : (a b : String) → equal_fold a b ≡ true → equal_fold b a ≡ true
equal_fold_comm a b h = (equal_fold_iff b a).1 (sym ((equal_fold_iff a b).0 h))

pub equal_fold_trans :
    (a b c : String) → equal_fold a b ≡ true → equal_fold b c ≡ true → equal_fold a c ≡ true
equal_fold_trans a b c h k =
    (equal_fold_iff a c).1 ((equal_fold_iff a b).0 h ∙ (equal_fold_iff b c).0 k)
