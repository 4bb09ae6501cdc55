-- ===== src/Samples/Domains.antt =====
-- Names compared label by label, as github.com/miekg/dns documents `IsSubDomain` and `Fqdn`.
use Prim.Native.Char.{code}
use mathlib.Core.List.{reverse}
use cursedns.Prelude.{
  subst, ℕ, String, Bool, true, false, ◌≡◌, refl, List, [], ◌∷◌, ◌&&◌, arith, codes_eq,
  codes_eq_iff, if◌then◌else◌, equal_fold_iff, to_lower, nat_beq,
}
use cursedns.Dns.Names.{Names, IsNames}

unfoldable pub emit : List ℕ → List (List ℕ) → List (List ℕ)
emit [] ls = ls
emit (c ∷ label) ls = (c ∷ label) ∷ ls

-- the labels of a text, each backwards
unfoldable pub split : List ℕ → List ℕ → List (List ℕ)
unfolding emit
split label [] = emit label []
split label (c ∷ cs) =
    let next = split [] cs in
    let longer = split (c ∷ label) cs in if nat_beq c b'.' then emit label next else longer

-- from the top-level domain down, in lower case
unfoldable pub labels : String → List (List ℕ)
unfolding split
labels s = reverse (split [] (to_lower s))

unfoldable pub is_prefix : List (List ℕ) → List (List ℕ) → Bool
is_prefix [] ls = true
is_prefix (k ∷ ks) [] = false
is_prefix (k ∷ ks) (l ∷ ls) = codes_eq k l && is_prefix ks ls

unfoldable pub fqdn : String → String
fqdn String.[] = "."
fqdn (String.◌∷◌ c String.[]) =
    if nat_beq (code c) b'.' then String.◌∷◌ c String.[] else String.◌∷◌ c "."
fqdn (String.◌∷◌ c (String.◌∷◌ e s)) = String.◌∷◌ c (fqdn (String.◌∷◌ e s))

is_prefix_refl : (ls : List (List ℕ)) → is_prefix ls ls ≡ true
unfolding is_prefix
is_prefix_refl [] = refl
is_prefix_refl (l ∷ ls) = ground (arith, codes_eq_iff l l, is_prefix_refl ls)

is_prefix_trans :
    (ks ls ms : List (List ℕ))
    → is_prefix ks ls ≡ true
    → is_prefix ls ms ≡ true
    → is_prefix ks ms ≡ true
unfolding is_prefix
is_prefix_trans [] ls ms h k = refl
is_prefix_trans (a ∷ ks) [] ms h k = cc
is_prefix_trans (a ∷ ks) (b ∷ ls) [] h k = cc
is_prefix_trans (a ∷ ks) (b ∷ ls) (c ∷ ms) h k =
    ground (arith, codes_eq_iff a b, codes_eq_iff b c, codes_eq_iff a c, is_prefix_trans ks ls ms)

root_prefix : (n : String) → is_prefix (labels ".") (labels n) ≡ true
unfolding labels is_prefix to_lower
root_prefix n = refl

abbrev pub domains : Names
domains = record { fqdn = fqdn; is_sub_domain = λ p c. is_prefix (labels p) (labels c) }

pub domains-IsNames : IsNames domains
unfolding labels
domains-IsNames = record {
  sub_refl = λ n. is_prefix_refl (labels n);
  sub_trans = λ p n c. is_prefix_trans (labels p) (labels n) (labels c);
  sub_fold = λ p m n q h.
      subst (λ cs. is_prefix (labels p) (reverse (split [] cs)) ≡ true) ((equal_fold_iff m n).0 q)
        h;
  sub_root = λ n. root_prefix n;
}
