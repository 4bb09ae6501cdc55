-- ===== src/Resolver/Bailiwick/Loop.antt =====
-- The loop of `filterInBailiwick` over the answer section as a relation, and that the fuel of its
-- model is enough.
use cursedns.Prelude.{
  ℕ, zero, suc, ◌+◌, ◌<◌, String, true, false, ◌≡◌, refl, inl, inr, List, [], ◌∷◌, ◌++◌, arith,
  length, is_empty, ◌==◌, string_eq, equal_fold, equal_fold_comm, equal_fold_trans, Bool-cases,
}
use cursedns.Dns.{Rr}
use cursedns.Dns.Names.{Names}
use cursedns.Resolver.Bailiwick.{matched, rest, next_name, follow, filter_answer}

pub length-rest :
    (e : String) (rs : List Rr) → length (matched e rs) + length (rest e rs) ≡ length rs
unfolding matched rest
length-rest e [] = omega arith
length-rest e (r ∷ rs) = ground (arith, length-rest e rs)

pub length-rest-lt :
    (e : String) (rs : List Rr) → is_empty (matched e rs) ≡ false → length (rest e rs) < length rs
length-rest-lt e rs h = go (matched e rs) h (length-rest e rs)
  where
    go :
        (here : List Rr)
        → is_empty here ≡ false
        → length here + length (rest e rs) ≡ length rs
        → length (rest e rs) < length rs
    go [] h q = cc
    go (r ∷ more) h q = omega arith

-- A run of the loop that starts at the name `e` with the records `rs` and keeps `out`.
pub data Loop (d : Names) (zone : String) : String → List Rr → List Rr → Type 0 where
  outside :
      {e : String} {rs out : List Rr}
      → d.is_sub_domain zone e ≡ false
      → out ≡ []
      → Loop d zone e rs out
  unowned :
      {e : String} {rs out : List Rr}
      → d.is_sub_domain zone e ≡ true
      → is_empty (matched e rs) ≡ true
      → out ≡ []
      → Loop d zone e rs out
  ended :
      {e : String} {rs out : List Rr}
      → d.is_sub_domain zone e ≡ true
      → (next_name (matched e rs) == "") ≡ true
      → out ≡ matched e rs
      → Loop d zone e rs out
  onward :
      {e : String} {rs out out' : List Rr}
      → d.is_sub_domain zone e ≡ true
      → (next_name (matched e rs) == "") ≡ false
      → Loop d zone (next_name (matched e rs)) (rest e rs) out'
      → out ≡ matched e rs ++ out'
      → Loop d zone e rs out

module _ (d : Names) (zone : String) where
  follow-Loop :
      (fuel : ℕ) (e : String) (rs : List Rr)
      → length rs < fuel
      → Loop d zone e rs (follow d fuel zone e rs)
  unfolding follow
  follow-Loop zero e rs h = absurd (omega arith)
  follow-Loop (suc fuel) e rs h = elim (Bool-cases (d.is_sub_domain zone e)) [
    | inr out ↦ outside out (rw out)
    | inl inside ↦ elim (Bool-cases (is_empty (matched e rs))) [
      | inl none_left ↦ unowned inside none_left (rw (inside, none_left))
      | inr some_left ↦ elim (Bool-cases (next_name (matched e rs) == "")) [
        | inl last ↦ ended inside last (rw (inside, some_left, last))
        | inr more ↦
            onward inside more
              (follow-Loop fuel (next_name (matched e rs)) (rest e rs)
                (omega (arith, length-rest-lt e rs some_left)))
              (rw (inside, some_left, more))
      ]
    ]
  ]

  -- The loop ends on every answer section, and what it keeps is what the model computes.
  pub filter_answer-Loop :
      (name : String) (answer : List Rr)
      → Loop d zone name answer (filter_answer d zone name answer)
  unfolding filter_answer
  filter_answer-Loop name answer = follow-Loop (suc (length answer)) name answer (omega arith)

-- the records of other owners stay
pub matched-rest :
    (n e : String) (rs : List Rr) → equal_fold n e ≡ false → matched n (rest e rs) ≡ matched n rs
unfolding matched rest
matched-rest n e [] h = refl
matched-rest n e (r ∷ rs) h =
    ground (arith, matched-rest n e rs h, equal_fold_comm r.name n, equal_fold_trans n r.name e)

-- the records of the owner are gone
pub matched-rest_self :
    (n e : String) (rs : List Rr) → equal_fold n e ≡ true → matched n (rest e rs) ≡ []
unfolding matched rest
matched-rest_self n e [] h = refl
matched-rest_self n e (r ∷ rs) h =
    ground (arith, matched-rest_self n e rs h, equal_fold_trans r.name n e)

pub matched_fold :
    (n e : String) (rs : List Rr) → equal_fold n e ≡ true → matched n rs ≡ matched e rs
unfolding matched
matched_fold n e [] h = refl
matched_fold n e (r ∷ rs) h = ground (
  arith,
  matched_fold n e rs h,
  equal_fold_trans r.name n e,
  equal_fold_trans r.name e n,
  equal_fold_comm n e,
)
