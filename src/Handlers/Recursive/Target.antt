-- ===== src/Handlers/Recursive/Target.antt =====
-- `unresolvedCNAMETarget` of handlers/recursive.go.
use cursedns.Prelude.{
  ℕ, zero, suc, String, Bool, true, false, ◌≡◌, ◌≢◌, refl, sym, ◌∙◌, ap, ◌⊎◌, inl, inr, List, [],
  ◌∷◌, ◌||◌, ◌&&◌, not, length, ◌==◌, nat_eq, string_eq, if◌then◌else◌, equal_fold, Bool-cases, All,
  In, here, there, arith, nat_beq_iff, eq_iff, subst,
}
use cursedns.Dns.{Rr, Rdata, type_cname}
use cursedns.Handlers.Recursive.Records.{
  Scan, hit, missed, cname_or, scan, chase, unresolved_cname_target,
}

-- a CNAME record of the answer leads from `e` to `target`
pub record Leads (answer : List Rr) (e target : String) : Type 0 where
  pub rr : Rr
  pub given : In rr answer
  pub owned : equal_fold rr.name e ≡ true
  pub aliased : rr.rdata ≡ Rdata.cname target

-- one CNAME record after another leads there
pub data Linked (answer : List Rr) (name : String) : String → Type 0 where
  first : {t : String} → Leads answer name t → Linked answer name t
  later : {s t : String} → Linked answer name s → Leads answer s t → Linked answer name t

-- no record of the answer has this owner
abbrev pub Unanswered : List Rr → String → Type 0
Unanswered answer t = All (λ rr. equal_fold rr.name t ≡ false) answer

cname_or_cases :
    (c : String) (data' : Rdata)
    → (cname_or c data' ≡ c) ⊎ ((t : String) × (data' ≡ Rdata.cname t) × (cname_or c data' ≡ t))
cname_or_cases c (Rdata.cname t) = inr (t, refl, refl)
cname_or_cases c (Rdata.a bytes) = inl refl
cname_or_cases c _ = inl refl

module _ (e : String) (qtype : ℕ) where
  -- the two branches of a round
  scan_hit :
      (found : Bool) (c : String) (rr : Rr) (answer : List Rr)
      → (equal_fold rr.name e && rr.rrtype == qtype) ≡ true
      → scan e qtype found c (rr ∷ answer) ≡ hit
  unfolding scan
  scan_hit found c rr answer h = rw h

  scan_next :
      (found : Bool) (c : String) (rr : Rr) (answer : List Rr)
      → (equal_fold rr.name e && rr.rrtype == qtype) ≡ false
      → scan e qtype found c (rr ∷ answer)
        ≡ scan e qtype
            (found || equal_fold rr.name e)
            (if equal_fold rr.name e then cname_or c rr.rdata else c)
            answer
  unfolding scan
  scan_next found c rr answer h = rw h

  scan_found :
      (found : Bool) (c : String) (answer : List Rr) (f' : Bool) (c' : String)
      → found ≡ true
      → scan e qtype found c answer ≡ missed f' c'
      → f' ≡ true
  unfolding scan
  scan_found found c [] f' c' t h = cc
  scan_found found c (rr ∷ answer) f' c' t h =
      let c₁ = if equal_fold rr.name e then cname_or c rr.rdata else c in
      elim (Bool-cases (equal_fold rr.name e && rr.rrtype == qtype)) [
        | inl q ↦ cc (h, scan_hit found c rr answer q)
        | inr q ↦
            scan_found (found || equal_fold rr.name e) c₁ answer f' c' (ground arith)
              (sym (scan_next found c rr answer q) ∙ h)
      ]

  scan_unowned :
      (found : Bool) (c : String) (answer : List Rr) (c' : String)
      → scan e qtype found c answer ≡ missed false c'
      → Unanswered answer e
  unfolding scan
  scan_unowned found c [] c' h = tt
  scan_unowned found c (rr ∷ answer) c' h =
      let c₁ = if equal_fold rr.name e then cname_or c rr.rdata else c in
      let f₁ = found || equal_fold rr.name e in
      elim (Bool-cases (equal_fold rr.name e && rr.rrtype == qtype)) [
        | inl q ↦ absurd (cc (h, scan_hit found c rr answer q))
        | inr q ↦
            let next = sym (scan_next found c rr answer q) ∙ h in
            (
              (elim (Bool-cases (equal_fold rr.name e)) [
                | inr other ↦ other
                | inl own ↦ cc (scan_found f₁ c₁ answer false c' (ground arith) next)
              ]),
              scan_unowned f₁ c₁ answer c' next,
            )
      ]

  Leads-cons :
      (rr : Rr) (answer : List Rr) (c c' : String)
      → (c' ≡ (if equal_fold rr.name e then cname_or c rr.rdata else c)) ⊎ Leads answer e c'
      → (c' ≡ c) ⊎ Leads (rr ∷ answer) e c'
  Leads-cons rr answer c c' (inr l) =
      inr (record { rr = l.rr; given = there l.given; owned = l.owned; aliased = l.aliased })
  Leads-cons rr answer c c' (inl q) = elim (Bool-cases (equal_fold rr.name e)) [
    | inr other ↦ inl (rw other at q)
    | inl own ↦ elim (cname_or_cases c rr.rdata) [
      | inl same ↦ inl (cc)
      | inr (t, alias, same) ↦
          inr (record { rr = rr; given = here refl; owned = own; aliased = cc })
    ]
  ]

  scan_cname :
      (found : Bool) (c : String) (answer : List Rr) (f' : Bool) (c' : String)
      → scan e qtype found c answer ≡ missed f' c'
      → (c' ≡ c) ⊎ Leads answer e c'
  unfolding scan
  scan_cname found c [] f' c' h = inl (cc)
  scan_cname found c (rr ∷ answer) f' c' h =
      let c₁ = if equal_fold rr.name e then cname_or c rr.rdata else c in
      let f₁ = found || equal_fold rr.name e in
      elim (Bool-cases (equal_fold rr.name e && rr.rrtype == qtype)) [
        | inl q ↦ absurd (cc (h, scan_hit found c rr answer q))
        | inr q ↦
            Leads-cons rr answer c c'
              (scan_cname f₁ c₁ answer f' c' (sym (scan_next found c rr answer q) ∙ h))
      ]

Scan-cases : (r : Scan) → (r ≡ hit) ⊎ ((f : Bool) × (c : String) × (r ≡ missed f c))
Scan-cases hit = inl refl
Scan-cases (missed f c) = inr (f, c, refl)

module _ (rounds : ℕ) (moved : Bool) (e : String) (qtype : ℕ) (answer : List Rr) where
  chase_hit :
      scan e qtype false "" answer ≡ hit → chase (suc rounds) moved e qtype answer ≡ ("", false)
  unfolding chase
  chase_hit q = ground arith

  chase_missed :
      (f : Bool) (c : String)
      → scan e qtype false "" answer ≡ missed f c
      → chase (suc rounds) moved e qtype answer ≡ (
          if not f
          then (e, moved)
          else if c == ""
          then ("", false)
          else chase rounds true c qtype answer)
  unfolding chase
  chase_missed f c q = ground arith

pair_eq : (a b : String) (p q : Bool) → ◌≡◌ {A = String × Bool} (a, p) (b, q) → (a ≡ b) × (p ≡ q)
pair_eq a b p q h = (ap (λ x. x.0) h, ap (λ x. x.1) h)

no_restart :
    (t : String) → ◌≡◌ {A = String × Bool} ("", false) (t, true) → ◌≡◌ {A = Bool} false true
no_restart t h = (pair_eq "" t false true h).1

module _ (qtype : ℕ) (answer : List Rr) (name : String) where
  Linked_step :
      (moved : Bool) (e c : String)
      → (moved ≡ true → Linked answer name e)
      → (moved ≡ false → e ≡ name)
      → Leads answer e c
      → Linked answer name c
  Linked_step true e c l s k = later (l refl) k
  Linked_step false e c l s k = first (subst (λ n. Leads answer n c) (s refl) k)

  -- What the loop returns when it asks for a restart; `moved` tells how it came to `e`.
  chase_dangling :
      (rounds : ℕ) (moved : Bool) (e t : String)
      → (moved ≡ true → Linked answer name e)
      → (moved ≡ false → e ≡ name)
      → chase rounds moved e qtype answer ≡ (t, true)
      → Linked answer name t × Unanswered answer t
  unfolding chase
  chase_dangling zero moved e t l s h = cc (no_restart t h)
  chase_dangling (suc rounds) moved e t l s h = elim (Scan-cases (scan e qtype false "" answer)) [
    | inl q ↦ cc (no_restart t (sym (chase_hit rounds moved e qtype answer q) ∙ h))
    | inr (false, c, q) ↦
        let (same, came) =
          pair_eq e t moved true (sym (chase_missed rounds moved e qtype answer false c q) ∙ h) in
        rw (← same) (l came, scan_unowned e qtype false "" answer c q)
    | inr (true, c, q) ↦
        let h' = sym (chase_missed rounds moved e qtype answer true c q) ∙ h in
        elim (Bool-cases (c == "")) [
          | inl last ↦ cc (no_restart t (rw last at h'))
          | inr more ↦ elim (scan_cname e qtype false "" answer true c q) [
            | inl none_found ↦ absurd (cc (more, (eq_iff c "").1 none_found))
            | inr leads ↦
                chase_dangling rounds true c t (λ _. Linked_step moved e c l s leads) (λ r. cc)
                  (rw more at h')
          ]
        ]
  ]

-- Where resolution restarts for a target, the query is not for CNAME records, the target is linked
-- to the name by CNAME records of the answer, and the answer has no record of the target.
pub unresolved_cname_target-dangling :
    (answer : List Rr) (name t : String) (qtype : ℕ)
    → unresolved_cname_target answer name qtype ≡ (t, true)
    → (qtype ≢ type_cname) × Linked answer name t × Unanswered answer t
unfolding unresolved_cname_target
unresolved_cname_target-dangling answer name t qtype h = elim (Bool-cases (qtype == type_cname)) [
  | inl alias ↦ cc (no_restart t (rw alias at h))
  | inr other ↦
      let (linked, unanswered) =
        chase_dangling qtype answer name (suc (length answer)) false name t (λ m. cc) (λ _. refl)
          (rw other at h) in
      ((λ e. cc (other, (nat_beq_iff qtype type_cname).1 e)), linked, unanswered)
]
