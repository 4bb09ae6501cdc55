-- ===== src/Handlers/Recursive/Names.antt =====
-- `uniqueNSNames` and `unresolvedCNAMETarget` of handlers/recursive.go.
use cursedns.Prelude.{
  ℕ, String, true, false, ◌≡◌, ◌≢◌, refl, sym, ◌∙◌, ◌⊎◌, inl, inr, none, some, List, [], ◌∷◌,
  nat_eq, string_eq, codes-Eq, codes_eq, codes_eq_iff, to_lower, Bool-cases, Option-cases, All, In,
  here, there, arith,
}
use cursedns.Dns.{Rr}
use cursedns.Handlers.Recursive.Records.{ns_host, is_seen, unique_from, unique_ns_names}

-- no two names are equal up to case
abbrev pub IsUnique : List String → Type 0
IsUnique [] = Unit
IsUnique (n ∷ ns) = All (λ m. to_lower m ≢ to_lower n) ns × IsUnique ns

In-is_seen : (key : List ℕ) (seen : List (List ℕ)) → In key seen → is_seen key seen ≡ true
unfolding is_seen
In-is_seen key (k ∷ seen) (here e) = ground (arith, codes_eq_iff k key)
In-is_seen key (k ∷ seen) (there i) = ground (arith, In-is_seen key seen i)
In-is_seen key [] i = elim i [ ]

is_seen-In : (key : List ℕ) (seen : List (List ℕ)) → is_seen key seen ≡ true → In key seen
unfolding is_seen
is_seen-In key [] h = cc
is_seen-In key (k ∷ seen) h = elim (Bool-cases (codes_eq k key)) [
  | inl e ↦ here (sym ((codes_eq_iff k key).0 e))
  | inr e ↦ there (is_seen-In key seen (rw e at h))
]

-- the three branches of a round
module _ (seen : List (List ℕ)) (rr : Rr) (ns : List Rr) where
  unique_skip : ns_host rr.rdata ≡ none → unique_from seen (rr ∷ ns) ≡ unique_from seen ns
  unfolding unique_from
  unique_skip e = ground arith

  unique_old :
      (host : String)
      → ns_host rr.rdata ≡ some host
      → is_seen (to_lower host) seen ≡ true
      → unique_from seen (rr ∷ ns) ≡ unique_from seen ns
  unfolding unique_from
  unique_old host e old = ground arith

  unique_new :
      (host : String)
      → ns_host rr.rdata ≡ some host
      → is_seen (to_lower host) seen ≡ false
      → unique_from seen (rr ∷ ns) ≡ host ∷ unique_from (to_lower host ∷ seen) ns
  unfolding unique_from
  unique_new host e new = ground arith

false-true : false ≡ true → ⊥
false-true h = cc

-- no name of the result was seen before
unique_from_new :
    (seen : List (List ℕ)) (ns : List Rr) (key : List ℕ)
    → In key seen
    → All (λ m. to_lower m ≢ key) (unique_from seen ns)
unfolding unique_from
unique_from_new seen [] key i = tt
unique_from_new seen (rr ∷ ns) key i = elim (Option-cases (ns_host rr.rdata)) [
  | inl e ↦ rw (unique_skip seen rr ns e) (unique_from_new seen ns key i)
  | inr (host, e) ↦ elim (Bool-cases (is_seen (to_lower host) seen)) [
    | inl old ↦ rw (unique_old seen rr ns host e old) (unique_from_new seen ns key i)
    | inr new ↦ rw (unique_new seen rr ns host e new) (
      (λ same. false-true (sym new ∙ In-is_seen (to_lower host) seen (rw same i))),
      unique_from_new (to_lower host ∷ seen) ns key (there i),
    )
  ]
]

unique_from-IsUnique : (seen : List (List ℕ)) (ns : List Rr) → IsUnique (unique_from seen ns)
unfolding unique_from
unique_from-IsUnique seen [] = tt
unique_from-IsUnique seen (rr ∷ ns) = elim (Option-cases (ns_host rr.rdata)) [
  | inl e ↦ rw (unique_skip seen rr ns e) (unique_from-IsUnique seen ns)
  | inr (host, e) ↦ elim (Bool-cases (is_seen (to_lower host) seen)) [
    | inl old ↦ rw (unique_old seen rr ns host e old) (unique_from-IsUnique seen ns)
    | inr new ↦ rw (unique_new seen rr ns host e new) (
      unique_from_new (to_lower host ∷ seen) ns (to_lower host) (here refl),
      unique_from-IsUnique (to_lower host ∷ seen) ns,
    )
  ]
]

-- a name of the list is the host, up to case
abbrev pub IsListed : String → List String → Type 0
IsListed host names = (m : String) × In m names × (to_lower m ≡ to_lower host)

IsListed-after :
    (seen : List (List ℕ)) (other host : String) (names : List String)
    → In (to_lower host) (to_lower other ∷ seen) ⊎ IsListed host names
    → In (to_lower host) seen ⊎ IsListed host (other ∷ names)
IsListed-after seen other host names (inl (here q)) = inr (other, here refl, sym q)
IsListed-after seen other host names (inl (there i)) = inl i
IsListed-after seen other host names (inr (m, i, q)) = inr (m, there i, q)

unique_from-all :
    (seen : List (List ℕ)) (ns : List Rr) (rr : Rr) (host : String)
    → In rr ns
    → ns_host rr.rdata ≡ some host
    → In (to_lower host) seen ⊎ IsListed host (unique_from seen ns)
unfolding unique_from
unique_from-all seen [] rr host i e = elim i [ ]
unique_from-all seen (x ∷ ns) rr host (here q) e =
    let e' : ns_host x.rdata ≡ some host = rw q at e in
    elim (Bool-cases (is_seen (to_lower host) seen)) [
      | inl old ↦ inl (is_seen-In (to_lower host) seen old)
      | inr new ↦ inr (host, rw (unique_new seen x ns host e' new) (here refl), refl)
    ]
unique_from-all seen (x ∷ ns) rr host (there i) e = elim (Option-cases (ns_host x.rdata)) [
  | inl q ↦ rw (unique_skip seen x ns q) (unique_from-all seen ns rr host i e)
  | inr (other, q) ↦ elim (Bool-cases (is_seen (to_lower other) seen)) [
    | inl old ↦ rw (unique_old seen x ns other q old) (unique_from-all seen ns rr host i e)
    | inr new ↦ rw (unique_new seen x ns other q new) (
        IsListed-after seen other host (unique_from (to_lower other ∷ seen) ns)
          (unique_from-all (to_lower other ∷ seen) ns rr host i e))
  ]
]

-- The names that are resolved are pairwise different up to case, and every nameserver of the
-- referral is among them, up to case.
unique_ns_names-all :
    (ns : List Rr)
    → IsUnique (unique_ns_names ns)
      × ((rr : Rr) (host : String)
          → In rr ns
          → ns_host rr.rdata ≡ some host
          → IsListed host (unique_ns_names ns))
unfolding unique_ns_names
unique_ns_names-all ns = (
  unique_from-IsUnique [] ns,
  λ rr host i e. elim (unique_from-all [] ns rr host i e) [
    | inl old ↦ elim old [ ]
    | inr listed ↦ listed
  ],
)
