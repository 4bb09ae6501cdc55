-- ===== src/Resolver/Helper/Poisoning.antt =====
-- What a lookup can write to the shared cache: nothing under a name outside the zone that its
-- nameservers are trusted for.
use mathlib.Core.List.{foldl}
use cursedns.Prelude.{
  ℕ, false, ◌≡◌, refl, ◌∙◌, ◌⊎◌, inl, inr, none, List, [], ◌∷◌, arith, ◌==◌, string_eq, Bool-cases,
  All, All-In, All-at, In, ◌<◌, some, sym, ap, ltb, Option-cases, nat_eq,
}
use cursedns.Prelude.Map.{lookup, insert, delete, lookup-insert, lookup-delete}
use cursedns.Dns.{Rr, Msg}
use cursedns.Resolver.Types.{ok}
use cursedns.Resolver.Cache.{
  Cache, CacheKey, CacheKey-Eq, CacheKey_beq, CacheKey_beq_iff, CacheEntry, get, set,
  check_nxdomain, check_nodata, get_negative, set_nxdomain, set_nodata,
}
use cursedns.Resolver.Cache.Spec.{
  Op, read, write, read_negative, write_nxdomain, write_nodata, step,
}
use cursedns.Resolver.Bailiwick.{Groups, NameType, NameType-Eq, add_to_group}
use cursedns.Resolver.Bailiwick.Sections.{Named}
use cursedns.Resolver.Request.{Env, State, key_of}
use cursedns.Resolver.Helper.{call_cache}
use cursedns.Resolver.Helper.Keeps.{
  After, shared, timed, IsPreorder, IsPatient, Keeps, timed_call-related,
}

-- the call writes no records under the key
abbrev pub Harmless : CacheKey → Op → Type 0
Harmless k (write key rrs) = CacheKey_beq key k ≡ false
Harmless k _ = Unit

-- some steps of the world
pub data Runs (env : Env) : env.World → env.World → Type 0 where
  here : {w : env.World} → Runs env w w
  next : {u v w : env.World} → Runs env u v → After env v w → Runs env u w

Runs-trans : (env : Env) {u v w : env.World} → Runs env u v → Runs env v w → Runs env u w
Runs-trans env r here = r
Runs-trans env r (next q step) = next (Runs-trans env r q) step

-- a time that the clock shows to a call on the cache, of this request or of another, at this point
abbrev pub IsShown : (env : Env) → env.World → ℕ → Type 0
IsShown env w t =
    (t ≡ (env.cache_times w).0.0) ⊎ ((o : ℕ × ℕ × Op) × In o (env.others w).0 × (t ≡ o.0))

-- such a time between two points of a run
abbrev pub IsRead : (env : Env) → env.World → env.World → ℕ → Type 0
IsRead env u v t = (w : env.World) × Runs env u w × Runs env w v × IsShown env w t

-- the entry that was there had expired at one of these times, and is gone
abbrev pub Expired : (ℕ → Type 0) → CacheKey → Cache → Cache → Type 0
Expired read_at k c c' =
    (lookup k c'.entries ≡ none)
    × (e : CacheEntry) × (t : ℕ) × (lookup k c.entries ≡ some e)
    × (e.expires < t)
    × read_at t

abbrev pub SameOrExpired : (ℕ → Type 0) → CacheKey → Cache → Cache → Type 0
SameOrExpired read_at k c c' = (lookup k c'.entries ≡ lookup k c.entries) ⊎ Expired read_at k c c'

-- the records under the key are as before, or were dropped because they had expired on the way
abbrev pub Untouched : (env : Env) → CacheKey → State env.World → State env.World → Type 0
Untouched env k s s' =
    Runs env s.world s'.world × SameOrExpired (IsRead env s.world s'.world) k s.cache s'.cache

module _ (P : ℕ → Type 0) (k : CacheKey) where
  SameOrExpired-trans :
      (a b c : Cache) → SameOrExpired P k a b → SameOrExpired P k b c → SameOrExpired P k a c
  SameOrExpired-trans a b c (inl p) (inl q) = inl (q ∙ p)
  SameOrExpired-trans a b c (inr (p, e, t, held, old, at)) (inl q) =
      inr (q ∙ p, e, t, held, old, at)
  SameOrExpired-trans a b c (inl p) (inr (q, e, t, held, old, at)) =
      inr (q, e, t, sym p ∙ held, old, at)
  SameOrExpired-trans a b c (inr (p, e, t, held, old, at)) (inr q) = inr (q.0, e, t, held, old, at)

  SameOrExpired-IsPreorder : IsPreorder (SameOrExpired P k)
  SameOrExpired-IsPreorder = record {
    rfl = λ c. inl refl;
    trn = λ {a} {b} {c} p q. SameOrExpired-trans a b c p q;
  }

  SameOrExpired-wider :
      (Q : ℕ → Type 0)
      → ((t : ℕ) → P t → Q t)
      → (c c' : Cache) → SameOrExpired P k c c'
      → SameOrExpired Q k c c'
  SameOrExpired-wider Q h c c' (inl p) = inl p
  SameOrExpired-wider Q h c c' (inr (p, e, t, held, old, at)) = inr (p, e, t, held, old, h t at)

  -- `Get` drops an entry only if it is of its own key and has expired
  get-SameOrExpired :
      (t : ℕ) (key : CacheKey) (c : Cache) → P t → SameOrExpired P k c (get t key c).1
  unfolding get
  get-SameOrExpired t key c at = elim (Option-cases (lookup key c.entries)) [
    | inl absent ↦ rw (absent, get) (inl refl)
    | inr (e, held) ↦ elim (Bool-cases (ltb e.expires t)) [
      | inr live ↦ rw (held, live, get) (inl refl)
      | inl old ↦ elim (Bool-cases (CacheKey_beq key k)) [
        | inr other ↦
            let gone : lookup k (delete key c.entries) ≡ lookup k c.entries =
              lookup-delete key k c.entries ∙ rw other refl in
            rw (held, old, get) (inl gone)
        | inl same ↦
            let gone : lookup k (delete key c.entries) ≡ none =
              lookup-delete key k c.entries ∙ rw same refl in
            let held' : lookup k c.entries ≡ some e =
              ap (λ j. lookup j c.entries) (sym ((CacheKey_beq_iff key k).0 same)) ∙ held in
            rw (held, old, get) (inr (gone, e, t, held', ground arith, at))
      ]
    ]
  ]

  step-SameOrExpired :
      (t t' : ℕ) (op : Op) (c : Cache)
      → Harmless k op × P t
      → SameOrExpired P k c (step t t' op c).1
  unfolding step set get_negative check_nxdomain check_nodata set_nxdomain set_nodata
  step-SameOrExpired t t' (read key) c h = get-SameOrExpired t key c h.1
  step-SameOrExpired t t' (write key []) c h = inl refl
  step-SameOrExpired t t' (write key (rr ∷ rest)) c h = inl (rw lookup-insert (rw h.0))
  step-SameOrExpired t t' (read_negative key) c h = ground arith
  step-SameOrExpired t t' (write_nxdomain key ttl) c h = inl refl
  step-SameOrExpired t t' (write_nodata key ttl) c h = inl refl

-- no message that the network yields has an empty owner name in its authority section
abbrev pub AnswersNamed : Env → Type 0
AnswersNamed env =
    (req : Msg) (addr : List ℕ) (port : ℕ) (w : env.World) (resp : Msg)
    → (env.exchange req addr port w).0 ≡ ok resp
    → All Named resp.ns

-- What is relied on outside the program: other requests write nothing under `k`, `range` visits
-- groups of the map only, and an unpacked message has no empty owner name.
pub record IsPeaceful (env : Env) (k : CacheKey) : Type 0 where
  pub others_harmless : (w : env.World) → All (λ o. Harmless k o.2) (env.others w).0
  pub range_visits :
      (groups : Groups) (w : env.World) (g : NameType × List Rr)
      → In g (env.range groups w).0
      → In g groups
  pub answers_named : AnswersNamed env

-- the group is of another name than `k`
abbrev pub Elsewhere : CacheKey → NameType × List Rr → Type 0
Elsewhere k g = CacheKey_beq (key_of g.0.name g.0.qtype) k ≡ false

delete-All :
    (P : NameType → Type 0) (key : NameType) (groups : Groups)
    → All (λ g. P g.0) groups
    → All (λ g. P g.0) (delete key groups)
unfolding delete
delete-All P key [] h = tt
delete-All P key ((j, v) ∷ groups) h = elim (Bool-cases (j == key)) [
  | inl same ↦ rw same (delete-All P key groups h.1)
  | inr other ↦ rw other (h.0, delete-All P key groups h.1)
]

pub group-All :
    (P : NameType → Type 0) (rrs : List Rr) (groups : Groups)
    → All (λ rr. P (record { name = rr.name; qtype = rr.rrtype })) rrs
    → All (λ g. P g.0) groups
    → All (λ g. P g.0) (foldl add_to_group groups rrs)
unfolding add_to_group insert
group-All P [] groups h k = k
group-All P (rr ∷ rrs) groups h k =
    group-All P rrs (add_to_group groups rr) h.1 (h.0, delete-All P _ groups k)

module _ (env : Env) (k : CacheKey) where
  Untouched-trans :
      (a b c : State env.World) → Untouched env k a b → Untouched env k b c → Untouched env k a c
  Untouched-trans a b c (r, p) (q, h) =
      let span = IsRead env a.world c.world in
      (
        Runs-trans env r q,
        SameOrExpired-trans span k a.cache b.cache c.cache
            (SameOrExpired-wider (IsRead env a.world b.world) k span
              (λ t m. (m.0, m.1, Runs-trans env m.2 q, m.3)) a.cache b.cache p)
            (SameOrExpired-wider (IsRead env b.world c.world) k span
              (λ t m. (m.0, Runs-trans env r m.1, m.2, m.3)) b.cache c.cache h),
      )

  pub Untouched-IsPatient : IsPatient env (Untouched env k)
  Untouched-IsPatient = record {
    rfl = λ s. (here, inl refl);
    trn = λ {a} {b} {c} p q. Untouched-trans a b c p q;
    waits = λ s w lines step. (next here step, inl refl);
  }

  -- a call on the cache: the calls of other requests, and the clock
  call-Runs : (op : Op) (s : State env.World) → Runs env s.world (call_cache env op s).1.world
  unfolding call_cache
  call-Runs op s = next (next here (shared s.world)) (timed (env.others s.world).1)

  shown_to_others :
      (op : Op) (s : State env.World) (o : ℕ × ℕ × Op)
      → In o (env.others s.world).0
      → IsRead env s.world (call_cache env op s).1.world o.0
  shown_to_others op s o i = (s.world, here, call-Runs op s, inr (o, i, refl))

  shown_to_call :
      (op : Op) (s : State env.World)
      → IsRead env s.world
          (call_cache env op s).1.world
          (env.cache_times (env.others s.world).1).0.0
  unfolding call_cache
  shown_to_call op s = (
    (env.others s.world).1,
    next here (shared s.world),
    next here (timed (env.others s.world).1),
    inl refl,
  )

  pub call_cache-Untouched :
      IsPeaceful env k → (op : Op) → Harmless k op → Keeps (Untouched env k) (call_cache env op)
  call_cache-Untouched calm op h = record {
    at = λ s.
        let P = IsRead env s.world (call_cache env op s).1.world in
        (
          call-Runs op s,
          timed_call-related env (SameOrExpired-IsPreorder P k) (λ o. Harmless k o.2 × P o.0)
              (step-SameOrExpired P k) op s
              (All-In (λ o. Harmless k o.2 × P o.0) (env.others s.world).0
                (λ o i. (
                  All-at (λ (o : ℕ × ℕ × Op). Harmless k o.2) (env.others s.world).0
                      (calm.others_harmless s.world) i,
                  shown_to_others op s o i,
                )))
              (h, shown_to_call op s),
        );
  }
