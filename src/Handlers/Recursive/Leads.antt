-- ===== src/Handlers/Recursive/Leads.antt =====
-- When the nameservers lead to an answer, as a relation that does not mention the loops of
-- handlers/recursive.go, and that `resolveIterative` follows it.
use cursedns.Prelude.{
  ℕ, zero, suc, ◌+◌, ◌≤◌, String, Bool, true, false, not, ◌||◌, ◌≡◌, refl, ap, ◌∙◌, Option, none,
  some, List, ◌∷◌, length, is_empty, ◌==◌, nat_eq, equal_fold, arith,
}
use cursedns.Dns.{Rr, type_a, rcode_success}
use cursedns.Resolver.Types.{NameServer, LookupResult, Result, ok, referral}
use cursedns.Resolver.Request.{Helper}
use cursedns.Handlers.Recursive.Records.{has_ns, delegation_owner, unique_ns_names, glue, addresses}
use cursedns.Handlers.Recursive.{
  Run, root_zone, max_hops, on_resolved, chase_names, resolve_nameservers, follow_referral,
  after_lookup, walk, resolve_at,
}

-- a result that is no referral
unfoldable pub is_final : LookupResult → Bool
is_final r = not (r.rcode == rcode_success) || not (is_empty r.answer) || not (has_ns r.ns)

module _ {S : Type 0} (h : Helper S) where
  -- In a zone, some of its nameservers lead from a state to a result and a state, by so many rounds
  -- and so many lookups in all; so many levels of nested resolution are left.
  pub data Leads
      : String → ℕ → ℕ → String → List NameServer → S → ℕ → ℕ → LookupResult → S → Type 0 where
    -- they answer
    answered :
        {name : String} {qtype levels : ℕ} {zone : String} {servers : List NameServer} {s s' : S}
        (r : LookupResult)
        → h.lookup name qtype zone servers s ≡ (ok r, s')
        → is_final r ≡ true
        → Leads name qtype levels zone servers s 1 1 r s'
    -- they refer to nameservers with glue, which lead on
    referred :
        {name : String} {qtype levels : ℕ} {zone : String} {servers : List NameServer} {s s' t : S}
        {n k : ℕ} {end : LookupResult} (r : LookupResult)
        → h.lookup name qtype zone servers s ≡ (ok r, s')
        → is_final r ≡ false
        → equal_fold (delegation_owner r.ns) zone ≡ false
        → is_empty (glue (unique_ns_names r.ns) r.extra) ≡ false
        → Leads name qtype levels
            (delegation_owner r.ns)
            (glue (unique_ns_names r.ns) r.extra)
            (h.trace
              (referral name qtype zone
                (delegation_owner r.ns)
                (length (glue (unique_ns_names r.ns) r.extra)))
              s')
            n
            k
            end
            t
        → Leads name qtype levels zone servers s (suc n) (suc k) end t
    -- they refer to nameservers without glue, and the first one's address is found from the root
    chased :
        {name : String} {qtype levels : ℕ} {zone : String} {servers : List NameServer}
        {s s' s'' t : S} {m j n k : ℕ} {end : LookupResult} (r found : LookupResult) (host : String)
        (hosts : List String)
        → h.lookup name qtype zone servers s ≡ (ok r, s')
        → is_final r ≡ false
        → equal_fold (delegation_owner r.ns) zone ≡ false
        → is_empty (glue (unique_ns_names r.ns) r.extra) ≡ true
        → unique_ns_names r.ns ≡ host ∷ hosts
        → Leads host type_a levels root_zone h.root_hints s' m j found s''
        → m ≤ max_hops
        → is_empty (addresses host found.answer) ≡ false
        → Leads name qtype
            (suc levels)
            (delegation_owner r.ns)
            (addresses host found.answer)
            (h.trace
              (referral name qtype zone
                (delegation_owner r.ns)
                (length (addresses host found.answer)))
              s'')
            n
            k
            end
            t
        → Leads name qtype (suc levels) zone servers s (suc n) (suc (j + k)) end t

  -- the resolver of nameservers' addresses at a level
  abbrev pub deeper : ℕ → Option (String → Run h LookupResult)
  deeper zero = none
  deeper (suc levels) = some (λ host. resolve_at h levels host type_a)

  pub resolve_at-walk :
      (levels : ℕ) (name : String) (qtype budget : ℕ) (s : S)
      → resolve_at h levels name qtype budget s
        ≡ walk h (deeper levels) name qtype max_hops root_zone h.root_hints budget s
  unfolding resolve_at
  resolve_at-walk zero name qtype budget s = refl
  resolve_at-walk (suc levels) name qtype budget s = refl

  module _ (d : Option (String → Run h LookupResult)) (name : String) (qtype : ℕ)
      (zone : String) where
    -- a round
    walk-lookup :
        (hops : ℕ) (servers : List NameServer) (budget : ℕ) (s : S) (a : Result LookupResult)
        (s' : S)
        → h.lookup name qtype zone servers s ≡ (a, s')
        → walk h d name qtype (suc hops) zone servers (suc budget) s
          ≡ after_lookup h d name qtype zone (walk h d name qtype hops) a budget s'
    unfolding walk
    walk-lookup hops servers budget s a s' e = rw e refl

    after_lookup-final :
        (again : String → List NameServer → Run h LookupResult) (r : LookupResult) (budget : ℕ)
        (s : S)
        → is_final r ≡ true
        → after_lookup h d name qtype zone again (ok r) budget s ≡ (ok r, budget, s)
    unfolding after_lookup is_final
    after_lookup-final again r budget s e = rw e refl

    after_lookup-referral :
        (again : String → List NameServer → Run h LookupResult) (r : LookupResult) (budget : ℕ)
        (s : S) (next : List NameServer) (budget' : ℕ) (s' : S)
        → is_final r ≡ false
        → equal_fold (delegation_owner r.ns) zone ≡ false
        → resolve_nameservers h d r.ns r.extra budget s ≡ (ok next, budget', s')
        → after_lookup h d name qtype zone again (ok r) budget s
          ≡ again
              (delegation_owner r.ns)
              next
              budget'
              (h.trace (referral name qtype zone (delegation_owner r.ns) (length next)) s')
    unfolding after_lookup follow_referral is_final
    after_lookup-referral again r budget s next budget' s' e f g = rw (e, f, g) refl

  resolve_nameservers-glue :
      (d : Option (String → Run h LookupResult)) (ns extra : List Rr) (budget : ℕ) (s : S)
      → is_empty (glue (unique_ns_names ns) extra) ≡ false
      → resolve_nameservers h d ns extra budget s
        ≡ (ok (glue (unique_ns_names ns) extra), budget, s)
  unfolding resolve_nameservers
  resolve_nameservers-glue d ns extra budget s e = rw e refl

  resolve_nameservers-chased :
      (resolve : String → Run h LookupResult) (ns extra : List Rr) (host : String)
      (hosts : List String) (budget : ℕ) (s : S) (found : LookupResult) (budget' : ℕ) (s' : S)
      → is_empty (glue (unique_ns_names ns) extra) ≡ true
      → unique_ns_names ns ≡ host ∷ hosts
      → resolve host budget s ≡ (ok found, budget', s')
      → is_empty (addresses host found.answer) ≡ false
      → resolve_nameservers h (some resolve) ns extra budget s
        ≡ (ok (addresses host found.answer), budget', s')
  unfolding resolve_nameservers chase_names on_resolved
  resolve_nameservers-chased resolve ns extra host hosts budget s found budget' s' e f g k =
      rw (e, f, g, k) refl

  pub walk-Leads :
      {name : String} {qtype levels : ℕ} {zone : String} {servers : List NameServer} {s t : S}
      {n k : ℕ} {r : LookupResult}
      → Leads name qtype levels zone servers s n k r t
      → (hops budget rest : ℕ) → n ≤ hops
      → budget ≡ k + rest
      → walk h (deeper levels) name qtype hops zone servers budget s ≡ (ok r, rest, t)
  walk-Leads (answered r e final) zero budget rest a b = absurd (omega arith)
  walk-Leads (answered r e final) (suc hops) zero rest a b = absurd (omega arith)
  walk-Leads {t} (answered r e final) (suc hops) (suc budget) rest a b =
      walk-lookup _ _ _ _ hops _ budget _ _ _ e
      ∙ after_lookup-final _ _ _ _ _ r budget _ final
      ∙ ap (λ left. (ok r, left, t)) (omega arith)
  walk-Leads (referred r e more new glued l) zero budget rest a b = absurd (omega arith)
  walk-Leads (referred r e more new glued l) (suc hops) zero rest a b = absurd (omega arith)
  walk-Leads (referred r e more new glued l) (suc hops) (suc budget) rest a b =
      walk-lookup _ _ _ _ hops _ budget _ _ _ e
      ∙ after_lookup-referral _ _ _ _ _ r budget _ _ _ _ more new
          (resolve_nameservers-glue _ r.ns r.extra budget _ glued)
      ∙ walk-Leads l hops budget rest (omega arith) (omega arith)
  walk-Leads (chased r found host hosts e more new bare named inner few there l) zero budget rest a
        b =
      absurd (omega arith)
  walk-Leads (chased r found host hosts e more new bare named inner few there l) (suc hops) zero
        rest a b =
      absurd (omega arith)
  walk-Leads {k} (chased {j} {k = k'} r found host hosts e more new bare named inner few there l)
        (suc hops) (suc budget) rest a b =
      walk-lookup _ _ _ _ hops _ budget _ _ _ e
      ∙ after_lookup-referral _ _ _ _ _ r budget _ _ (k' + rest) _ more new (
          resolve_nameservers-chased _ r.ns r.extra host hosts budget _ found (k' + rest) _ bare
            named
            (resolve_at-walk _ host type_a budget _
              ∙ walk-Leads inner max_hops budget (k' + rest) few (omega arith))
            there)
      ∙ walk-Leads l hops (k' + rest) rest (omega arith) refl
