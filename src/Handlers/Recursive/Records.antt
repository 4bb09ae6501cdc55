-- ===== src/Handlers/Recursive/Records.antt =====
-- The functions of handlers/recursive.go on records.
use cursedns.Prelude.{
  ℕ, zero, suc, String, Bool, true, false, not, ◌&&◌, ◌||◌, Option, none, some, List, [], ◌∷◌, ◌++◌,
  length, ◌==◌, nat_eq, string_eq, codes-Eq, if◌then◌else◌, equal_fold, to_lower,
}
use cursedns.Dns.{Rr, Rdata, is_ns, type_cname}
use cursedns.Resolver.Types.{Addr, NameServer, addr_from_slice}

-- the local copy of `hasNS`
unfoldable pub has_ns : List Rr → Bool
has_ns [] = false
has_ns (rr ∷ rrs) = is_ns rr.rdata || has_ns rrs

-- `delegationOwner`
unfoldable pub delegation_owner : List Rr → String
delegation_owner [] = ""
delegation_owner (rr ∷ rrs) = if is_ns rr.rdata then rr.name else delegation_owner rrs

abbrev pub ns_host : Rdata → Option String
ns_host (Rdata.ns host) = some host
ns_host _ = none

-- `seen[key]`, over the keys that were set
unfoldable pub is_seen : List ℕ → List (List ℕ) → Bool
is_seen key [] = false
is_seen key (k ∷ ks) = k == key || is_seen key ks

-- the loop of `uniqueNSNames`
unfoldable pub unique_from : List (List ℕ) → List Rr → List String
unique_from seen [] = []
unique_from seen (rr ∷ rrs) =
    let skip = unique_from seen rrs in
    elim (ns_host rr.rdata) [
      | none ↦ skip
      | some host ↦
          let key = to_lower host in
          let more = unique_from (key ∷ seen) rrs in if is_seen key seen then skip else host ∷ more
    ]

unfoldable pub unique_ns_names : List Rr → List String
unique_ns_names = unique_from []

-- the address of an A or AAAA record, if its length is right
abbrev pub address_of : Rdata → Option Addr
address_of (Rdata.a bytes) = addr_from_slice bytes
address_of (Rdata.aaaa bytes) = addr_from_slice bytes
address_of _ = none

-- the glue of one nameserver
unfoldable pub glue_for : String → List Rr → List NameServer
glue_for name [] = []
glue_for name (rr ∷ extra) =
    let more = glue_for name extra in
    if equal_fold rr.name name
    then elim (address_of rr.rdata) [
      | none ↦ more
      | some addr ↦ record { name = name; addr = addr } ∷ more
    ]
    else more

-- the first loops of `resolveNameservers`
unfoldable pub glue : List String → List Rr → List NameServer
glue [] extra = []
glue (name ∷ names) extra = glue_for name extra ++ glue names extra

abbrev pub a_address : Rdata → Option Addr
a_address (Rdata.a bytes) = addr_from_slice bytes
a_address _ = none

-- the A records of an answer, whatever their owner
unfoldable pub addresses : String → List Rr → List NameServer
addresses name [] = []
addresses name (rr ∷ answer) =
    let more = addresses name answer in
    elim (a_address rr.rdata) [
      | none ↦ more
      | some addr ↦ record { name = name; addr = addr } ∷ more
    ]

-- How the inner loop of `unresolvedCNAMETarget` ends: by its return, or with `found` and `cname`.
pub data Scan : Type 0 where
  hit : Scan
  missed : Bool → String → Scan

abbrev pub cname_or : String → Rdata → String
cname_or cname (Rdata.cname target) = target
cname_or cname _ = cname

unfoldable pub scan : String → ℕ → Bool → String → List Rr → Scan
scan expect qtype found cname [] = missed found cname
scan expect qtype found cname (rr ∷ answer) =
    let owned = equal_fold rr.name expect in
    let more =
      scan expect qtype (found || owned) (if owned then cname_or cname rr.rdata else cname)
        answer in
    if owned && rr.rrtype == qtype then hit else more

-- The outer loop: `moved` is `hops > 0`, and the fuel is the number of rounds left.
unfoldable pub chase : ℕ → Bool → String → ℕ → List Rr → String × Bool
chase zero moved expect qtype answer = ("", false)
chase (suc rounds) moved expect qtype answer = elim (scan expect qtype false "" answer) [
  | hit ↦ ("", false)
  | missed found cname ↦
      if not found
      then (expect, moved)
      else if cname == ""
      then ("", false)
      else chase rounds true cname qtype answer
]

-- `unresolvedCNAMETarget`
unfoldable pub unresolved_cname_target : List Rr → String → ℕ → String × Bool
unresolved_cname_target answer name qtype =
    if qtype == type_cname then ("", false) else chase (suc (length answer)) false name qtype answer
