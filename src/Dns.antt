-- ===== src/Dns.antt =====
-- What the program uses of github.com/miekg/dns: the shape of records and messages, the numbers of
-- types and codes, and its functions on names as a parameter.
pub mod Names
use cursedns.Prelude.{ℕ, String, Bool, true, false, List, []}

-- `dns.RR_Header`, less the wire length
pub record Header : Type 0 where
  pub name : String
  pub rrtype : ℕ
  pub class : ℕ
  pub ttl : ℕ

-- The dynamic type behind a `dns.RR`, as far as the type switches tell it: an address is its bytes,
-- an SOA record its MINIMUM field, and `other` any further type.
pub data Rdata : Type 0 where
  a aaaa : List ℕ → Rdata
  ns cname : String → Rdata
  soa : ℕ → Rdata
  txt : List String → Rdata
  other : List ℕ → Rdata

pub record Rr : Type 0 where
  pub hdr : Header
  pub open hdr use *
  pub rdata : Rdata

-- `dns.Question`
pub record Question : Type 0 where
  pub name : String
  pub qtype : ℕ
  pub qclass : ℕ

-- `dns.Msg`, as far as the program reads or writes it
pub record Msg : Type 0 where
  pub id : ℕ
  pub response : Bool
  pub authoritative : Bool
  pub recursion_desired : Bool
  pub recursion_available : Bool
  pub rcode : ℕ
  pub question : List Question
  pub answer : List Rr
  pub ns : List Rr
  pub extra : List Rr

abbrev pub type_a : ℕ
type_a = 1

abbrev pub type_ns : ℕ
type_ns = 2

abbrev pub type_cname : ℕ
type_cname = 5

abbrev pub type_txt : ℕ
type_txt = 16

abbrev pub type_aaaa : ℕ
type_aaaa = 28

abbrev pub class_inet : ℕ
class_inet = 1

abbrev pub rcode_success : ℕ
rcode_success = 0

abbrev pub rcode_format_error : ℕ
rcode_format_error = 1

abbrev pub rcode_server_failure : ℕ
rcode_server_failure = 2

abbrev pub rcode_name_error : ℕ
rcode_name_error = 3

abbrev pub rcode_refused : ℕ
rcode_refused = 5

-- `rr.(*dns.NS)` succeeds
abbrev pub is_ns : Rdata → Bool
is_ns (ns _) = true
is_ns _ = false
