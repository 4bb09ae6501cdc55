-- ===== src/Resolver/Types.antt =====
-- resolver/types.go, and the types of resolver/helper.go that handlers see.
use cursedns.Prelude.{
  ◌≡◌, refl, inl, inr, ◌⊎◌, ℕ, String, List, Option, none, some, ◌==◌, if◌then◌else◌, ◌||◌, length,
  nat_eq,
}
use cursedns.Dns.{Rr}

-- `netip.Addr`: the bytes of a valid address
abbrev pub Addr : Type 0
Addr = List ℕ

-- `netip.AddrFromSlice`: four bytes or sixteen
unfoldable pub addr_from_slice : List ℕ → Option Addr
addr_from_slice bytes = if length bytes == 4 || length bytes == 16 then some bytes else none

pub data Protocol : Type 0 where
  udp tcp : Protocol

pub record Query : Type 0 where
  pub id : ℕ
  pub name : String
  pub qtype : ℕ
  pub class : ℕ
  pub client_addr : Addr × ℕ
  pub protocol : Protocol

pub record Response : Type 0 where
  pub rcode : ℕ
  pub answer : List Rr
  pub ns : List Rr
  pub extra : List Rr

pub record NameServer : Type 0 where
  pub name : String
  pub addr : Addr

pub record LookupResult : Type 0 where
  pub rcode : ℕ
  pub answer : List Rr
  pub ns : List Rr
  pub extra : List Rr

-- The errors of the program, a constructor for each text. An error of another package, such as a
-- network error or the error of a context, is `external`; a nil error that a text wraps is `nil`.
pub data Error : Type 0 where
  nil : Error
  external : String → Error
  -- `requestHelper.Lookup`
  no_nameservers : String → ℕ → Error
  all_failed : String → ℕ → Error → Error
  -- `RecursiveHandler.Handle` and what it calls
  exceeded_restarts : String → ℕ → Error
  exceeded_budget : String → ℕ → Error
  no_progress : String → ℕ → String → Error
  bad_referral : String → ℕ → String → Error → Error
  exceeded_hops : String → ℕ → Error
  glue_too_deep : List String → Error
  unresolved_nameservers : List String → Error → Error
  -- `parseNameServer`, and what callers make of names and texts that they do not know
  invalid_name_server : String → Error → Error
  unknown_query_type unknown_rcode : String → Error
  -- `InteractiveHandler.Handle` and what it calls
  operator_busy reading_command : Error
  usage operator_failed : String → Error
  unknown_command : List ℕ → Error
  invalid_record lookup_failed : Error → Error
  -- `GeminiHandler.Handle` and what it calls
  generate_content : Error → Error
  exceeded_token_budget : ℕ → ℕ → Error
  empty_response : Error
  blocked : String → Error
  parse_model_response : Error → Error
  reported_nothing no_lookups no_answer : Error
  reported : String → Error
  too_many_lookups : ℕ → ℕ → Error
  exceeded_lookup_budget : ℕ → Error
  unknown_action : String → Error
  exceeded_turns : ℕ → Error
  invalid_answer_record : String → Error → Error
  -- `run` of main.go
  invalid_trace_capacity : ℕ → Error
  invalid_static_ipv4 invalid_static_ipv6 creating_gemini_client : Error → Error
  unknown_handler : String → Error
  -- `newTraceID`
  generate_trace_id : Error → Error
  -- the HTTP listener
  listen_http : String → Error → Error
  -- `Server.ListenAndServe`
  no_handler no_listen_address : Error
  listen_failed : String → String → Error → Error

pub data Result {ℓ} (A : Type ℓ) : Type ℓ where
  ok : A → Result A
  err : Error → Result A

pub Result-cases {ℓ} :
    {A : Type ℓ} (r : Result A) → ((a : A) × (r ≡ ok a)) ⊎ ((e : Error) × (r ≡ err e))
Result-cases (ok a) = inl (a, refl)
Result-cases (err e) = inr (e, refl)

-- The lines that `Trace` is called with, a constructor for each format.
pub data Event : Type 0 where
  cache_hit : String → ℕ → Event
  negative_cache_hit : String → ℕ → ℕ → Event
  cache_miss : String → ℕ → ℕ → Event
  query_failed : NameServer → Error → Event
  query_returned : NameServer → ℕ → ℕ → ℕ → ℕ → Event
  discarded : ℕ → NameServer → Event
  caching_nxdomain : String → ℕ → Event
  caching_nodata : String → ℕ → ℕ → Event
  restarting : String → Event
  referral : String → ℕ → String → String → ℕ → Event
  static_answering : String → ℕ → Event
  no_static_answer : ℕ → Event
  gemini_turn : ℕ → ℕ → ℕ → ℕ → Event
  gemini_action : ℕ → ℕ → String → String → Event
  operator_note : String → Event
