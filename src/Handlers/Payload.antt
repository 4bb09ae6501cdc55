-- ===== src/Handlers/Payload.antt =====
-- What `GeminiHandler` of handlers/gemini.go writes to the model and reads from it in a turn. The
-- names of the fields in JSON are in Payload/Marshal and Payload/Unmarshal.
pub mod Marshal
pub mod Unmarshal
pub mod Schema
pub mod Requests
use cursedns.Prelude.{ℕ, String, Option, none, some, List, []}

pub record LookupRequest : Type 0 where
  pub name : String
  pub qtype : String
  pub zone : String
  -- `none` is a nil slice
  pub nameservers : Option (List String)

pub record ResultView : Type 0 where
  pub rcode : String
  pub answer : List String
  pub ns : List String
  pub extra : List String

pub record LookupRecord : Type 0 where
  pub request : LookupRequest
  pub view : Option ResultView
  pub error : String

pub record QueryInfo : Type 0 where
  pub name : String
  pub qtype : String
  pub class : String

pub record Budget : Type 0 where
  pub turns_remaining : ℕ
  pub token_budget_remaining : ℕ
  pub lookups_remaining : ℕ
  pub max_lookups_per_turn : ℕ

pub record TurnInput : Type 0 where
  pub query : QueryInfo
  pub lookups_so_far : List LookupRecord
  pub budget : Budget

pub record Answer : Type 0 where
  pub rcode : String
  pub records : List String

pub record TurnResponse : Type 0 where
  pub rationale : String
  pub action : String
  pub answer : Option Answer
  pub error : String
  pub lookups : List LookupRequest

-- the strings of a slice
abbrev pub slice : Option (List String) → List String
slice none = []
slice (some ss) = ss
