-- ===== src/Handlers/Payload/Schema.antt =====
-- The constants of handlers/gemini.go that tell the model what to write: the prompt, and the schema
-- of its responses. `Conforms` says what a schema of the API allows.
pub mod Reads
pub mod Responses
use Prim.Native.String.{◌++◌ as str_append}
use cursedns.Prelude.{String, List, [], ◌∷◌, In, All, map}
use cursedns.Prelude.Json.{Json, text, array, object, Items, Members, items, members}

-- `genai.Schema`: a text, one of the texts of an enumeration if it has any, an array, or an object
-- with the members that it must have. The first text of each is its description.
mutual
  pub data Schema : Type 0 where
    text_of : String → List String → Schema
    array_of : String → Schema → Schema
    object_of : String → Properties → List String → Schema

  pub data Properties : Type 0 where
    no_property : Properties
    property : String → Schema → Properties → Properties

-- the schema of a property
pub data Has (name : String) (s : Schema) : Properties → Type 0 where
  first : {ps : Properties} → Has name s (property name s ps)
  later :
      {other : String} {t : Schema} {ps : Properties}
      → Has name s ps
      → Has name s (property other t ps)

abbrev pub keys : List (String × Json) → List String
keys = map (λ m. m.0)

-- a value that a schema allows; an object has no members but its properties
mutual
  pub data Conforms : Schema → Json → Type 0 where
    any_text : {d s : String} → Conforms (text_of d []) (text s)
    one_of :
        {d c s : String} {cs : List String} → In s (c ∷ cs) → Conforms (text_of d (c ∷ cs)) (text s)
    an_array :
        {d : String} {s : Schema} {vs : Items}
        → AllConform s (items vs)
        → Conforms (array_of d s) (array vs)
    an_object :
        {d : String} {ps : Properties} {required : List String} {ms : Members}
        → Fit ps (members ms)
        → All (λ name. In name (keys (members ms))) required
        → Conforms (object_of d ps required) (object ms)

  pub data AllConform : Schema → List Json → Type 0 where
    none_left : {s : Schema} → AllConform s []
    also :
        {s : Schema} {v : Json} {vs : List Json}
        → Conforms s v
        → AllConform s vs
        → AllConform s (v ∷ vs)

  pub data Fit : Properties → List (String × Json) → Type 0 where
    no_more : {ps : Properties} → Fit ps []
    fits :
        {ps : Properties} {name : String} {s : Schema} {v : Json} {ms : List (String × Json)}
        → Has name s ps
        → Conforms s v
        → Fit ps ms
        → Fit ps ((name, v) ∷ ms)

abbrev pub any : String → Schema
any description = text_of description []

-- `geminiResponseSchema`
abbrev pub actions : List String
actions = "answer" ∷ "error" ∷ "lookup" ∷ []

abbrev pub answer_properties : Properties
answer_properties = property "rcode" (any "DNS response code, e.g. \"NOERROR\" or \"NXDOMAIN\".") (
    property "records"
      (array_of
        "Answer records in standard zone-file text, e.g. \"example.com. 300 IN A 93.184.216.34\"."
        (any ""))
      no_property)

abbrev pub request_properties : Properties
request_properties =
    property "name" (any "Fully-qualified name to look up, e.g. \"example.com.\".") (
      property "qtype"
        (any "DNS record type to look up, e.g. \"A\", \"AAAA\", \"NS\", \"MX\", \"CNAME\".")
        (property "zone"
          (any
            "The zone the given nameservers are trusted to answer for, e.g. \".\" for root or \"example.com.\" for a delegation you've already observed.")
          (property "nameservers"
            (array_of
              "Nameservers to query, in order. Each entry is either the literal \"root\" (query the root nameservers - use zone \".\"), or \"host@ip\" naming a specific nameserver you learned about from a previous lookup's ns/extra records."
              (any ""))
            no_property)))

abbrev pub request_schema : Schema
request_schema = object_of "" request_properties ("name" ∷ "qtype" ∷ "zone" ∷ "nameservers" ∷ [])

abbrev pub response_properties : Properties
response_properties =
    property "rationale" (any "A terse, one-sentence explanation for this action.") (
      property "action" (text_of "" actions) (
        property "answer"
          (object_of "Present only when action is \"answer\"." answer_properties ("rcode" ∷ []))
          (property "error"
            (any
              "Present only when action is \"error\": a short message explaining why the query cannot be resolved.")
            (property "lookups" (array_of "Present only when action is \"lookup\"." request_schema)
              no_property))))

abbrev pub response_schema : Schema
response_schema = object_of "" response_properties ("rationale" ∷ "action" ∷ [])

unfoldable pub join_all : List String → String
join_all [] = ""
join_all (s ∷ ss) = str_append s (join_all ss)

-- `geminiSystemPrompt`
unfoldable pub system_prompt : String
system_prompt = join_all (
    "You are the resolution engine for a recursive DNS server. You will be given, as"
    ∷ " JSON, the DNS question being resolved and the results of every lookup performed so"
    ∷ " far. Your job is to decide the next step and respond with JSON matching the"
    ∷ " required schema.\n" ∷ "\n" ∷ "On each turn, choose exactly one action:\n"
    ∷ "  - \"lookup\": request one or more nameserver lookups needed before you can answer."
    ∷ " Each lookup names a (name, qtype) to query, the zone the given nameservers are"
    ∷ " trusted to answer for, and the nameservers to query (either \"root\", or specific"
    ∷ " \"host@ip\" addresses you learned about from a previous lookup's ns/extra sections)."
    ∷ " Only ever assert a zone you have genuine evidence for from a previous lookup's ns"
    ∷ " records (or \".\" for root) - never widen the zone beyond what a real delegation has"
    ∷ " shown you, even if a response seems to suggest otherwise.\n"
    ∷ "  - \"answer\": you have enough information to answer the original question. Give the"
    ∷ " final rcode and any answer records, in standard zone-file text.\n"
    ∷ "  - \"error\": resolution cannot proceed (e.g. every nameserver failed, or the"
    ∷ " delegation chain is broken).\n" ∷ "\n"
    ∷ "Always include a terse, one-sentence rationale for your choice. Be economical with"
    ∷ " lookups and turns: you have a limited budget of both, given to you each turn as"
    ∷ " \"budget\", and must produce an answer or error before any of it runs out."
    ∷ " \"budget.turns_remaining\" and \"budget.token_budget_remaining\" bound how many more"
    ∷ " turns and tokens you have left in total. \"budget.lookups_remaining\" bounds the"
    ∷ " total number of individual lookups you may still request across all remaining turns"
    ∷ " combined - each entry in a \"lookup\" action's list counts against it."
    ∷ " \"budget.max_lookups_per_turn\" caps how many lookups a single turn's \"lookup\" action"
    ∷ " may request at once; requesting more than that in one turn fails the request"
    ∷ " outright, so batch lookups conservatively and check lookups_remaining before asking"
    ∷ " for more than you need." ∷ [])
