-- ===== src/Samples/Models.antt =====
-- A model that asks for one more lookup at each turn, and the texts that it is read by.
use cursedns.Prelude.{Bool, true, false, ℕ, suc, String, none, some, [], ◌∷◌, if◌then◌else◌}
use cursedns.Prelude.Json.{Json, null, text, array, object, no_item, member, to_items, to_members}
use cursedns.Dns.{type_a}
use cursedns.Resolver.Types.{err, ok, external}
use cursedns.Resolver.Request.{State, Helper}
use cursedns.Handlers.Texts.{Texts}
use cursedns.Handlers.Payload.{LookupRequest, TurnResponse}
use cursedns.Handlers.Gemini.{Client, GeminiHandler}
use cursedns.Samples.Network.{root_addr, web_a}

abbrev pub texts : Texts
texts = record {
  string_to_type = λ codes. some type_a;
  string_to_rcode = λ codes. some 0;
  type_to_string = λ n. "A";
  class_to_string = λ n. "IN";
  rcode_to_string = λ n. "NOERROR";
  new_rr = λ s. err (external "bad record");
  rr_to_string = λ rr. "record";
  parse_addr = λ s. ok root_addr;
  fqdn = λ s. s;
  error_text = λ e. "error";
}

abbrev pub one_lookup : LookupRequest
one_lookup = record {
  name = "www.example.com.";
  qtype = "a";
  zone = ".";
  nameservers = some ("ROOT" ∷ []);
}

abbrev pub lookup_json : Json
lookup_json = object (
    to_members (
      ("name", text "www.example.com.")
      ∷ ("qtype", text "a")
      ∷ ("zone", text ".")
      ∷ ("nameservers", array (to_items (text "ROOT" ∷ [])))
      ∷ []))

-- a response in JSON, with an answer and a lookup
abbrev pub reply : String → Json
reply action = object (
    to_members (
      ("rationale", text "")
      ∷ ("action", text action)
      ∷ (
        "answer",
        object (to_members (("rcode", text "noerror") ∷ ("records", array no_item) ∷ [])),
      )
      ∷ ("lookups", array (to_items (lookup_json ∷ [])))
      ∷ []))

abbrev pub curious : Client (State ℕ)
curious = record {
  generate =
      λ req s. (ok (record { total_token_count = some 100; text = "{}"; block_reason = none }), s);
  read_json = λ codes. ok (reply "lookup");
}

abbrev pub three_lookups : GeminiHandler
three_lookups = record {
  model = "gemini-2.5-flash";
  max_turns = 0;
  max_token_budget = 0;
  max_lookups_per_turn = 0;
  max_total_lookups = 3;
}

-- a helper that counts its lookups, all of which find the same record
abbrev pub counter : Helper ℕ
counter = record {
  lookup = λ name qtype zone servers n.
      (ok (record { rcode = 0; answer = web_a ∷ []; ns = []; extra = [] }), suc n);
  root_hints = [];
  trace = λ event n. n;
}

abbrev pub decided_response : String → TurnResponse
decided_response action = record {
  rationale = "";
  action = action;
  answer = some (record { rcode = "noerror"; records = [] });
  error = "";
  lookups = one_lookup ∷ [];
}

-- whether the input of a turn has no history
abbrev pub is_first : Json → Bool
is_first (object (member _ _ (member _ null _))) = true
is_first _ = false

-- a model that asks for a lookup, and answers once it has seen its result
abbrev pub decided : Client ℕ
decided = record {
  generate = λ req n. (
    ok (record {
      total_token_count = some 100;
      text = if is_first req.contents then "lookup" else "answer";
      block_reason = none;
    }),
    n,
  );
  read_json = λ codes. ok (reply codes);
}
