-- ===== src/Handlers/Gemini/Limits.antt =====
-- How often `GeminiHandler.Handle` asks the model and the nameservers for one query.
use cursedns.Prelude.{ℕ, ◌+◌, ◌≤◌, arith}
use cursedns.Resolver.Types.{Query}
use cursedns.Resolver.Request.{Helper}
use cursedns.Handlers.Texts.{Texts}
use cursedns.Handlers.Gemini.{Client, GeminiHandler, settings, times}
use cursedns.Handlers.Gemini.Turns.{handle}
use cursedns.Handlers.Gemini.Rule.{handle_rule}

-- the calls made so far, of the model and of `Lookup`
pub record Counts (S : Type 0) : Type 0 where
  pub generated : ℕ
  pub looked_up : ℕ
  pub inner : S

abbrev pub counting_helper : {S : Type 0} → Helper S → Helper (Counts S)
counting_helper h = record {
  lookup = λ name qtype zone servers s.
      let (answered, inner) = h.lookup name qtype zone servers s.inner in
      (answered, record s { looked_up = s.looked_up + 1; inner = inner });
  root_hints = h.root_hints;
  trace = λ event s. record s { inner = h.trace event s.inner };
}

abbrev pub counting_client : {S : Type 0} → Client S → Client (Counts S)
counting_client c = record {
  generate = λ req s.
      let (answered, inner) = c.generate req s.inner in
      (answered, record s { generated = s.generated + 1; inner = inner });
  read_json = c.read_json;
}

abbrev pub uncounted : {S : Type 0} → S → Counts S
uncounted s = record { generated = 0; looked_up = 0; inner = s }

-- the calls made and those left
abbrev Within : {S : Type 0} → ℕ → ℕ → ℕ → ℕ → Counts S → Type 0
Within max_turns max_lookups turns lookups s =
    (s.generated + turns ≤ max_turns) × (s.looked_up + lookups ≤ max_lookups)

-- Whatever the model answers, one query asks it at most `MaxTurns` times and makes at most
-- `MaxTotalLookups` lookups, of which a zero stands for the default and a negative number for none.
pub handle-Limits :
    (texts : Texts) {S : Type 0} (helper : Helper S) (client : Client S) (h : GeminiHandler)
    (query : Query) (s : S)
    → let s' =
        (handle texts (counting_helper helper) (counting_client client) h query (uncounted s)).1 in
      (s'.generated ≤ times (settings h).max_turns)
      × (s'.looked_up ≤ times (settings h).max_total_lookups)
handle-Limits texts helper client h query s =
    let turns = times (settings h).max_turns in
    let lookups = times (settings h).max_total_lookups in
    let (t, l, kept) =
      handle_rule texts (counting_helper helper) (counting_client client) (Within turns lookups)
        (record {
          lookup_keeps = λ t l name qtype zone servers s' i. (i.0, omega (arith, i.1));
          generate_keeps = λ t l given s' i. (omega (arith, i.0), i.1);
          trace_keeps = λ t l event s' i. i;
          spare_keeps = λ t l s' i. (i.0, omega (arith, i.1));
        })
        h query (uncounted s) (omega arith, omega arith) in
    (omega (arith, kept.0), omega (arith, kept.1))
