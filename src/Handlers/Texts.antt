-- ===== src/Handlers/Texts.antt =====
-- What an operator or a model writes: nameservers (`parseNameServer` of handlers/interactive.go,
-- `geminiResolveNameservers` of handlers/gemini.go), types, codes and records as texts.
use Prim.Native.Char.{code}
use cursedns.Prelude.{
  ℕ, String, Option, none, some, List, [], ◌∷◌, ◌++◌, equal_fold, nat_beq, if◌then◌else◌,
}
use cursedns.Dns.{Rr}
use cursedns.Resolver.Types.{Addr, NameServer, Error, invalid_name_server, Result, ok, err}

-- What the handlers use of miekg/dns and net/netip to read and write texts, and the texts of errors.
pub record Texts : Type 0 where
  -- `dns.StringToType`, `dns.StringToRcode` at the code points of a text
  pub string_to_type : List ℕ → Option ℕ
  pub string_to_rcode : List ℕ → Option ℕ
  pub type_to_string : ℕ → String
  pub class_to_string : ℕ → String
  pub rcode_to_string : ℕ → String
  -- `dns.NewRR`, and `String` of a record
  pub new_rr : String → Result Rr
  pub rr_to_string : Rr → String
  -- `netip.ParseAddr`
  pub parse_addr : String → Result Addr
  pub fqdn : String → String
  -- `Error` of an error
  pub error_text : Error → String

-- `strings.Cut(s, "@")`
unfoldable pub cut_at : String → Option (String × String)
cut_at String.[] = none
cut_at (String.◌∷◌ c s) = elim (cut_at s) [
  | none ↦ if nat_beq (code c) b'@' then some (String.[], s) else none
  | some r ↦ if nat_beq (code c) b'@' then some (String.[], s) else some (String.◌∷◌ c r.0, r.1)
]

module _ (texts : Texts) where
  -- the host and the address of a token
  unfoldable pub host_and_addr : String → String × String
  host_and_addr tok = elim (cut_at tok) [ none ↦ (tok, tok) | some parts ↦ parts ]

  unfoldable pub name_server_of : String → String → Result Addr → Result NameServer
  name_server_of tok host (err e) = err (invalid_name_server tok e)
  name_server_of tok host (ok addr) = ok (record { name = texts.fqdn host; addr = addr })

  -- `parseNameServer`
  unfoldable pub parse_name_server : String → Result NameServer
  parse_name_server tok =
      let (host, addr) = host_and_addr tok in name_server_of tok host (texts.parse_addr addr)

  -- one token and those after it
  unfoldable pub add_servers : List NameServer → Result (List NameServer) → Result (List NameServer)
  add_servers found (err e) = err e
  add_servers found (ok out) = ok (found ++ out)

  unfoldable pub with_server :
      Result NameServer → Result (List NameServer) → Result (List NameServer)
  with_server (err e) rest = err e
  with_server (ok ns) rest = add_servers (ns ∷ []) rest

  -- `geminiResolveNameservers`: the first token that is refused ends it
  unfoldable pub resolve_tokens : List NameServer → List String → Result (List NameServer)
  resolve_tokens roots [] = ok []
  resolve_tokens roots (tok ∷ tokens) =
      let rest = resolve_tokens roots tokens in
      if equal_fold tok "root"
      then add_servers roots rest
      else with_server (parse_name_server tok) rest
