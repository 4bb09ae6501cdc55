-- ===== src/Resolver/TraceStore/Ids.antt =====
-- `newTraceID` of resolver/trace.go, with `hex.EncodeToString`: the IDs of requests.
use Prim.Native.Char.{Char, code}
use cursedns.Prelude.{
  ℕ, zero, suc, ◌+◌, ◌-◌, ◌*◌, ◌/◌, ◌%◌, ◌<◌, String, ◌≡◌, ◌≢◌, refl, sym, ap, ◌∙◌, subst, ltb,
  List, [], ◌∷◌, length, All, if◌then◌else◌, arith,
}
use cursedns.Resolver.Types.{generate_trace_id, Result, ok, err}

unfoldable pub char_at : String → ℕ → Char
char_at String.[] n = "0"
char_at (String.◌∷◌ c s) zero = c
char_at (String.◌∷◌ c s) (suc n) = char_at s n

unfoldable pub hex_digit : ℕ → Char
hex_digit n = char_at "0123456789abcdef" n

-- `hex.EncodeToString`
unfoldable pub encode_to_string : List ℕ → String
encode_to_string [] = String.[]
encode_to_string (b ∷ bs) =
    String.◌∷◌ (hex_digit (b / 16)) (String.◌∷◌ (hex_digit (b % 16)) (encode_to_string bs))

-- `newTraceID`, from what `rand.Read` gives
unfoldable pub new_trace_id : Result (List ℕ) → Result String
new_trace_id (err e) = err (generate_trace_id e)
new_trace_id (ok raw) = ok (encode_to_string raw)

-- All of it, to be named on one `unfolding` line where a run is computed.
unfoldable pub id_program : Unit {0}
unfolding char_at hex_digit encode_to_string new_trace_id
id_program = tt

-- the value of a digit, and the bytes that a text stands for
value : Char → ℕ
value c = if ltb (code c) 58 then code c - 48 else code c - 87

decode : String → List ℕ
decode String.[] = []
decode (String.◌∷◌ c String.[]) = []
decode (String.◌∷◌ c (String.◌∷◌ d s)) = (value c * 16 + value d) ∷ decode s

value-hex_digit : (n : ℕ) → n < 16 → value (hex_digit n) ≡ n
unfolding value hex_digit char_at
value-hex_digit zero h = refl
value-hex_digit (suc zero) h = refl
value-hex_digit (suc (suc zero)) h = refl
value-hex_digit (suc (suc (suc zero))) h = refl
value-hex_digit (suc (suc (suc (suc zero)))) h = refl
value-hex_digit (suc (suc (suc (suc (suc zero))))) h = refl
value-hex_digit (suc (suc (suc (suc (suc (suc zero)))))) h = refl
value-hex_digit (suc (suc (suc (suc (suc (suc (suc zero))))))) h = refl
value-hex_digit (suc (suc (suc (suc (suc (suc (suc (suc zero)))))))) h = refl
value-hex_digit (suc (suc (suc (suc (suc (suc (suc (suc (suc zero))))))))) h = refl
value-hex_digit (suc (suc (suc (suc (suc (suc (suc (suc (suc (suc zero)))))))))) h = refl
value-hex_digit (suc (suc (suc (suc (suc (suc (suc (suc (suc (suc (suc zero))))))))))) h = refl
value-hex_digit (suc (suc (suc (suc (suc (suc (suc (suc (suc (suc (suc (suc zero)))))))))))) h =
    refl
value-hex_digit (suc (suc (suc (suc (suc (suc (suc (suc (suc (suc (suc (suc (suc zero)))))))))))))
      h =
    refl
value-hex_digit
      (suc (suc (suc (suc (suc (suc (suc (suc (suc (suc (suc (suc (suc (suc zero)))))))))))))) h =
    refl
value-hex_digit
      (suc (suc (suc (suc (suc (suc (suc (suc (suc (suc (suc (suc (suc (suc (suc zero)))))))))))))))
      h =
    refl
value-hex_digit
      (suc
        (suc (suc (suc (suc (suc (suc (suc (suc (suc (suc (suc (suc (suc (suc (suc n))))))))))))))))
      h =
    absurd (omega (arith, h))

decode-encode_to_string : (bs : List ℕ) → All (λ b. b < 256) bs → decode (encode_to_string bs) ≡ bs
unfolding decode encode_to_string
decode-encode_to_string [] fit = refl
decode-encode_to_string (b ∷ bs) (small, fit) =
    ap (λ c. c ∷ decode (encode_to_string bs))
      (omega (
        arith,
        value-hex_digit (b / 16) (omega (arith, small)),
        value-hex_digit (b % 16) (omega arith),
      ))
    ∙ ap (λ cs. b ∷ cs) (decode-encode_to_string bs fit)

id_of : Result String → String
id_of (err e) = ""
id_of (ok id) = id

-- the server takes an ID for one where it is not empty
IsId : String → Type 0
IsId String.[] = ⊥
IsId (String.◌∷◌ c s) = Unit

new_trace_id-nonempty : (raw : List ℕ) → length raw ≡ 16 → new_trace_id (ok raw) ≢ ok ""
unfolding new_trace_id id_of encode_to_string IsId
new_trace_id-nonempty [] n e = absurd (omega (arith, n))
new_trace_id-nonempty (b ∷ bs) n e = subst (λ r. IsId (id_of r)) e tt

-- Two IDs, each of 16 random bytes, are equal only where the bytes were; and no ID is empty, which
-- is how the server tells that there is none.
new_trace_id-injective :
    (raw others : List ℕ)
    → All (λ b. b < 256) raw
    → All (λ b. b < 256) others
    → length raw ≡ 16
    → new_trace_id (ok raw) ≡ new_trace_id (ok others)
    → (raw ≡ others) × (new_trace_id (ok raw) ≢ ok "")
unfolding new_trace_id id_of
new_trace_id-injective raw others a b n e = (
  sym (decode-encode_to_string raw a)
      ∙ ap (λ r. decode (id_of r)) e
      ∙ decode-encode_to_string others b,
  new_trace_id-nonempty raw n,
)
