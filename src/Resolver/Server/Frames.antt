-- ===== src/Resolver/Server/Frames.antt =====
-- `serveTCPConn` of resolver/server.go: messages behind two bytes of length on a TCP connection. The
-- bytes are those that arrive before the client closes or is idle for too long.
use cursedns.Prelude.{
  subst, inl, inr, Option-cases, ℕ, zero, suc, ◌+◌, ◌*◌, ◌/◌, ◌%◌, ◌^◌, ◌≤◌, ◌<◌, ◌≡◌, refl, Option,
  none, some, List, [], ◌∷◌, ◌++◌, length, length-append, ◌∙◌, All, arith,
}
use cursedns.Resolver.Types.{Addr, tcp}
use cursedns.Resolver.Server.{Wire, Host, ServerState, handle_message}

-- `io.ReadFull` into a buffer of `n` bytes: these, and what is left
unfoldable pub read_full : ℕ → List ℕ → Option (List ℕ × List ℕ)
read_full zero bytes = some ([], bytes)
read_full (suc n) [] = none
read_full (suc n) (b ∷ bytes) = elim (read_full n bytes) [
  | none ↦ none
  | some r ↦ some (b ∷ r.0, r.1)
]

-- `binary.BigEndian.Uint16`
unfoldable pub uint16 : List ℕ → ℕ
uint16 (hi ∷ lo ∷ _) = hi * 256 + lo
uint16 _ = 0

-- `respond` on a connection: `PutUint16` of the length, which a uint16 holds, and the message
unfoldable pub frame : List ℕ → List ℕ
frame msg = let n = length msg % 2 ^ 16 in n / 256 % 256 ∷ n % 256 ∷ msg

unfoldable pub frames : List (List ℕ) → List ℕ
unfolding frame
frames [] = []
frames (msg ∷ msgs) = frame msg ++ frames msgs

module _ {S : Type 0} (wire : Wire) (host : Host S) (client : Addr × ℕ) where
  -- the loop; a pass reads two bytes at least
  unfoldable pub serve_from : ℕ → List ℕ → ServerState S → ServerState S
  serve_from zero bytes s = s
  serve_from (suc fuel) bytes s = elim (read_full 2 bytes) [
    | none ↦ s
    | some len ↦ elim (read_full (uint16 len.0) len.1) [
      | none ↦ s
      | some msg ↦ serve_from fuel msg.1 (handle_message wire host tcp client msg.0 s)
    ]
  ]

  -- `serveTCPConn`
  unfoldable pub serve_tcp_conn : List ℕ → ServerState S → ServerState S
  serve_tcp_conn bytes = serve_from (suc (length bytes)) bytes

  -- the messages handled one after the other
  unfoldable pub handle_all : List (List ℕ) → ServerState S → ServerState S
  handle_all [] s = s
  handle_all (msg ∷ msgs) s = handle_all msgs (handle_message wire host tcp client msg s)

read_full-append : (msg rest : List ℕ) → read_full (length msg) (msg ++ rest) ≡ some (msg, rest)
unfolding read_full
read_full-append [] rest = refl
read_full-append (b ∷ msg) rest = rw (read_full-append msg rest) refl

-- what is read and what is left make up the bytes
abbrev Fits : ℕ → List ℕ → Option (List ℕ × List ℕ) → Type 0
Fits n bytes none = Unit
Fits n bytes (some r) = length r.1 + n ≡ length bytes

Fits-cons :
    (n b : ℕ) (bytes : List ℕ) (o : Option (List ℕ × List ℕ))
    → Fits n bytes o
    → Fits (suc n) (b ∷ bytes) (elim o [ none ↦ none | some r ↦ some (b ∷ r.0, r.1) ])
Fits-cons n b bytes none h = tt
Fits-cons n b bytes (some r) h = omega (arith, h)

read_full-Fits : (n : ℕ) (bytes : List ℕ) → Fits n bytes (read_full n bytes)
unfolding read_full
read_full-Fits zero bytes = omega arith
read_full-Fits (suc n) [] = tt
read_full-Fits (suc n) (b ∷ bytes) =
    Fits-cons n b bytes (read_full n bytes) (read_full-Fits n bytes)

length-read_full :
    (n : ℕ) (bytes : List ℕ) (r : List ℕ × List ℕ)
    → read_full n bytes ≡ some r
    → length r.1 + n ≡ length bytes
length-read_full n bytes r h = subst (Fits n bytes) h (read_full-Fits n bytes)

uint16-frame :
    (msg : List ℕ) (rest : List ℕ)
    → length msg < 2 ^ 16
    → uint16 (length msg % 2 ^ 16 / 256 % 256 ∷ length msg % 2 ^ 16 % 256 ∷ []) ≡ length msg
unfolding uint16
uint16-frame msg rest h = omega arith

length-frames : (msgs : List (List ℕ)) → length msgs ≤ length (frames msgs)
unfolding frames frame
length-frames [] = omega arith
length-frames (msg ∷ msgs) = omega (arith, length-frames msgs, length-append msg (frames msgs))

module _ {S : Type 0} (wire : Wire) (host : Host S) (client : Addr × ℕ) where
  -- The loop on a connection ends on every input: any fuel above the number of bytes has the same
  -- result.
  pub serve_from-fuel :
      (f g : ℕ) (bytes : List ℕ) (s : ServerState S)
      → length bytes < f
      → length bytes < g
      → serve_from wire host client f bytes s ≡ serve_from wire host client g bytes s
  unfolding serve_from
  serve_from-fuel zero g bytes s h k = absurd (omega arith)
  serve_from-fuel (suc f) zero bytes s h k = absurd (omega arith)
  serve_from-fuel (suc f) (suc g) bytes s h k = elim (Option-cases (read_full 2 bytes)) [
    | inl short ↦ rw (short, serve_from) refl
    | inr (len, got) ↦ elim (Option-cases (read_full (uint16 len.0) len.1)) [
      | inl short ↦ rw (got, short, serve_from) refl
      | inr (msg, whole) ↦
          let two = length-read_full 2 bytes len got in
          let rest = length-read_full (uint16 len.0) len.1 msg whole in
          rw (got, whole, serve_from)
            (serve_from-fuel f g msg.1 (handle_message wire host tcp client msg.0 s)
              (omega (arith, two, rest)) (omega (arith, two, rest)))
    ]
  ]

  -- a pass that reads a whole message
  serve_from-step :
      (fuel hi lo n : ℕ) (rest msg more : List ℕ) (s : ServerState S)
      → uint16 (hi ∷ lo ∷ []) ≡ n
      → read_full n rest ≡ some (msg, more)
      → serve_from wire host client (suc fuel) (hi ∷ lo ∷ rest) s
        ≡ serve_from wire host client fuel more (handle_message wire host tcp client msg s)
  unfolding serve_from read_full
  serve_from-step fuel hi lo n rest msg more s h k = rw (h, k, serve_from) refl

  serve_from-frames :
      (fuel : ℕ) (msgs : List (List ℕ)) (s : ServerState S)
      → All (λ msg. length msg < 2 ^ 16) msgs
      → length msgs ≤ fuel
      → serve_from wire host client fuel (frames msgs) s ≡ handle_all wire host client msgs s
  unfolding handle_all frames frame serve_from read_full
  serve_from-frames zero [] s h k = refl
  serve_from-frames (suc fuel) [] s h k = refl
  serve_from-frames zero (msg ∷ msgs) s h k = absurd (omega arith)
  serve_from-frames (suc fuel) (msg ∷ msgs) s h k =
      let n = length msg % 2 ^ 16 in
      serve_from-step fuel (n / 256 % 256) (n % 256) (length msg) (msg ++ frames msgs) msg
        (frames msgs) s (uint16-frame msg [] h.0) (read_full-append msg (frames msgs))
      ∙ serve_from-frames fuel msgs (handle_message wire host tcp client msg s) h.1 (omega arith)

  -- A connection on which messages of less than 64 KiB arrive, framed as the server frames its own
  -- replies, has each of them handled, in order, and nothing else.
  pub serve_tcp_conn-frames :
      (msgs : List (List ℕ)) (s : ServerState S)
      → All (λ msg. length msg < 2 ^ 16) msgs
      → serve_tcp_conn wire host client (frames msgs) s ≡ handle_all wire host client msgs s
  unfolding serve_tcp_conn
  serve_tcp_conn-frames msgs s h =
      serve_from-frames (suc (length (frames msgs))) msgs s h (omega (arith, length-frames msgs))
