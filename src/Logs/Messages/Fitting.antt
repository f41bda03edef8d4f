-- ===== src/Logs/Messages/Fitting.antt =====
-- What a shortened message keeps.
use machine_deck.Base.{
  ltb, leb, if◌then◌else◌, length, take, All, length-append, ℕ, zero, suc, ◌-◌, ◌≤◌, ◌<◌, ◌≡◌, refl,
  [], ◌∷◌, ◌++◌, arith,
}
use machine_deck.Text.{Text}
use machine_deck.Text.Encoding.{Bytes, utf8_char, encode}
use machine_deck.Logs.Messages.{decode_from, decode_ignore, bounded_message}

-- The code points of Unicode, which end below 2 ^ 21.
abbrev pub IsCharacter : ℕ → Type 0
IsCharacter c = c < 1114112

-- The first characters of a text whose encoding takes no more than a number of bytes.
abbrev pub fit : ℕ → Text → Text
fit size [] = []
fit size (c ∷ s) =
    let rest = c ∷ fit (size - length (utf8_char c)) s in
    if leb (length (utf8_char c)) size then rest else []

decode-utf8_char :
    (c : ℕ) (bytes : Bytes)
    → IsCharacter c
    → decode_from 0 0 (utf8_char c ++ bytes) ≡ c ∷ decode_from 0 0 bytes
unfolding decode_from utf8_char
decode-utf8_char c bytes h = ground arith

-- a character that is cut gives nothing
decode-cut :
    (c k : ℕ)
    → IsCharacter c
    → k < length (utf8_char c)
    → decode_from 0 0 (take k (utf8_char c)) ≡ []
unfolding decode_from utf8_char
decode-cut c zero h l = refl
decode-cut c (suc zero) h l = ground arith
decode-cut c (suc (suc zero)) h l = ground arith
decode-cut c (suc (suc (suc zero))) h l = ground arith
decode-cut c (suc (suc (suc (suc k)))) h l = ground arith

take-append :
    (k : ℕ) (xs ys : Bytes)
    → take k (xs ++ ys) ≡ (if leb (length xs) k then xs ++ take (k - length xs) ys else take k xs)
take-append k [] ys = ground arith
take-append zero (x ∷ xs) ys = ground arith
take-append (suc k) (x ∷ xs) ys = ground (arith, take-append k xs ys)

decode-nil : decode_from 0 0 [] ≡ []
unfolding decode_from
decode-nil = refl

decode-take : (k : ℕ) (s : Text) → All IsCharacter s → decode_from 0 0 (take k (encode s)) ≡ fit k s
unfolding encode
decode-take zero [] h = decode-nil
decode-take (suc k) [] h = decode-nil
decode-take k (c ∷ s) (h, hs) =
    let left : ℕ = k - length (utf8_char c) in
    ground (
      arith,
      take-append k (utf8_char c) (encode s),
      decode-utf8_char c (take left (encode s)) h,
      decode-cut c k h,
      decode-take left s hs,
    )

fit-all : (k : ℕ) (s : Text) → length (encode s) ≤ k → fit k s ≡ s
unfolding encode
fit-all k [] l = refl
fit-all k (c ∷ s) l =
    ground (arith, fit-all (k - length (utf8_char c)) s, length-append (utf8_char c) (encode s))

fit-fits : (k : ℕ) (s : Text) → length (encode (fit k s)) ≤ k
unfolding encode
fit-fits k [] = omega arith
fit-fits k (c ∷ s) = ground (
  arith,
  fit-fits (k - length (utf8_char c)) s,
  length-append (utf8_char c) (encode (fit (k - length (utf8_char c)) s)),
)

-- A message is cut to its first characters that fit into the bytes allowed, a character that would
-- be cut being left out. It is marked as cut, with the size that it had, exactly where it is longer.
pub bounded_message-fit :
    (message : Text) (max_bytes : ℕ)
    → All IsCharacter message
    → bounded_message message max_bytes
      ≡ (fit max_bytes message, (ltb max_bytes (length (encode message)), length (encode message)))
unfolding bounded_message decode_ignore
bounded_message-fit message max_bytes h =
    ground (arith, fit-all max_bytes message, decode-take max_bytes message h)

-- What is left of a message takes no more than the bytes allowed.
pub length-bounded_message :
    (message : Text) (max_bytes : ℕ)
    → All IsCharacter message
    → length (encode (bounded_message message max_bytes).0) ≤ max_bytes
length-bounded_message message max_bytes h =
    rw (bounded_message-fit message max_bytes h) (fit-fits max_bytes message)
