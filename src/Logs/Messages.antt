-- ===== src/Logs/Messages.antt =====
-- `bounded_message` of backend/app/logging/models.py. A message has no lone surrogates.
pub mod Fitting
use machine_deck.Base.{
  ltb, leb, if◌then◌else◌, nat_eq, string_eq, ◌==◌, length, take, ℕ, zero, suc, ◌+◌, ◌-◌, ◌*◌, Bool,
  true, false, [], ◌∷◌,
}
use machine_deck.Text.{Text, text_eq}
use machine_deck.Text.Encoding.{Bytes, encode}

-- `bytes.decode("utf-8", errors="ignore")` on the beginning of an encoded text, which may end
-- within a character: the number of bytes that the character still wants, and its bits so far.
unfoldable pub decode_from : ℕ → ℕ → Bytes → Text
decode_from wanted bits [] = []
decode_from zero bits (b ∷ bytes) =
    let single = b ∷ decode_from 0 0 bytes in
    let two = decode_from 1 (b - 192) bytes in
    let three = decode_from 2 (b - 224) bytes in
    let four = decode_from 3 (b - 240) bytes in
    if ltb b 128 then single else if ltb b 224 then two else if ltb b 240 then three else four
decode_from (suc wanted) bits (b ∷ bytes) =
    let whole = 64 * bits + (b - 128) in
    let last = whole ∷ decode_from 0 0 bytes in
    let more = decode_from wanted whole bytes in if wanted == 0 then last else more

unfoldable pub decode_ignore : Bytes → Text
unfolding decode_from
decode_ignore bytes = decode_from 0 0 bytes

-- The message, whether it was shortened, and the size that it had.
unfoldable pub bounded_message : Text → ℕ → Text × (Bool × ℕ)
unfolding encode decode_ignore
bounded_message message max_bytes =
    let encoded = encode message in
    if leb (length encoded) max_bytes
    then (message, (false, length encoded))
    else (decode_ignore (take max_bytes encoded), (true, length encoded))
