-- ===== src/Logs/Lines.antt =====
-- `_bounded_lines` of backend/app/logging/adapters.py: the lines of a stream that is read in
-- chunks, each cut to a number of bytes.
pub mod Cutting
use machine_deck.Base.{
  Equality, ltb, leb, if◌then◌else◌, ltb→lt, leb→le, Bool-cases, Option-cases, nat_beq_iff, nat_eq,
  string_eq, ◌==◌, option_beq, option_beq_iff, is_none, is_some, or_else, length, take, drop, any,
  all, filter, find?, All, length-append, length-take, length-drop, take-append-drop, All-append,
  All-filter, length-filter, find?-some, contains, Outcome, ok, raised, is_ok, Exec, pure, raise,
  lift, gets, modify, raise_if, continue, ◌>>=◌, ◌>>◌, handle_errors, continue-keeps,
  continue-raised, continue-eq-ok, Returns, continue-Returns, ℕ, zero, suc, ◌+◌, ◌-◌, ◌*◌, ◌/◌, ◌%◌,
  ◌^◌, ◌≤◌, ◌<◌, min, String, ◌≡◌, refl, sym, ap, ◌∙◌, ◌≢◌, ◌↔◌, ◌⊎◌, inl, inr, Bool, true, false,
  not, ◌&&◌, ◌||◌, Option, none, some, List, [], ◌∷◌, ◌++◌, map, arith, eq_iff, eq_refl,
}
use machine_deck.Text.Encoding.{
  Bytes, replace, ends_with, utf8_char, encode, is_line_break, splitlines, text_leb, item_leb,
  insert_item, sorted,
}

-- The prefix of a line, whether the line is longer, and its size: what is yielded, and what is kept
-- of the line that is being read.
pub record Line : Type 0 where
  pub prefix : Bytes
  pub truncated : Bool
  pub original_size : ℕ

abbrev pub no_line : Line
no_line = record { prefix = []; truncated = false; original_size = 0 }

unfoldable pub add_byte : ℕ → ℕ → Line → Line
add_byte max_bytes byte line =
    let size = line.original_size + 1 in
    if ltb (length line.prefix) max_bytes
    then record {
      prefix = line.prefix ++ byte ∷ [];
      truncated = line.truncated;
      original_size = size;
    }
    else record { prefix = line.prefix; truncated = true; original_size = size }

-- the loop over the bytes of a chunk: the lines that end in it, and what is left
unfoldable pub scan_chunk : ℕ → Bytes → Line → List Line × Line
unfolding add_byte
scan_chunk max_bytes [] line = ([], line)
scan_chunk max_bytes (byte ∷ chunk) line =
    let (lines, last) = scan_chunk max_bytes chunk no_line in
    let longer = scan_chunk max_bytes chunk (add_byte max_bytes byte line) in
    if byte == 10 then (line ∷ lines, last) else longer

-- at the end of the stream
unfoldable pub last_line : Line → List Line
last_line line = if line.original_size == 0 then [] else line ∷ []

-- The lines that are yielded for the chunks that `read` gives; it gives an empty one at the end.
unfoldable pub bounded_lines : ℕ → List Bytes → Line → List Line
unfolding scan_chunk last_line
bounded_lines max_bytes [] line = last_line line
bounded_lines max_bytes ([] ∷ chunks) line = last_line line
bounded_lines max_bytes ((byte ∷ chunk) ∷ chunks) line =
    let (lines, left) = scan_chunk max_bytes (byte ∷ chunk) line in
    lines ++ bounded_lines max_bytes chunks left
