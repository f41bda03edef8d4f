-- ===== src/Logs/Lines/Cutting.antt =====
-- The lines that `bounded_lines` yields, against the lines of the whole content.
use mathlib.Core.List.{append-nil, append_assoc}
use machine_deck.Base.{
  ltb, if◌then◌else◌, length, take, All, length-append, length-take, ℕ, zero, suc, ◌≤◌, ◌<◌, ◌≡◌,
  refl, sym, List, [], ◌∷◌, ◌++◌, map, arith,
}
use machine_deck.Text.{split_parts}
use machine_deck.Text.Encoding.{Bytes}
use machine_deck.Logs.Lines.{Line, no_line, add_byte, scan_chunk, last_line, bounded_lines}

-- a line cut to its first bytes
abbrev pub cut : ℕ → Bytes → Line
cut max_bytes line = record {
  prefix = take max_bytes line;
  truncated = ltb max_bytes (length line);
  original_size = length line;
}

-- the lines of a content: what stands between its newlines, without what is after the last one if
-- that is empty
abbrev pub without_empty_last : Bytes → List Bytes → List Bytes
without_empty_last [] [] = []
without_empty_last (b ∷ line) [] = (b ∷ line) ∷ []
without_empty_last line (next ∷ lines) = line ∷ without_empty_last next lines

abbrev pub content_lines : Bytes → List Bytes
content_lines content = let (line, lines) = split_parts 10 content in without_empty_last line lines

abbrev pub concat : List Bytes → Bytes
concat [] = []
concat (chunk ∷ chunks) = chunk ++ concat chunks

take-nil : (n : ℕ) → take {A = ℕ} n [] ≡ []
take-nil zero = refl
take-nil (suc n) = refl

take-snoc :
    (n : ℕ) (line : Bytes) (b : ℕ)
    → take n (line ++ b ∷ [])
      ≡ (if ltb (length (take n line)) n then take n line ++ b ∷ [] else take n line)
take-snoc zero line b = ground arith
take-snoc (suc n) [] b = ground (arith, take-nil n)
take-snoc (suc n) (c ∷ line) b = ground (arith, take-snoc n line b)

add_byte-cut :
    (max_bytes b : ℕ) (line : Bytes)
    → add_byte max_bytes b (cut max_bytes line) ≡ cut max_bytes (line ++ b ∷ [])
unfolding add_byte
add_byte-cut max_bytes b line =
    ground
      (arith, take-snoc max_bytes line b, length-take max_bytes line, length-append line (b ∷ []))

cut-nil : (max_bytes : ℕ) → cut max_bytes [] ≡ no_line
cut-nil max_bytes = ground (arith, take-nil max_bytes)

-- all the lines of a content that is read at once
abbrev run_lines : ℕ → Bytes → Line → List Line
run_lines max_bytes content line =
    let (lines, left) = scan_chunk max_bytes content line in lines ++ last_line left

run_lines-cut :
    (max_bytes : ℕ) (content line : Bytes)
    → run_lines max_bytes content (cut max_bytes line) ≡ (
        let (part, parts) = split_parts 10 content in
        map (cut max_bytes) (without_empty_last (line ++ part) parts))
unfolding scan_chunk split_parts last_line
run_lines-cut max_bytes [] [] = ground arith
run_lines-cut max_bytes [] (b ∷ line) = ground (arith, append-nil line)
run_lines-cut max_bytes (b ∷ content) line = ground (
  arith,
  run_lines-cut max_bytes content [],
  run_lines-cut max_bytes content (line ++ b ∷ []),
  add_byte-cut max_bytes b line,
  cut-nil max_bytes,
  append-nil line,
  append_assoc line (b ∷ []) (split_parts 10 content).0,
)

scan_chunk-append :
    (max_bytes : ℕ) (chunk rest : Bytes) (line : Line)
    → scan_chunk max_bytes (chunk ++ rest) line ≡ (
        let (lines, left) = scan_chunk max_bytes chunk line in
        let (lines', left') = scan_chunk max_bytes rest left in (lines ++ lines', left'))
unfolding scan_chunk
scan_chunk-append max_bytes [] rest line = refl
scan_chunk-append max_bytes (b ∷ chunk) rest line = ground (
  arith,
  scan_chunk-append max_bytes chunk rest no_line,
  scan_chunk-append max_bytes chunk rest (add_byte max_bytes b line),
)

abbrev pub IsChunk : Bytes → Type 0
IsChunk chunk = 0 < length chunk

bounded_lines-run_lines :
    (max_bytes : ℕ) (chunks : List Bytes) (line : Line)
    → All IsChunk chunks
    → bounded_lines max_bytes chunks line ≡ run_lines max_bytes (concat chunks) line
unfolding bounded_lines scan_chunk
bounded_lines-run_lines max_bytes [] line h = refl
bounded_lines-run_lines max_bytes ([] ∷ chunks) line h = ground arith
bounded_lines-run_lines max_bytes ((b ∷ chunk) ∷ chunks) line (_, h) =
    let (lines, left) = scan_chunk max_bytes (b ∷ chunk) line in
    ground (
      arith,
      scan_chunk-append max_bytes (b ∷ chunk) (concat chunks) line,
      bounded_lines-run_lines max_bytes chunks left h,
      append_assoc lines (scan_chunk max_bytes (concat chunks) left).0
          (last_line (scan_chunk max_bytes (concat chunks) left).1),
    )

-- However a stream is cut into chunks, the reader yields the lines of its content, the last one
-- also where no newline ends it: each with its first `max_bytes` bytes, whether it is longer, and
-- its size.
pub bounded_lines-content_lines :
    (max_bytes : ℕ) (chunks : List Bytes)
    → All IsChunk chunks
    → bounded_lines max_bytes chunks no_line ≡ map (cut max_bytes) (content_lines (concat chunks))
bounded_lines-content_lines max_bytes chunks h =
    rw
      (
        bounded_lines-run_lines max_bytes chunks no_line h,
        sym (cut-nil max_bytes),
        run_lines-cut max_bytes (concat chunks) [],
      )
      refl

-- The size is that of the whole line, the prefix is no longer than it nor than the bound, and the
-- line is marked exactly where its size is over the bound.
abbrev pub IsBounded : ℕ → Line → Type 0
IsBounded max_bytes line =
    (length line.prefix ≤ max_bytes)
    × (length line.prefix ≤ line.original_size)
    × (line.truncated ≡ ltb max_bytes line.original_size)

cut-IsBounded :
    (max_bytes : ℕ) (lines : List Bytes) → All (IsBounded max_bytes) (map (cut max_bytes) lines)
cut-IsBounded max_bytes [] = tt
cut-IsBounded max_bytes (line ∷ lines) = (
  (omega (arith, length-take max_bytes line), omega (arith, length-take max_bytes line), refl),
  cut-IsBounded max_bytes lines,
)

-- No line that is yielded holds more bytes than the bound, and it is marked as truncated exactly
-- where the line of the stream is longer than the bound.
pub bounded_lines-IsBounded :
    (max_bytes : ℕ) (chunks : List Bytes)
    → All IsChunk chunks
    → All (IsBounded max_bytes) (bounded_lines max_bytes chunks no_line)
bounded_lines-IsBounded max_bytes chunks h =
    rw (bounded_lines-content_lines max_bytes chunks h)
      (cut-IsBounded max_bytes (content_lines (concat chunks)))
