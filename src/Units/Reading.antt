-- ===== src/Units/Reading.antt =====
-- The loop that reads a managed file.
use mathlib.Core.List.{append-nil, append_assoc}
use mathlib.Core.Path.{subst}
use machine_deck.Base.{
  ltb, leb, if◌then◌else◌, nat_eq, string_eq, ◌==◌, length, take, drop, length-append, length-drop,
  take-append-drop, Outcome, ok, raised, ℕ, zero, suc, ◌+◌, ◌≤◌, ◌<◌, ◌≡◌, Option, some, List, [],
  ◌∷◌, ◌++◌, arith,
}
use machine_deck.Text.{text_eq}
use machine_deck.Text.Encoding.{Bytes}
use machine_deck.Units.{UnitError, existing_too_large, max_unit_bytes}
use machine_deck.Units.Files.{
  regular, ManagerError, unit_error, Metadata, read_chunks, join_bytes, joined, read_regular,
}

join_bytes-append :
    (chunks : List Bytes) (chunk : Bytes)
    → join_bytes (chunks ++ chunk ∷ []) ≡ join_bytes chunks ++ chunk
unfolding join_bytes
join_bytes-append [] chunk = append-nil chunk
join_bytes-append (first ∷ chunks) chunk =
    ground (arith, join_bytes-append chunks chunk, append_assoc first (join_bytes chunks) chunk)

abbrev pub read_or_too_large : ℕ → Bytes → Outcome ManagerError (Option Bytes)
read_or_too_large size content =
    if leb size max_unit_bytes then ok (some content) else raised (unit_error existing_too_large)

-- One turn, on a chunk that is not empty and the rest of the content.
turn-joined :
    (chunk rest : Bytes) (chunks : List Bytes) (total : ℕ) (others : Outcome UnitError (List Bytes))
    → 0 < length chunk
    → (total + length chunk ≤ max_unit_bytes
        → joined others
          ≡ read_or_too_large
              (total + length chunk + length rest)
              (join_bytes (chunks ++ chunk ∷ []) ++ rest))
    → joined (
        if length chunk == 0
        then ok chunks
        else if ltb max_unit_bytes (total + length chunk)
        then raised existing_too_large
        else others)
      ≡ read_or_too_large (total + length (chunk ++ rest)) (join_bytes chunks ++ (chunk ++ rest))
unfolding joined
turn-joined chunk rest chunks total others h k = ground (
  arith,
  length-append chunk rest,
  join_bytes-append chunks chunk,
  append_assoc (join_bytes chunks) chunk rest,
)

read_chunks-joined :
    (turns : ℕ) (content : Bytes) (chunks : List Bytes) (total : ℕ)
    → length content < turns
    → total ≤ max_unit_bytes
    → joined (read_chunks turns content chunks total)
      ≡ read_or_too_large (total + length content) (join_bytes chunks ++ content)
unfolding read_chunks joined
read_chunks-joined zero content chunks total h k = ground arith
read_chunks-joined (suc turns) [] chunks total h k = ground (arith, append-nil (join_bytes chunks))
read_chunks-joined (suc turns) (c ∷ content) chunks total h k =
    subst
      (λ whole.
        joined (read_chunks (suc turns) (c ∷ content) chunks total)
        ≡ read_or_too_large (total + length whole) (join_bytes chunks ++ whole))
      (take-append-drop 8192 (c ∷ content))
      (turn-joined (take 8192 (c ∷ content)) (drop 8192 (c ∷ content)) chunks total
        (read_chunks turns (drop 8192 (c ∷ content)) (chunks ++ take 8192 (c ∷ content) ∷ [])
          (total + length (take 8192 (c ∷ content))))
        (omega arith)
        (λ fits.
          read_chunks-joined turns (drop 8192 (c ∷ content))
            (chunks ++ take 8192 (c ∷ content) ∷ []) (total + length (take 8192 (c ∷ content)))
            (omega (arith, length-drop 8192 (c ∷ content))) fits))

-- The reading of a regular file ends, whatever its size: it returns the content if that is at most
-- 64 KiB long, and raises the error on its size if not.
pub read_regular-total :
    (found : Metadata) (content : Bytes)
    → found.kind ≡ regular
    → read_regular (some (found, content)) ≡ read_or_too_large (length content) content
unfolding read_regular join_bytes
read_regular-total found content h =
    let read = read_chunks-joined (length content + 1) content [] 0 (omega arith) (omega arith) in
    ground (arith, read)
