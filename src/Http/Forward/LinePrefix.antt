-- ===== src/Http/Forward/LinePrefix.antt =====
-- Buffers that begin with a line and its end.
use proxypp.Prelude.{
  ℕ, ◌+◌, ◌≡◌, refl, sym, ap, ◌∙◌, ◌≢◌, false, some, List, [], ◌∷◌, ◌++◌, append_assoc, arith, ◌==◌,
  length, take, drop, length-append,
}
use proxypp.Http.MessageUtils.{find_crlf, parse_chunk_size_line}
use proxypp.Http.MessageUtils.FindCrlf.{CrlfAt, find_crlf-line_end, not_CrlfAt}
use proxypp.Http.MessageUtils.ChunkLine.{parse_chunk_size_line_iff}

pub take_prefix : (xs ys : List ℕ) → take (length xs) (xs ++ ys) ≡ xs
take_prefix [] ys = refl
take_prefix (x ∷ xs) ys = ap (◌∷◌ x) (take_prefix xs ys)

pub drop_prefix : (xs ys : List ℕ) → drop (length xs) (xs ++ ys) ≡ ys
drop_prefix [] ys = refl
drop_prefix (x ∷ xs) ys = drop_prefix xs ys

-- A line and its end in front of the buffer.
pub line_found :
    (line tail : List ℕ)
    → ((k : ℕ) → ¬ CrlfAt k line)
    → find_crlf ((line ++ 13 ∷ 10 ∷ []) ++ tail) ≡ some (length line)
line_found line tail h =
    ap find_crlf (append_assoc line (13 ∷ 10 ∷ []) tail) ∙ find_crlf-line_end line tail h

pub line_taken : (line tail : List ℕ) → take (length line) ((line ++ 13 ∷ 10 ∷ []) ++ tail) ≡ line
line_taken line tail =
    ap (take (length line)) (append_assoc line (13 ∷ 10 ∷ []) tail) ∙ take_prefix line _

pub line_regroup :
    (line rest after text : List ℕ)
    → text ≡ line ++ 13 ∷ 10 ∷ rest
    → (line ++ 13 ∷ 10 ∷ []) ++ (rest ++ after) ≡ text ++ after
line_regroup line rest after text e =
    append_assoc line (13 ∷ 10 ∷ []) (rest ++ after)
    ∙ sym (append_assoc line (13 ∷ 10 ∷ rest) after)
    ∙ ap (λ z. z ++ after) (sym e)

pub size_of_line : (line : List ℕ) → length line + 2 ≡ length (line ++ 13 ∷ 10 ∷ [])
size_of_line line = omega (arith, length-append line (13 ∷ 10 ∷ []))

pub no_crlf_in_size :
    (line : List ℕ) (n : ℕ) → parse_chunk_size_line line ≡ some n → (k : ℕ) → ¬ CrlfAt k line
no_crlf_in_size line n read = not_CrlfAt line ((parse_chunk_size_line_iff line n).0 read).no_cr

pub nonzero_test : (line : List ℕ) → line ≢ [] → (length line == 0) ≡ false
nonzero_test [] h = absurd (h refl)
nonzero_test (x ∷ line) h = ground arith
