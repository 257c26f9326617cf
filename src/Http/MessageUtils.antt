-- ===== src/Http/MessageUtils.antt =====
-- src/proxypp/http/http_message_utils.cpp: finding a CRLF in the read buffer, and reading a
-- chunk-size line. A byte is a number below 256, and a buffer or a line is the list of its bytes.
pub mod FindCrlf
pub mod ChunkSize
mod Text
pub mod ChunkLine
use proxypp.Prelude.{
  ℕ, zero, suc, ◌+◌, ◌-◌, ◌*◌, ◌/◌, ◌^◌, Bool, true, false, ◌&&◌, ◌||◌, Option, none, some, List,
  [], ◌∷◌, length, take, ltb, leb, ◌==◌, if◌then◌else◌,
}
use mathlib.Core.Option
use mathlib.Core.List.{reverse}

-- std::numeric_limits<std::size_t>::max() + 1 on a 64-bit target.
abbrev pub size_mod : ℕ
size_mod = 2 ^ 64

abbrev pub size_max : ℕ
size_max = size_mod - 1

-- std::search for "\r\n": the offset of its first occurrence.
unfoldable pub find_crlf : List ℕ → Option ℕ
find_crlf [] = none
find_crlf (a ∷ []) = none
find_crlf (a ∷ b ∷ rest) =
    let later = find_crlf (b ∷ rest) in if a == 13 && b == 10 then some 0 else Option.map suc later

unfoldable pub buffer_prefix_to_string : List ℕ → ℕ → List ℕ
buffer_prefix_to_string buffer n = take n buffer

-- The value of one hexadecimal digit.
unfoldable pub hex_digit : ℕ → Option ℕ
hex_digit ch =
    if leb b'0' ch && leb ch b'9'
    then some (ch - b'0')
    else if leb b'a' ch && leb ch b'f'
    then some (ch - b'a' + 10)
    else if leb b'A' ch && leb ch b'F'
    then some (ch - b'A' + 10)
    else none

-- One round of the loop on the size, with its overflow check on a 64-bit size_t.
unfoldable pub push_digit : ℕ → ℕ → Option ℕ
push_digit size digit =
    if ltb ((size_max - digit) / 16) size then none else some (size * 16 + digit)

-- The loop over the characters of the size text.
unfoldable pub parse_digits : ℕ → List ℕ → Option ℕ
parse_digits size [] = some size
parse_digits size (ch ∷ rest) = elim (hex_digit ch) [
  | none ↦ none
  | some digit ↦ elim (push_digit size digit) [ none ↦ none | some size' ↦ parse_digits size' rest ]
]

-- line.substr(0, line.find(c)): the text before the first `c`, or all of it.
unfoldable pub before : ℕ → List ℕ → List ℕ
before c [] = []
before c (ch ∷ rest) = if ch == c then [] else ch ∷ before c rest

-- Whether a character stands in a line.
unfoldable pub occurs : ℕ → List ℕ → Bool
occurs c [] = false
occurs c (ch ∷ rest) = ch == c || occurs c rest

abbrev pub is_ows : ℕ → Bool
is_ows ch = ch == b' ' || ch == 9

-- The loop of TrimTrailingOws, over the text from its back.
unfoldable pub drop_ows : List ℕ → List ℕ
drop_ows [] = []
drop_ows (ch ∷ rest) = if is_ows ch then drop_ows rest else ch ∷ rest

unfoldable pub trim_trailing_ows : List ℕ → List ℕ
trim_trailing_ows text = reverse (drop_ows (reverse text))

abbrev pub is_empty : List ℕ → Bool
is_empty [] = true
is_empty (ch ∷ rest) = false

unfoldable pub parse_chunk_size_line : List ℕ → Option ℕ
parse_chunk_size_line line =
    if occurs 13 line || occurs 10 line
    then none
    else (let size_text = before b';' line in
        if is_empty size_text then none else parse_digits 0 (trim_trailing_ows size_text))

-- The comparison of the two bytes that StartsWithCrlf has copied.
abbrev is_crlf : List ℕ → Bool
is_crlf (a ∷ b ∷ rest) = a == 13 && b == 10
is_crlf short = false

pub starts_with_crlf : List ℕ → Bool
starts_with_crlf buffer = if ltb (length buffer) 2 then false else is_crlf (take 2 buffer)
