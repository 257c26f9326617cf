-- ===== src/Http/MessageUtils/ChunkSize.antt =====
-- What a chunk-size line is worth.
use proxypp.Prelude.{
  ℕ, ◌+◌, ◌*◌, ◌≤◌, ◌<◌, ◌≡◌, refl, Option, none, some, List, [], ◌∷◌, arith, Bool-cases, inl, inr,
  Option-cases, if◌then◌else◌, ltb, ◌==◌, ◌∙◌, sym, ltb→lt,
}
use proxypp.Http.MessageUtils.{hex_digit, push_digit, parse_digits, size_mod}

-- The hexadecimal digits, with their values.
abbrev digit_values : List (ℕ × ℕ)
digit_values =
    (b'0', 0)
    ∷ (b'1', 1)
    ∷ (b'2', 2)
    ∷ (b'3', 3)
    ∷ (b'4', 4)
    ∷ (b'5', 5)
    ∷ (b'6', 6)
    ∷ (b'7', 7)
    ∷ (b'8', 8)
    ∷ (b'9', 9)
    ∷ (b'a', 10)
    ∷ (b'b', 11)
    ∷ (b'c', 12)
    ∷ (b'd', 13)
    ∷ (b'e', 14)
    ∷ (b'f', 15)
    ∷ (b'A', 10)
    ∷ (b'B', 11)
    ∷ (b'C', 12)
    ∷ (b'D', 13)
    ∷ (b'E', 14)
    ∷ (b'F', 15)
    ∷ []

-- The value that a table gives.
abbrev value_in : List (ℕ × ℕ) → ℕ → Option ℕ
value_in [] ch = none
value_in ((digit, value) ∷ table) ch = if ch == digit then some value else value_in table ch

unfoldable pub digit_value : ℕ → Option ℕ
digit_value ch = value_in digit_values ch

hex_digit-digit_value : (ch : ℕ) → hex_digit ch ≡ digit_value ch
unfolding hex_digit digit_value
hex_digit-digit_value ch = ground arith

-- The number that the digits of the table write after `size`, unbounded.
unfoldable pub hex_value : ℕ → List ℕ → Option ℕ
hex_value size [] = some size
hex_value size (ch ∷ rest) = elim (digit_value ch) [
  | none ↦ none
  | some digit ↦ hex_value (size * 16 + digit) rest
]

-- A number kept only if a 64-bit size_t holds it.
abbrev pub fitting : Option ℕ → Option ℕ
fitting none = none
fitting (some v) = if ltb v size_mod then some v else none

hex_digit-lt : (ch d : ℕ) → hex_digit ch ≡ some d → d < 16
unfolding hex_digit
hex_digit-lt ch d e = ground arith

hex_value_large :
    (size : ℕ) (text : List ℕ) → size_mod ≤ size → fitting (hex_value size text) ≡ none
unfolding hex_value
hex_value_large size [] h = ground arith
hex_value_large size (ch ∷ rest) h = elim (Option-cases (digit_value ch)) [
  | inl e ↦ rw (e, fitting) refl
  | inr (d, e) ↦ rw (e, fitting) (hex_value_large (size * 16 + d) rest (omega arith))
]

push_digit_fits :
    (size digit : ℕ)
    → digit < 16
    → size * 16 + digit < size_mod
    → push_digit size digit ≡ some (size * 16 + digit)
unfolding push_digit
push_digit_fits size digit h k = ground arith

push_digit_overflows :
    (size digit : ℕ) → digit < 16 → size_mod ≤ size * 16 + digit → push_digit size digit ≡ none
unfolding push_digit
push_digit_overflows size digit h k = ground arith

parse_digits_good :
    (size ch d : ℕ) (rest : List ℕ)
    → hex_digit ch ≡ some d
    → size * 16 + d < size_mod
    → parse_digits size (ch ∷ rest) ≡ parse_digits (size * 16 + d) rest
unfolding parse_digits
parse_digits_good size ch d rest e h =
    ground (arith, push_digit_fits size d (hex_digit-lt ch d e) h)

parse_digits_bad :
    (size ch : ℕ) (rest : List ℕ) → hex_digit ch ≡ none → parse_digits size (ch ∷ rest) ≡ none
unfolding parse_digits
parse_digits_bad size ch rest e = ground arith

parse_digits_over :
    (size ch d : ℕ) (rest : List ℕ)
    → hex_digit ch ≡ some d
    → size_mod ≤ size * 16 + d
    → parse_digits size (ch ∷ rest) ≡ none
unfolding parse_digits
parse_digits_over size ch d rest e h =
    ground (arith, push_digit_overflows size d (hex_digit-lt ch d e) h)

pub hex_value-cons :
    (size ch d : ℕ) (rest : List ℕ)
    → hex_digit ch ≡ some d
    → hex_value size (ch ∷ rest) ≡ hex_value (size * 16 + d) rest
unfolding hex_value
hex_value-cons size ch d rest e = rw (hex_value, sym (hex_digit-digit_value ch) ∙ e) refl

pub hex_value-bad :
    (size ch : ℕ) (rest : List ℕ) → hex_digit ch ≡ none → hex_value size (ch ∷ rest) ≡ none
unfolding hex_value
hex_value-bad size ch rest e = rw (hex_value, sym (hex_digit-digit_value ch) ∙ e) refl

-- The loop with its overflow check computes the value of the digits where a size_t holds it, and
-- fails otherwise.
pub parse_digits-hex_value :
    (size : ℕ) (text : List ℕ)
    → size < size_mod
    → parse_digits size text ≡ fitting (hex_value size text)
parse_digits-hex_value size [] h = unfold parse_digits hex_value in ground arith
parse_digits-hex_value size (ch ∷ rest) h = elim (Option-cases (hex_digit ch)) [
  | inl e ↦ rw (parse_digits_bad size ch rest e, hex_value-bad size ch rest e) refl
  | inr (d, e) ↦
      rw (hex_value-cons size ch d rest e) (elim (Bool-cases (ltb (size * 16 + d) size_mod)) [
        | inl fits ↦
            parse_digits_good size ch d rest e (ltb→lt _ _ fits)
            ∙ parse_digits-hex_value (size * 16 + d) rest (ltb→lt _ _ fits)
        | inr over ↦
            parse_digits_over size ch d rest e (ground arith)
            ∙ sym (hex_value_large (size * 16 + d) rest (ground arith))
      ])
]
