-- ===== src/Http/MessageUtils/Text.antt =====
-- The cuts that ParseChunkSizeLine makes in a line: at the first semicolon, and before trailing
-- whitespace.
use mathlib.Core.List.{reverse, reverse-append, reverse-reverse}
use proxypp.Prelude.{
  ℕ, ◌≡◌, refl, sym, ap, ◌∙◌, ◌≢◌, ◌⊎◌, false, List, [], ◌∷◌, ◌++◌, arith, ◌==◌, if◌then◌else◌,
  All-reverse, All,
}
use proxypp.Http.MessageUtils.{before, occurs, drop_ows, is_ows, trim_trailing_ows}

-- An independent reading of OWS: a space or a tab.
abbrev pub IsOws : ℕ → Type 0
IsOws ch = (ch ≡ b' ') ⊎ (ch ≡ 9)

-- The text from the first `c` on.
from : ℕ → List ℕ → List ℕ
from c [] = []
from c (ch ∷ rest) = if ch == c then ch ∷ rest else from c rest

pub after : ℕ → List ℕ → List ℕ
unfolding from
after c line = from c line

-- Nothing, or a text that begins with `c`.
abbrev pub StartsWith : ℕ → List ℕ → Type 0
StartsWith c [] = Unit
StartsWith c (ch ∷ rest) = ch ≡ c

pub before-after : (c : ℕ) (line : List ℕ) → line ≡ before c line ++ after c line
unfolding before after
before-after c [] = refl
before-after c (ch ∷ rest) = ground (arith, before-after c rest)

pub after-StartsWith : (c : ℕ) (line : List ℕ) → StartsWith c (after c line)
unfolding after
after-StartsWith c [] = tt
after-StartsWith c (ch ∷ rest) = ground (arith, after-StartsWith c rest)

pub before-append :
    (c : ℕ) (xs ys : List ℕ) → All (λ ch. ch ≢ c) xs → StartsWith c ys → before c (xs ++ ys) ≡ xs
unfolding before
before-append c [] [] h s = refl
before-append c [] (y ∷ ys) h s = ground arith
before-append c (x ∷ xs) ys (h, hs) s = ground (arith, before-append c xs ys hs s)

pub occurs-All : (c : ℕ) (line : List ℕ) → occurs c line ≡ false → All (λ ch. ch ≢ c) line
unfolding occurs
occurs-All c [] e = tt
occurs-All c (ch ∷ rest) e = (ground arith, occurs-All c rest (ground arith))

pub All-occurs : (c : ℕ) (line : List ℕ) → All (λ ch. ch ≢ c) line → occurs c line ≡ false
unfolding occurs
All-occurs c [] e = refl
All-occurs c (ch ∷ rest) (h, hs) = ground (arith, All-occurs c rest hs)

-- The whitespace that `drop_ows` takes from the front.
ows_prefix : List ℕ → List ℕ
ows_prefix [] = []
ows_prefix (ch ∷ rest) = if is_ows ch then ch ∷ ows_prefix rest else []

ows_prefix-drop_ows : (text : List ℕ) → ows_prefix text ++ drop_ows text ≡ text
unfolding ows_prefix drop_ows
ows_prefix-drop_ows [] = refl
ows_prefix-drop_ows (ch ∷ rest) = ground (arith, ows_prefix-drop_ows rest)

ows_prefix-IsOws : (text : List ℕ) → All IsOws (ows_prefix text)
unfolding ows_prefix
ows_prefix-IsOws [] = tt
ows_prefix-IsOws (ch ∷ rest) = ground (arith, ows_prefix-IsOws rest)

drop_ows-append : (ws text : List ℕ) → All IsOws ws → drop_ows (ws ++ text) ≡ drop_ows text
unfolding drop_ows
drop_ows-append [] text h = refl
drop_ows-append (w ∷ ws) text (h, hs) = ground (arith, drop_ows-append ws text hs)

drop_ows-none : (text : List ℕ) → All (λ ch. ¬ IsOws ch) text → drop_ows text ≡ text
unfolding drop_ows
drop_ows-none [] h = refl
drop_ows-none (ch ∷ rest) (h, hs) = ground arith

-- What the trimming cuts off is whitespace, and the rest stays.
pub trim_trailing_ows_split :
    (text : List ℕ) → (ws : List ℕ) × (text ≡ trim_trailing_ows text ++ ws) × All IsOws ws
unfolding trim_trailing_ows
trim_trailing_ows_split text = (
  reverse (ows_prefix (reverse text)),
  sym (reverse-reverse text)
      ∙ ap reverse (sym (ows_prefix-drop_ows (reverse text)))
      ∙ reverse-append (ows_prefix (reverse text)) (drop_ows (reverse text)),
  All-reverse IsOws _ (ows_prefix-IsOws (reverse text)),
)

pub trim_trailing_ows-append :
    (text ws : List ℕ)
    → All (λ ch. ¬ IsOws ch) text
    → All IsOws ws
    → trim_trailing_ows (text ++ ws) ≡ text
unfolding trim_trailing_ows
trim_trailing_ows-append text ws h k =
    rw
      (
        reverse-append text ws,
        drop_ows-append (reverse ws) (reverse text) (All-reverse IsOws ws k),
        drop_ows-none (reverse text) (All-reverse (λ ch. ¬ IsOws ch) text h),
      )
      (reverse-reverse text)
