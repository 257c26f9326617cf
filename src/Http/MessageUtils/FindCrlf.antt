-- ===== src/Http/MessageUtils/FindCrlf.antt =====
-- The search for the end of a line in the read buffer.
use mathlib.Core.Option
use proxypp.Prelude.{
  All, ◌≢◌, ℕ, zero, suc, ◌+◌, ◌≤◌, ◌≡◌, refl, Option, none, some, List, [], ◌∷◌, ◌++◌, take,
  length-take, ap, length, drop, sym, ◌∙◌, arith, Bool-cases, ◌⊎◌, inl, inr, ◌==◌, ◌&&◌,
  length-drop,
}
use proxypp.Http.MessageUtils.{find_crlf}

-- A carriage return and a line feed stand at offset `k`.
abbrev pub CrlfAt : ℕ → List ℕ → Type 0
CrlfAt k buffer = (rest : List ℕ) × (drop k buffer ≡ 13 ∷ 10 ∷ rest)

pub CrlfAt-length : (k : ℕ) (buffer : List ℕ) → CrlfAt k buffer → k + 2 ≤ length buffer
CrlfAt-length k buffer (rest, e) = omega (arith, length-drop k buffer, ap length e)

-- The step of the search, as two equations.
find_crlf_hit : (a b : ℕ) (rest : List ℕ) → a ≡ 13 → b ≡ 10 → find_crlf (a ∷ b ∷ rest) ≡ some 0
unfolding find_crlf
find_crlf_hit a b rest p q = ground arith

find_crlf_miss :
    (a b : ℕ) (rest : List ℕ)
    → ¬ ((a ≡ 13) × (b ≡ 10))
    → find_crlf (a ∷ b ∷ rest) ≡ Option.map suc (find_crlf (b ∷ rest))
unfolding find_crlf
find_crlf_miss a b rest h = ground arith

dec_crlf : (a b : ℕ) → ((a ≡ 13) × (b ≡ 10)) ⊎ (¬ ((a ≡ 13) × (b ≡ 10)))
dec_crlf a b = elim (Bool-cases (a == 13 && b == 10)) [
  | inl e ↦ inl (ground arith)
  | inr e ↦ inr (λ h. ground arith)
]

CrlfAt-suc :
    (a b : ℕ) (rest : List ℕ) (k : ℕ)
    → ¬ ((a ≡ 13) × (b ≡ 10))
    → CrlfAt k (a ∷ b ∷ rest)
    → (j : ℕ) × (k ≡ suc j) × CrlfAt j (b ∷ rest)
CrlfAt-suc a b rest zero miss (tail, e) = absurd (miss (ground arith))
CrlfAt-suc a b rest (suc j) miss h = (j, refl, h)

pub find_crlf_first :
    (buffer : List ℕ) (n : ℕ)
    → find_crlf buffer ≡ some n
    → CrlfAt n buffer × ((k : ℕ) → CrlfAt k buffer → n ≤ k)
find_crlf_first [] n e = unfold find_crlf in cc
find_crlf_first (a ∷ []) n e = unfold find_crlf in cc
find_crlf_first (a ∷ b ∷ rest) n e = elim (dec_crlf a b) [
  | inl (p, q) ↦
      let z : 0 ≡ n = ground (arith, find_crlf_hit a b rest p q) in
      rw (← z) ((rest, rw (p, q) refl), λ k _. omega arith)
  | inr miss ↦
      let (m, found, same) =
        (Option.map-eq-some_iff _ _).0 (sym (find_crlf_miss a b rest miss) ∙ e) in
      let (here, least) = find_crlf_first (b ∷ rest) m found in
      rw (← same)
        (here, λ k h. let (j, k_eq, h') = CrlfAt-suc a b rest k miss h in omega (arith, least j h'))
]

pub find_crlf_none : (buffer : List ℕ) → find_crlf buffer ≡ none → (k : ℕ) → ¬ CrlfAt k buffer
find_crlf_none [] e k h = omega (arith, CrlfAt-length k [] h)
find_crlf_none (a ∷ []) e k h = omega (arith, CrlfAt-length k (a ∷ []) h)
find_crlf_none (a ∷ b ∷ rest) e k h = elim (dec_crlf a b) [
  | inl (p, q) ↦ cc (find_crlf_hit a b rest p q)
  | inr miss ↦
      let (j, _, h') = CrlfAt-suc a b rest k miss h in
      find_crlf_none (b ∷ rest) (ground (arith, find_crlf_miss a b rest miss)) j h'
]

-- What a search for the first CRLF may find: nothing, or its offset.
abbrev pub IsFirstCrlf : List ℕ → Option ℕ → Type 0
IsFirstCrlf buffer none = (k : ℕ) → ¬ CrlfAt k buffer
IsFirstCrlf buffer (some n) = CrlfAt n buffer × ((k : ℕ) → CrlfAt k buffer → n ≤ k)

-- The offset that is found is that of the first CRLF of the buffer; where none is found, the buffer
-- holds no CRLF.
pub find_crlf-IsFirstCrlf : (buffer : List ℕ) → IsFirstCrlf buffer (find_crlf buffer)
find_crlf-IsFirstCrlf buffer = go (find_crlf buffer) refl
  where
    go : (o : Option ℕ) → find_crlf buffer ≡ o → IsFirstCrlf buffer o
    go none e = find_crlf_none buffer e
    go (some n) e = find_crlf_first buffer n e

take_crlf :
    (n : ℕ) (buffer rest : List ℕ)
    → drop n buffer ≡ 13 ∷ 10 ∷ rest
    → take (suc (suc n)) buffer ≡ take n buffer ++ 13 ∷ 10 ∷ []
take_crlf zero [] rest e = cc
take_crlf zero (a ∷ []) rest e = cc
take_crlf zero (a ∷ b ∷ buffer) rest e = ground arith
take_crlf (suc n) [] rest e = cc
take_crlf (suc n) (a ∷ buffer) rest e = ap (◌∷◌ a) (take_crlf n buffer rest e)

-- The bytes up to and with the first CRLF are a line and its end.
pub take-find_crlf :
    (buffer : List ℕ) (n : ℕ)
    → find_crlf buffer ≡ some n
    → take (n + 2) buffer ≡ take n buffer ++ 13 ∷ 10 ∷ []
take-find_crlf buffer n e =
    let ((rest, cut), _) = find_crlf_first buffer n e in
    let two : n + 2 ≡ suc (suc n) = omega arith in rw two (take_crlf n buffer rest cut)

CrlfAt-of-take : (n k : ℕ) (buffer : List ℕ) → CrlfAt k (take n buffer) → CrlfAt k buffer
CrlfAt-of-take zero zero buffer (rest, e) = cc
CrlfAt-of-take zero (suc k) buffer (rest, e) = cc
CrlfAt-of-take (suc n) zero [] (rest, e) = cc
CrlfAt-of-take (suc n) (suc k) [] (rest, e) = cc
CrlfAt-of-take (suc zero) zero (a ∷ buffer) (rest, e) = cc
CrlfAt-of-take (suc (suc n)) zero (a ∷ []) (rest, e) = cc
CrlfAt-of-take (suc (suc n)) zero (a ∷ b ∷ buffer) (rest, e) = (buffer, ground arith)
CrlfAt-of-take (suc n) (suc k) (a ∷ buffer) h = CrlfAt-of-take n k buffer h

-- The line before the first CRLF holds none.
pub find_crlf-line :
    (buffer : List ℕ) (n : ℕ)
    → find_crlf buffer ≡ some n
    → (length (take n buffer) ≡ n) × ((k : ℕ) → ¬ CrlfAt k (take n buffer))
find_crlf-line buffer n e =
    let (here, least) = find_crlf_first buffer n e in
    (
      omega (arith, CrlfAt-length n buffer here, length-take n buffer),
      λ k h. omega (
        arith,
        least k (CrlfAt-of-take n k buffer h),
        CrlfAt-length k (take n buffer) h,
        length-take n buffer,
      ),
    )

-- The first CRLF behind a line that holds none is the one that ends it.
pub find_crlf-line_end :
    (line rest : List ℕ)
    → ((k : ℕ) → ¬ CrlfAt k line)
    → find_crlf (line ++ 13 ∷ 10 ∷ rest) ≡ some (length line)
find_crlf-line_end [] rest h = find_crlf_hit 13 10 rest refl refl
find_crlf-line_end (a ∷ []) rest h =
    find_crlf_miss a 13 (10 ∷ rest) (λ (p, q). absurd (omega arith))
    ∙ ap (Option.map suc) (find_crlf_hit 13 10 rest refl refl)
find_crlf-line_end (a ∷ b ∷ line) rest h =
    find_crlf_miss a b (line ++ 13 ∷ 10 ∷ rest) (λ (p, q). h 0 (line, rw (p, q) refl))
    ∙ ap (Option.map suc) (find_crlf-line_end (b ∷ line) rest (λ k at. h (suc k) at))

pub not_CrlfAt : (line : List ℕ) → All (λ ch. ch ≢ 13) line → (k : ℕ) → ¬ CrlfAt k line
not_CrlfAt [] all zero (rest, e) = cc
not_CrlfAt [] all (suc k) (rest, e) = cc
not_CrlfAt (a ∷ line) (h, hs) zero (rest, e) = h (ground arith)
not_CrlfAt (a ∷ line) (h, hs) (suc k) at = not_CrlfAt line hs k at
