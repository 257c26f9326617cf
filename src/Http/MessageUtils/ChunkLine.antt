-- ===== src/Http/MessageUtils/ChunkLine.antt =====
-- The chunk-size lines that ParseChunkSizeLine accepts, and their values.
use proxypp.Prelude.{
  ℕ, ◌+◌, ◌*◌, ◌<◌, ◌≡◌, refl, sym, ap, ◌∙◌, ◌≢◌, ◌↔◌, inl, inr, false, Option, none, some, List,
  [], ◌∷◌, ◌++◌, arith, Option-cases, All-append, All-map, All,
}
use proxypp.Http.MessageUtils.{
  hex_digit, parse_digits, before, occurs, trim_trailing_ows, parse_chunk_size_line, size_mod,
  is_empty,
}
use proxypp.Http.MessageUtils.ChunkSize.{
  hex_value, hex_value-cons, hex_value-bad, fitting, parse_digits-hex_value,
}
use proxypp.Http.MessageUtils.Text.{
  IsOws, StartsWith, after, before-after, after-StartsWith, before-append, occurs-All, All-occurs,
  trim_trailing_ows_split, trim_trailing_ows-append,
}

-- The lines that stand for a chunk size: digits, then whitespace, then an extension that a
-- semicolon begins; the digits and the whitespace may not both be missing.
pub record WritesSize (line : List ℕ) (v : ℕ) : Type 0 where
  pub digits : List ℕ
  pub ows : List ℕ
  pub extension : List ℕ
  pub parts : line ≡ (digits ++ ows) ++ extension
  pub some_size : digits ++ ows ≢ []
  pub value : hex_value 0 digits ≡ some v
  pub fits : v < size_mod
  pub blank : All IsOws ows
  pub semicolon : StartsWith b';' extension
  pub no_cr : All (λ ch. ch ≢ 13) line
  pub no_lf : All (λ ch. ch ≢ 10) line

hex_value-All :
    (P : ℕ → Type 0)
    → ((ch d : ℕ) → hex_digit ch ≡ some d → P ch)
    → (size v : ℕ) (digits : List ℕ) → hex_value size digits ≡ some v
    → All P digits
hex_value-All P p size v [] e = tt
hex_value-All P p size v (ch ∷ rest) e = elim (Option-cases (hex_digit ch)) [
  | inl bad ↦ cc (hex_value-bad size ch rest bad)
  | inr (d, good) ↦ (
    p ch d good,
    hex_value-All P p (size * 16 + d) v rest (sym (hex_value-cons size ch d rest good) ∙ e),
  )
]

hex_digit-not-IsOws : (ch d : ℕ) → hex_digit ch ≡ some d → (ch ≢ b';') × (¬ IsOws ch)
unfolding hex_digit
hex_digit-not-IsOws ch d e = (λ h. ground arith, λ h. ground arith)

fitting-some : (o : Option ℕ) (v : ℕ) → fitting o ≡ some v → (o ≡ some v) × (v < size_mod)
fitting-some none v e = cc
fitting-some (some w) v e = ground arith

some-fitting : (v : ℕ) → v < size_mod → fitting (some v) ≡ some v
some-fitting v h = ground arith

module _ {line : List ℕ} {v : ℕ} (w : WritesSize line v) where
  open w use {digits, ows, extension}

  NotSemicolon-size : All (λ ch. ch ≢ b';') (digits ++ ows)
  NotSemicolon-size =
      All-append _ digits ows
        (hex_value-All _ (λ ch d e. (hex_digit-not-IsOws ch d e).0) 0 v digits w.value)
        (All-map (λ ch o e. ground arith) ows w.blank)

  before-size : before b';' line ≡ digits ++ ows
  before-size =
      rw w.parts (before-append b';' (digits ++ ows) extension NotSemicolon-size w.semicolon)

  trim-size : trim_trailing_ows (digits ++ ows) ≡ digits
  trim-size =
      trim_trailing_ows-append digits ows
        (hex_value-All _ (λ ch d e. (hex_digit-not-IsOws ch d e).1) 0 v digits w.value) w.blank

  parse_digits-size : parse_digits 0 digits ≡ some v
  parse_digits-size =
      parse_digits-hex_value 0 digits (omega arith) ∙ ap fitting w.value ∙ some-fitting v w.fits

is_empty-false : (text : List ℕ) → is_empty text ≡ false → text ≢ []
is_empty-false [] e h = cc
is_empty-false (ch ∷ rest) e h = cc

false-is_empty : (text : List ℕ) → text ≢ [] → is_empty text ≡ false
false-is_empty [] h = absurd (h refl)
false-is_empty (ch ∷ rest) h = refl

-- The size that a line of the accepted form is read as.
WritesSize-parse : (line : List ℕ) (v : ℕ) → WritesSize line v → parse_chunk_size_line line ≡ some v
unfolding parse_chunk_size_line
WritesSize-parse line v w =
    rw
      (
        All-occurs 13 line w.no_cr,
        All-occurs 10 line w.no_lf,
        before-size w,
        false-is_empty _ w.some_size,
        trim-size w,
      )
      (parse_digits-size w)

module _ (line : List ℕ) (v : ℕ) (read : parse_chunk_size_line line ≡ some v) where
  one_line : (occurs 13 line ≡ false) × (occurs 10 line ≡ false)
  unfolding parse_chunk_size_line
  one_line = ground arith

  parsed :
      (is_empty (before b';' line) ≡ false)
      × (parse_digits 0 (trim_trailing_ows (before b';' line)) ≡ some v)
  unfolding parse_chunk_size_line
  parsed = ground arith

  parse-WritesSize : WritesSize line v
  parse-WritesSize =
      let size_text = before b';' line in
      let (ws, split, blank) = trim_trailing_ows_split size_text in
      let (value, fits) =
        fitting-some (hex_value 0 (trim_trailing_ows size_text)) v
          (sym (parse_digits-hex_value 0 (trim_trailing_ows size_text) (omega arith)) ∙ parsed.1) in
      record {
        digits = trim_trailing_ows size_text;
        ows = ws;
        extension = after b';' line;
        parts = before-after b';' line ∙ ap (λ t. t ++ after b';' line) split;
        some_size = rw (← split) (is_empty-false size_text parsed.0);
        value = value;
        fits = fits;
        blank = blank;
        semicolon = after-StartsWith b';' line;
        no_cr = occurs-All 13 line one_line.0;
        no_lf = occurs-All 10 line one_line.1;
      }

-- A line is read as the size `v` exactly when it holds no CR and no LF and consists of hexadecimal
-- digits of the value `v`, which a 64-bit size_t holds, then spaces and tabs, then nothing or an
-- extension that a semicolon begins, where the digits and the whitespace are not both missing.
pub parse_chunk_size_line_iff :
    (line : List ℕ) (v : ℕ) → (parse_chunk_size_line line ≡ some v) ↔ WritesSize line v
parse_chunk_size_line_iff line v = (parse-WritesSize line v, WritesSize-parse line v)

-- A line of spaces and tabs alone, with or without an extension behind them, is read as the size 0,
-- although it holds no digit.
pub parse_chunk_size_line_blank :
    (ows extension : List ℕ)
    → ows ≢ []
    → All IsOws ows
    → StartsWith b';' extension
    → All (λ ch. ch ≢ 13) extension
    → All (λ ch. ch ≢ 10) extension
    → parse_chunk_size_line (ows ++ extension) ≡ some 0
parse_chunk_size_line_blank ows extension h blank semicolon no_cr no_lf =
    WritesSize-parse (ows ++ extension) 0 (record {
      digits = [];
      ows = ows;
      extension = extension;
      parts = refl;
      some_size = h;
      value = unfold hex_value in refl;
      fits = omega arith;
      blank = blank;
      semicolon = semicolon;
      no_cr = All-append _ ows extension (All-map (λ ch o e. ground arith) ows blank) no_cr;
      no_lf = All-append _ ows extension (All-map (λ ch o e. ground arith) ows blank) no_lf;
    })
