-- ===== src/Http/Forward/Termination.antt =====
-- When ForwardExactly returns, and when it does not.
use proxypp.Prelude.{
  ℕ, zero, suc, ◌+◌, ◌-◌, ◌<◌, min, ◌≡◌, refl, ◌∙◌, ◌≢◌, inl, inr, false, none, some, List, [], ◌∷◌,
  ◌++◌, arith, ltb, ltb→lt, lt→ltb, Bool-cases, length, length-append,
}
use proxypp.Http.Stream.{eof, Peer, Sockets, Io, made, read_size, read_some_from_peer}
use proxypp.Http.Stream.Transfer.{
  bind-made, Step-cases, read_some_from_peer-made, read_some_from_peer-eof, write_to_peer-written,
  write_to_peer-made,
}
use proxypp.Http.Forward.{is_empty, fill, exactly_round, forward_exactly}

-- The source never reports its end without a byte.
abbrev pub NeverEnds : Sockets → Peer → Type 0
NeverEnds S from =
    (size : ℕ) (w : S.World)
    → (S.async_read_some from size w).0.ec ≡ some eof
    → (S.async_read_some from size w).0.bytes ≢ []

length-append_pos : (xs ys : List ℕ) → ys ≢ [] → 0 < length (xs ++ ys)
length-append_pos xs [] h = absurd (h refl)
length-append_pos xs (y ∷ ys) h = omega (arith, length-append xs (y ∷ ys))

length-pos : (xs : List ℕ) → is_empty xs ≡ false → 0 < length xs
length-pos [] e = cc
length-pos (x ∷ xs) e = omega arith

module _ {S : Sockets} (from target : Peer) (never : NeverEnds S from) where
  fill-length : (io io' : Io S) → fill S from target io ≡ made tt io' → 0 < length io'.buffer
  unfolding fill
  fill-length io io' e = elim (Bool-cases (is_empty io.buffer)) [
    | inl empty ↦
        let (r, io'', read, same) =
          bind-made (read_some_from_peer S from io) (λ _ io. made tt io) tt io' (ground arith) in
        let (io_eq, _, ended) = read_some_from_peer-made from io io' r (read ∙ ground arith) in
        let got = S.async_read_some from read_size io.world in
        rw io_eq (
          length-append_pos io.buffer got.0.bytes
            (λ none_read. never read_size io.world (ended none_read).1 none_read))
    | inr more ↦ let same : io ≡ io' = ground arith in rw (← same) (length-pos io.buffer more)
  ]

  exactly_round-pos :
      (rem n : ℕ) (io io' : Io S)
      → 0 < rem
      → exactly_round S from target rem io ≡ made n io'
      → 0 < n
  unfolding exactly_round
  exactly_round-pos rem n io io' h e =
      let (_, io1, filled, rest) = bind-made (fill S from target io) _ n io' e in
      omega (arith, fill-length io io1 filled, (write_to_peer-made target io1 io' _ n rest).0)

  -- If the source never reports its end without a byte, ForwardExactly returns, with fuel for one
  -- round for each byte that is left and one for the test that ends the loop.
  pub forward_exactly_returns :
      (fuel len sent : ℕ) (io : Io S)
      → len - sent < fuel
      → forward_exactly S from target fuel len sent io ≢ none
  unfolding forward_exactly
  forward_exactly_returns zero len sent io k = absurd (omega arith)
  forward_exactly_returns (suc fuel) len sent io k = elim (Bool-cases (ltb sent len)) [
    | inl more ↦ elim (Step-cases (exactly_round S from target (len - sent) io)) [
      | inl (io', fails) ↦ rw (more, fails, forward_exactly) (λ h. cc)
      | inr (n, io', makes) ↦
          rw (more, forward_exactly, makes)
            (forward_exactly_returns fuel len (sent + n) io' (
              omega (
                arith,
                ltb→lt sent len more,
                λ (p : 0 < len - sent). exactly_round-pos (len - sent) n io io' p makes,
              )))
    ]
    | inr done ↦ rw (done, forward_exactly) (λ h. cc)
  ]

-- A set of states of the world in which the source has ended and the target still takes writes.
pub record SourceEnded (S : Sockets) (from target : Peer) (Ended : S.World → Type 0) : Type 0 where
  pub read_ends :
      (size : ℕ) (w : S.World)
      → Ended w
      → (S.async_read_some from size w).0 ≡ record { ec = some eof; bytes = [] }
  pub read_stays : (size : ℕ) (w : S.World) → Ended w → Ended (S.async_read_some from size w).1
  pub write_ok :
      (w : S.World) → Ended w → (S.async_write target [] w).0 ≡ record { ec = none; written = 0 }
  pub write_stays : (w : S.World) → Ended w → Ended (S.async_write target [] w).1

min_zero : (n : ℕ) → min n 0 ≡ 0
min_zero n = omega arith

module _ {S : Sockets} (from target : Peer) {Ended : S.World → Type 0}
    (ended : SourceEnded S from target Ended) where
  drained : S.World → Io S
  drained w = record { buffer = []; world = w }

  after_round : S.World → S.World
  after_round w = (S.async_write target [] (S.async_read_some from read_size w).1).1

  exactly_round-ended :
      (rem : ℕ) (w : S.World)
      → Ended w
      → exactly_round S from target rem (drained w) ≡ made 0 (drained (after_round w))
  unfolding exactly_round fill drained after_round
  exactly_round-ended rem w h =
      let w1 = (S.async_read_some from read_size w).1 in
      rw (read_some_from_peer-eof from (drained w) (ended.read_ends read_size w h), min_zero)
        (write_to_peer-written target (drained w1) 0
          (ended.write_ok w1 (ended.read_stays read_size w h)))

  after_round-Ended : (w : S.World) → Ended w → Ended (after_round w)
  unfolding after_round
  after_round-Ended w h = ended.write_stays _ (ended.read_stays read_size w h)

  -- Once the source has ended before the last byte of the body, with the buffer empty, and while the target takes writes,
  -- ForwardExactly does not return: it writes nothing, again and again, with any fuel.
  pub forward_exactly_stalls :
      (fuel len sent : ℕ) (w : S.World)
      → Ended w
      → sent < len
      → forward_exactly S from target fuel len sent (record { buffer = []; world = w }) ≡ none
  unfolding forward_exactly drained
  forward_exactly_stalls zero len sent w h k = refl
  forward_exactly_stalls (suc fuel) len sent w h k =
      rw (lt→ltb sent len k, forward_exactly, exactly_round-ended (len - sent) w h)
        (forward_exactly_stalls fuel len (sent + 0) (after_round w) (after_round-Ended w h)
          (omega arith))
