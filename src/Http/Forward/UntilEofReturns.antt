-- ===== src/Http/Forward/UntilEofReturns.antt =====
-- When ForwardUntilEof returns.
use proxypp.Prelude.{
  ℕ, zero, suc, ◌<◌, ◌≡◌, sym, ap, subst, ◌∙◌, ◌≢◌, inl, inr, Bool, true, false, none, List, arith,
  ltb, Bool-cases, length,
}
use proxypp.Http.Stream.{
  Peer, Sockets, ReadSomeResult, Io, made, read_size, read_some_from_peer, write_to_peer,
}
use proxypp.Http.Stream.Transfer.{
  bind-made, Step-cases, read_some_from_peer-goes_on, write_to_peer-world,
}
use proxypp.Http.Forward.{
  is_empty, drain, forward_read, until_eof_round, until_eof_loop, forward_until_eof,
}

-- A source with a bound on the reads that succeed before it ends or fails.
pub record FiniteSource (S : Sockets) (from target : Peer) (left : S.World → ℕ) : Type 0 where
  pub read_less :
      (size : ℕ) (w : S.World)
      → (S.async_read_some from size w).0.ec ≡ none
      → left (S.async_read_some from size w).1 < left w
  pub write_keeps : (bytes : List ℕ) (w : S.World) → left (S.async_write target bytes w).1 ≡ left w

module _ {S : Sockets} (from target : Peer) {left : S.World → ℕ}
    (finite : FiniteSource S from target left) where
  write-left :
      (io io' : Io S) (n m : ℕ)
      → write_to_peer S target n io ≡ made m io'
      → left io'.world ≡ left io.world
  write-left io io' n m e =
      ap left (write_to_peer-world target io io' n m e) ∙ finite.write_keeps _ io.world

  forward_read-left :
      (r : ReadSomeResult) (io io' : Io S) (ended : Bool)
      → forward_read S from target r io ≡ made ended io'
      → (ended ≡ r.eof) × (left io'.world ≡ left io.world)
  unfolding forward_read
  forward_read-left r io io' ended e = elim (Bool-cases (ltb 0 r.bytes_read)) [
    | inl some_read ↦
        let (m, io1, wrote, rest) =
          bind-made (write_to_peer S target r.bytes_read io) (λ _ io. made r.eof io) ended io'
            (ground arith) in
        let kept : io1 ≡ io' = ground arith in
        (
          ground arith,
          subst (λ (z : Io S). left z.world ≡ left io.world) kept
              (write-left io io1 r.bytes_read m wrote),
        )
    | inr none_read ↦
        let same : io ≡ io' = ground arith in
        (ground arith, ap (λ (z : Io S). left z.world) (sym same))
  ]

  until_eof_round-left :
      (io io' : Io S)
      → until_eof_round S from target io ≡ made false io'
      → left io'.world < left io.world
  unfolding until_eof_round
  until_eof_round-left io io' e =
      let (r, io1, read, rest) = bind-made (read_some_from_peer S from io) _ false io' e in
      let (goes_on, kept) = forward_read-left r io1 io' false rest in
      let (clean, world) = read_some_from_peer-goes_on from io io1 r read (sym goes_on) in
      omega (arith, kept, ap left world, finite.read_less read_size io.world clean)

  until_eof_loop_returns :
      (fuel : ℕ) (io : Io S) → left io.world < fuel → until_eof_loop S from target fuel io ≢ none
  unfolding until_eof_loop
  until_eof_loop_returns zero io k = absurd (omega arith)
  until_eof_loop_returns (suc fuel) io k = elim (Step-cases (until_eof_round S from target io)) [
    | inl (io', fails) ↦ rw (fails, until_eof_loop) (λ h. cc)
    | inr (true, io', makes) ↦ rw (until_eof_loop, makes) (λ h. cc)
    | inr (false, io', makes) ↦
        rw (until_eof_loop, makes)
          (until_eof_loop_returns fuel io' (omega (arith, until_eof_round-left io io' makes)))
  ]

  drain-left :
      (io io' : Io S) → drain S from target io ≡ made tt io' → left io'.world ≡ left io.world
  unfolding drain
  drain-left io io' e = elim (Bool-cases (is_empty io.buffer)) [
    | inl empty ↦ let same : io ≡ io' = ground arith in ap (λ (z : Io S). left z.world) (sym same)
    | inr more ↦
        let (m, io1, wrote, rest) =
          bind-made (write_to_peer S target (length io.buffer) io) (λ _ io. made tt io) tt io'
            (ground arith) in
        let kept : io1 ≡ io' = ground arith in
        subst (λ (z : Io S). left z.world ≡ left io.world) kept (write-left io io1 _ m wrote)
  ]

  -- If only so many reads of the source can succeed before it ends or fails, ForwardUntilEof
  -- returns, with fuel for one round more.
  pub forward_until_eof_returns :
      (fuel : ℕ) (io : Io S) → left io.world < fuel → forward_until_eof S from target fuel io ≢ none
  unfolding forward_until_eof
  forward_until_eof_returns fuel io k = elim (Step-cases (drain S from target io)) [
    | inl (io', fails) ↦ rw fails (λ h. cc)
    | inr (_, io', makes) ↦
        rw makes (until_eof_loop_returns fuel io' (omega (arith, drain-left io io' makes)))
  ]
