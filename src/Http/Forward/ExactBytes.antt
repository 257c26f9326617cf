-- ===== src/Http/Forward/ExactBytes.antt =====
-- ForwardExactly: the bytes of a body with a Content-Length.
use proxypp.Prelude.{
  ℕ, zero, suc, ◌+◌, ◌-◌, ◌≤◌, min, ◌≡◌, ◌∙◌, inl, inr, some, List, [], ◌++◌, arith, ltb,
  Bool-cases, length, take, length-append, length-take,
}
use proxypp.Http.Stream.{Peer, Sockets, SocketLaws, Io, made, read_some_from_peer}
use proxypp.Http.Stream.Transfer.{
  bind-made, continue-made, Transfer, Transfer-refl, Transfer-trans, read_some_from_peer-Transfer,
  write_to_peer-Transfer,
}
use proxypp.Http.Forward.{is_empty, fill, exactly_round, forward_exactly}

module _ {S : Sockets} (L : SocketLaws S) (from target : Peer) where
  fill-Transfer :
      (io io' : Io S) → fill S from target io ≡ made tt io' → Transfer L from target io io' []
  unfolding fill
  fill-Transfer io io' e = elim (Bool-cases (is_empty io.buffer)) [
    | inl empty ↦
        let (r, io'', read, same) =
          bind-made (read_some_from_peer S from io) (λ _ io. made tt io) tt io' (ground arith) in
        read_some_from_peer-Transfer L from target io io' r (read ∙ ground arith)
    | inr more ↦ let same : io ≡ io' = ground arith in rw (← same) (Transfer-refl L from target io)
  ]

  exactly_round-Transfer :
      (rem n : ℕ) (io io' : Io S)
      → exactly_round S from target rem io ≡ made n io'
      → (moved : List ℕ) × Transfer L from target io io' moved × (length moved ≡ n) × (n ≤ rem)
  unfolding exactly_round
  exactly_round-Transfer rem n io io' e =
      let (_, io1, filled, rest) = bind-made (fill S from target io) _ n io' e in
      let (n_eq, wrote) = write_to_peer-Transfer L from target io1 io' _ n rest in
      (
        take (min rem (length io1.buffer)) io1.buffer,
        Transfer-trans L from target io io1 io' [] _ (fill-Transfer io io1 filled) wrote,
        omega (arith, length-take (min rem (length io1.buffer)) io1.buffer),
        omega arith,
      )

  forward_exactly-Transfer :
      (fuel len sent : ℕ) (io io' : Io S)
      → sent ≤ len
      → forward_exactly S from target fuel len sent io ≡ some (made tt io')
      → (moved : List ℕ) × Transfer L from target io io' moved × (sent + length moved ≡ len)
  unfolding forward_exactly
  forward_exactly-Transfer zero len sent io io' h e = cc
  forward_exactly-Transfer (suc fuel) len sent io io' h e = elim (Bool-cases (ltb sent len)) [
    | inl more ↦
        let (n, io1, first, rest) =
          continue-made (exactly_round S from target (len - sent) io) _ tt io'
            (rw (more, forward_exactly) at e) in
        let (xs, moved, xs_eq, n_le) = exactly_round-Transfer (len - sent) n io io1 first in
        let (ys, later, ys_eq) =
          forward_exactly-Transfer fuel len (sent + n) io1 io' (omega arith) rest in
        (
          xs ++ ys,
          Transfer-trans L from target io io1 io' xs ys moved later,
          omega (arith, length-append xs ys),
        )
    | inr done ↦
        let same : io ≡ io' = ground arith in
        ([], rw (← same) (Transfer-refl L from target io), ground arith)
  ]

  -- If ForwardExactly returns true, the target has been sent exactly `len` bytes: the first `len`
  -- of those that the buffer held and the source then delivered, in order, with no byte lost
  -- between those sent and those left in the buffer.
  pub forward_exactly_delivers :
      (fuel len : ℕ) (io io' : Io S)
      → forward_exactly S from target fuel len 0 io ≡ some (made tt io')
      → (moved : List ℕ) × Transfer L from target io io' moved × (length moved ≡ len)
  forward_exactly_delivers fuel len io io' e =
      let (moved, t, n) = forward_exactly-Transfer fuel len 0 io io' (omega arith) e in
      (moved, t, omega arith)
