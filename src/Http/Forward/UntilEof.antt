-- ===== src/Http/Forward/UntilEof.antt =====
-- ForwardUntilEof and the rounds of ForwardViaTunnel: nothing stays behind in the buffer.
use proxypp.Prelude.{
  ℕ, zero, suc, ◌≡◌, refl, sym, ap, subst, ◌∙◌, inl, inr, Bool, true, some, List, [], ◌∷◌, ◌++◌,
  arith, ltb, Bool-cases, length, take-length, drop-length,
}
use proxypp.Http.Stream.{
  Peer, Sockets, SocketLaws, ReadSomeResult, Io, made, read_size, read_some_from_peer,
  write_to_peer,
}
use proxypp.Http.Stream.Transfer.{
  bind-made, continue-made, Transfer, Transfer-refl, Transfer-trans, read_some_from_peer-made,
  write_to_peer-made, read_some_from_peer-Transfer, write_to_peer-Transfer,
}
use proxypp.Http.Forward.{
  is_empty, drain, forward_read, until_eof_round, until_eof_loop, forward_until_eof,
}

nil_of_is_empty : (xs : List ℕ) → is_empty xs ≡ true → xs ≡ []
nil_of_is_empty [] e = refl
nil_of_is_empty (x ∷ xs) e = cc

length-zero : (xs : List ℕ) → 0 ≡ length xs → xs ≡ []
length-zero [] e = refl
length-zero (x ∷ xs) e = absurd (omega arith)

module _ {S : Sockets} (L : SocketLaws S) (from target : Peer) where
  -- What the buffer held, and all that was received since, has been sent.
  pub record Flushed (io io' : Io S) : Type 0 where
    pub moved : List ℕ
    pub transfer : Transfer L from target io io' moved
    pub empty : io'.buffer ≡ []

  Flushed-trans : (io io' io'' : Io S) → Flushed io io' → Flushed io' io'' → Flushed io io''
  Flushed-trans io io' io'' f g = record {
    moved = f.moved ++ g.moved;
    transfer = Transfer-trans L from target io io' io'' f.moved g.moved f.transfer g.transfer;
    empty = g.empty;
  }

  -- A write of the whole buffer.
  write_all-Flushed :
      (io io' : Io S) (m : ℕ)
      → write_to_peer S target (length io.buffer) io ≡ made m io'
      → Flushed io io'
  write_all-Flushed io io' m e = record {
    moved = io.buffer;
    transfer =
        subst (Transfer L from target io io') (take-length io.buffer)
          (write_to_peer-Transfer L from target io io' (length io.buffer) m e).1;
    empty = (write_to_peer-made target io io' (length io.buffer) m e).1 ∙ drop-length io.buffer;
  }

  drain-Flushed : (io io' : Io S) → drain S from target io ≡ made tt io' → Flushed io io'
  unfolding drain
  drain-Flushed io io' e = elim (Bool-cases (is_empty io.buffer)) [
    | inl empty ↦
        let same : io ≡ io' = ground arith in
        rw (← same) (record {
          moved = [];
          transfer = Transfer-refl L from target io;
          empty = nil_of_is_empty io.buffer empty;
        })
    | inr more ↦
        let (m, io1, wrote, rest) =
          bind-made (write_to_peer S target (length io.buffer) io) (λ _ io. made tt io) tt io'
            (ground arith) in
        let kept : io1 ≡ io' = ground arith in
        subst (Flushed io) kept (write_all-Flushed io io1 m wrote)
  ]

  -- The write of what one read has brought, into a buffer that was empty.
  forward_read-Flushed :
      (r : ReadSomeResult) (io io' : Io S) (ended : Bool)
      → r.bytes_read ≡ length io.buffer
      → forward_read S from target r io ≡ made ended io'
      → (ended ≡ r.eof) × Flushed io io'
  unfolding forward_read
  forward_read-Flushed r io io' ended size e = elim (Bool-cases (ltb 0 r.bytes_read)) [
    | inl some_read ↦
        let (m, io1, wrote, rest) =
          bind-made (write_to_peer S target r.bytes_read io) (λ _ io. made r.eof io) ended io'
            (ground arith) in
        let kept : io1 ≡ io' = ground arith in
        (
          ground arith,
          subst (Flushed io) kept (
              write_all-Flushed io io1 m
                (subst (λ n. write_to_peer S target n io ≡ made m io1) size wrote)),
        )
    | inr none_read ↦
        let same : io ≡ io' = ground arith in
        (
          ground arith,
          rw (← same) (record {
            moved = [];
            transfer = Transfer-refl L from target io;
            empty = length-zero io.buffer (ground arith);
          }),
        )
  ]

  until_eof_round-Flushed :
      (io io' : Io S) (ended : Bool)
      → io.buffer ≡ []
      → until_eof_round S from target io ≡ made ended io'
      → Flushed io io'
  unfolding until_eof_round
  until_eof_round-Flushed io io' ended drained e =
      let (r, io1, read, rest) = bind-made (read_some_from_peer S from io) _ ended io' e in
      let (io1_eq, size, _) = read_some_from_peer-made from io io1 r read in
      let bytes = (S.async_read_some from read_size io.world).0.bytes in
      let held : io1.buffer ≡ bytes =
        ap (λ (z : Io S). z.buffer) io1_eq ∙ ap (λ z. z ++ bytes) drained in
      let f = (forward_read-Flushed r io1 io' ended (size ∙ ap length (sym held)) rest).1 in
      record {
        moved = f.moved;
        transfer =
            Transfer-trans L from target io io1 io' [] f.moved
              (read_some_from_peer-Transfer L from target io io1 r read) f.transfer;
        empty = f.empty;
      }

  until_eof_loop-Flushed :
      (fuel : ℕ) (io io' : Io S)
      → io.buffer ≡ []
      → until_eof_loop S from target fuel io ≡ some (made tt io')
      → Flushed io io'
  unfolding until_eof_loop
  until_eof_loop-Flushed zero io io' drained e = cc
  until_eof_loop-Flushed (suc fuel) io io' drained e =
      let (ended, io1, round, rest) = continue-made (until_eof_round S from target io) _ tt io' e in
      let f = until_eof_round-Flushed io io1 ended drained round in
      elim (Bool-cases ended) [
        | inl stop ↦ let kept : io1 ≡ io' = ground arith in subst (Flushed io) kept f
        | inr more ↦
            Flushed-trans io io1 io' f (until_eof_loop-Flushed fuel io1 io' f.empty (ground arith))
      ]

  -- If ForwardUntilEof returns true, the target has been sent all that the buffer held and all that
  -- the source delivered since, in order, and the buffer is empty.
  pub forward_until_eof_delivers :
      (fuel : ℕ) (io io' : Io S)
      → forward_until_eof S from target fuel io ≡ some (made tt io')
      → Flushed io io'
  unfolding forward_until_eof
  forward_until_eof_delivers fuel io io' e =
      let (_, io1, drained, rest) = continue-made (drain S from target io) _ tt io' e in
      let f = drain-Flushed io io1 drained in
      Flushed-trans io io1 io' f (until_eof_loop-Flushed fuel io1 io' f.empty rest)
