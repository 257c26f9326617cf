-- ===== src/Http/Stream/Transfer.antt =====
-- What the reads and writes of a loop have moved, and that one read or write moves no more than it
-- says.
use proxypp.Prelude.{
  false, ℕ, ◌≡◌, refl, ◌⊎◌, inl, inr, sym, ap, ◌∙◌, Option, none, some, true, List, [], ◌∷◌, ◌++◌,
  append-nil, append_assoc, arith, length, take, drop, take-append-drop,
}
use proxypp.Http.Stream.{
  ErrorCode, eof, operation_aborted, Peer, Sockets, SocketLaws, ReadSomeResult, Io, Step, failed,
  bind, continue, made, M, commit, read_size, take_read, read_some_from_peer, take_written,
  write_to_peer,
}

module _ {S : Sockets} {A B : Type 0} where
  -- A chain of steps that succeeds has succeeded in its first part and in the rest.
  pub bind-made :
      (m : Step S A) (f : A → M S B) (b : B) (io : Io S)
      → bind m f ≡ made b io
      → (a : A) × (io' : Io S) × (m ≡ made a io') × (f a io' ≡ made b io)
  bind-made (failed io') f b io e = cc
  bind-made (made a io') f b io e = (a, io', refl, e)

  pub continue-made :
      (m : Step S A) (k : A → Io S → Option (Step S B)) (b : B) (io : Io S)
      → continue m k ≡ some (made b io)
      → (a : A) × (io' : Io S) × (m ≡ made a io') × (k a io' ≡ some (made b io))
  continue-made (failed io') k b io e = cc
  continue-made (made a io') k b io e = (a, io', refl, e)

module _ {S : Sockets} {A : Type 0} where
  pub Step-cases :
      (m : Step S A) → ((io : Io S) × (m ≡ failed io)) ⊎ ((a : A) × (io : Io S) × (m ≡ made a io))
  Step-cases (failed io) = inl (io, refl)
  Step-cases (made a io) = inr (a, io, refl)

module _ {S : Sockets} where
  take_read-made :
      (ec : Option ErrorCode) (bytes : List ℕ) (w : S.World) (io io' : Io S) (r : ReadSomeResult)
      → take_read S ec bytes w io ≡ made r io'
      → (io' ≡ commit bytes w io)
        × (r.bytes_read ≡ length bytes)
        × ((bytes ≡ []) → (r.eof ≡ true) × (ec ≡ some eof))
  unfolding take_read
  take_read-made none [] w io io' r e = cc
  take_read-made none (b ∷ bytes) w io io' r e = (ground arith, ground arith, λ h. cc)
  take_read-made (some eof) bytes w io io' r e =
      (ground arith, ground arith, λ _. (ground arith, refl))
  take_read-made (some operation_aborted) bytes w io io' r e = cc
  take_read-made (some _) bytes w io io' r e = cc

  take_read-goes_on :
      (ec : Option ErrorCode) (bytes : List ℕ) (w : S.World) (io io' : Io S) (r : ReadSomeResult)
      → take_read S ec bytes w io ≡ made r io'
      → r.eof ≡ false
      → (ec ≡ none) × (io'.world ≡ w)
  unfolding take_read
  take_read-goes_on none [] w io io' r e h = cc
  take_read-goes_on none (b ∷ bytes) w io io' r e h = (refl, ground arith)
  take_read-goes_on (some eof) bytes w io io' r e h = absurd (ground arith)
  take_read-goes_on (some operation_aborted) bytes w io io' r e h = cc
  take_read-goes_on (some _) bytes w io io' r e h = cc

  take_written-made :
      (n : ℕ) (ec : Option ErrorCode) (written : ℕ) (w : S.World) (io io' : Io S) (m : ℕ)
      → take_written S n ec written w io ≡ made m io'
      → (ec ≡ none) × (m ≡ n) × (io' ≡ record { buffer = drop n io.buffer; world = w })
  unfolding take_written
  take_written-made n (some code) written w io io' m e = cc
  take_written-made n none written w io io' m e = ground arith

module _ {S : Sockets} (p : Peer) where
  pub read_some_from_peer-made :
      (io io' : Io S) (r : ReadSomeResult)
      → read_some_from_peer S p io ≡ made r io'
      → let got = S.async_read_some p read_size io.world in
        (io' ≡ commit got.0.bytes got.1 io)
        × (r.bytes_read ≡ length got.0.bytes)
        × ((got.0.bytes ≡ []) → (r.eof ≡ true) × (got.0.ec ≡ some eof))
  unfolding read_some_from_peer
  read_some_from_peer-made io io' r e =
      let got = S.async_read_some p read_size io.world in
      take_read-made got.0.ec got.0.bytes got.1 io io' r e

  pub read_some_from_peer-goes_on :
      (io io' : Io S) (r : ReadSomeResult)
      → read_some_from_peer S p io ≡ made r io'
      → r.eof ≡ false
      → let got = S.async_read_some p read_size io.world in (got.0.ec ≡ none) × (io'.world ≡ got.1)
  unfolding read_some_from_peer
  read_some_from_peer-goes_on io io' r e h =
      let got = S.async_read_some p read_size io.world in
      take_read-goes_on got.0.ec got.0.bytes got.1 io io' r e h

  pub write_to_peer-world :
      (io io' : Io S) (n m : ℕ)
      → write_to_peer S p n io ≡ made m io'
      → io'.world ≡ (S.async_write p (take n io.buffer) io.world).1
  unfolding write_to_peer
  write_to_peer-world io io' n m e =
      let done = S.async_write p (take n io.buffer) io.world in
      ap (λ (z : Io S). z.world) (take_written-made n done.0.ec done.0.written done.1 io io' m e).2

  pub read_some_from_peer-eof :
      (io : Io S)
      → (S.async_read_some p read_size io.world).0 ≡ record { ec = some eof; bytes = [] }
      → read_some_from_peer S p io
        ≡ made
            (record { bytes_read = 0; eof = true })
            (commit [] (S.async_read_some p read_size io.world).1 io)
  unfolding read_some_from_peer take_read
  read_some_from_peer-eof io e = rw e refl

  pub write_to_peer-written :
      (io : Io S) (n : ℕ)
      → (S.async_write p (take n io.buffer) io.world).0 ≡ record { ec = none; written = n }
      → write_to_peer S p n io
        ≡ made n (record {
          buffer = drop n io.buffer;
          world = (S.async_write p (take n io.buffer) io.world).1;
        })
  unfolding write_to_peer take_written
  write_to_peer-written io n e = rw e (ground arith)

  pub write_to_peer-made :
      (io io' : Io S) (n m : ℕ)
      → write_to_peer S p n io ≡ made m io'
      → (m ≡ n) × (io'.buffer ≡ drop n io.buffer)
  unfolding write_to_peer
  write_to_peer-made io io' n m e =
      let done = S.async_write p (take n io.buffer) io.world in
      let (clean, m_eq, same) = take_written-made n done.0.ec done.0.written done.1 io io' m e in
      (m_eq, ap (λ (z : Io S). z.buffer) same)

module _ {S : Sockets} (L : SocketLaws S) (from target : Peer) where
  open L use {received, sent}

  -- From `io` to `io'` the loop has sent `data` on, and the bytes that the buffer held and those
  -- that were received since are, in order, what was sent and what the buffer holds.
  pub record Transfer (io io' : Io S) (moved : List ℕ) : Type 0 where
    pub new : List ℕ
    pub in_order : io.buffer ++ new ≡ moved ++ io'.buffer
    pub has_received : received from io'.world ≡ received from io.world ++ new
    pub has_sent : sent target io'.world ≡ sent target io.world ++ moved

  pub Transfer-refl : (io : Io S) → Transfer io io []
  Transfer-refl io = record {
    new = [];
    in_order = append-nil io.buffer;
    has_received = sym (append-nil _);
    has_sent = sym (append-nil _);
  }

  pub Transfer-trans :
      (io io' io'' : Io S) (xs ys : List ℕ)
      → Transfer io io' xs
      → Transfer io' io'' ys
      → Transfer io io'' (xs ++ ys)
  Transfer-trans io io' io'' xs ys t u = record {
    new = t.new ++ u.new;
    in_order =
        sym (append_assoc io.buffer t.new u.new)
        ∙ ap (λ z. z ++ u.new) t.in_order
        ∙ append_assoc xs io'.buffer u.new
        ∙ ap (◌++◌ xs) u.in_order
        ∙ sym (append_assoc xs ys io''.buffer);
    has_received =
        u.has_received ∙ ap (λ z. z ++ u.new) t.has_received ∙ append_assoc _ t.new u.new;
    has_sent = u.has_sent ∙ ap (λ z. z ++ ys) t.has_sent ∙ append_assoc _ xs ys;
  }

  -- A read that succeeds moves nothing on, and appends to the buffer what it reports.
  pub read_some_from_peer-Transfer :
      (io io' : Io S) (r : ReadSomeResult)
      → read_some_from_peer S from io ≡ made r io'
      → Transfer io io' []
  unfolding read_some_from_peer
  read_some_from_peer-Transfer io io' r e =
      let got = S.async_read_some from read_size io.world in
      rw (take_read-made got.0.ec got.0.bytes got.1 io io' r e).0 (record {
        new = got.0.bytes;
        in_order = refl;
        has_received = L.received-read from read_size io.world;
        has_sent = L.sent-read from target read_size io.world ∙ sym (append-nil _);
      })

  -- A write that succeeds has moved the first `n` bytes of the buffer.
  pub write_to_peer-Transfer :
      (io io' : Io S) (n m : ℕ)
      → write_to_peer S target n io ≡ made m io'
      → (m ≡ n) × Transfer io io' (take n io.buffer)
  unfolding write_to_peer
  write_to_peer-Transfer io io' n m e =
      let done = S.async_write target (take n io.buffer) io.world in
      let (clean, m_eq, same) = take_written-made n done.0.ec done.0.written done.1 io io' m e in
      (
        m_eq,
        rw same (record {
          new = [];
          in_order = append-nil _ ∙ sym (take-append-drop n io.buffer);
          has_received = L.received-write target from _ io.world ∙ sym (append-nil _);
          has_sent = L.sent-write target _ io.world clean;
        }),
      )
