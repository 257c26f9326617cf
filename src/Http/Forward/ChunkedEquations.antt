-- ===== src/Http/Forward/ChunkedEquations.antt =====
-- The rounds of ForwardChunked that go on, as equations.
use proxypp.Prelude.{
  ℕ, ◌+◌, ◌≤◌, min, ◌≡◌, refl, ◌∙◌, ◌≢◌, false, none, some, List, ◌++◌, arith, ◌==◌, if◌then◌else◌,
  length, take,
}
use proxypp.Http.MessageUtils.{find_crlf, buffer_prefix_to_string, parse_chunk_size_line, size_max}
use proxypp.Http.Stream.{Peer, Sockets, Io, made, write_to_peer}
use proxypp.Http.Stream.Transfer.{write_to_peer-written}
use proxypp.Http.Forward.{
  read_chunk_size_line, parse_chunk_size, forward_chunk_size_line, forward_chunk_data_with_crlf,
  forward_trailers, completed, Chunked, is_empty, with_crlf_pos, on_read_chunk_size_line,
  with_chunk_body_size, on_parse_chunk_size, after_chunk_size_line, on_forward_chunk_size_line,
  forward_buffered_chunk_data, on_forward_chunk_data, with_trailer_line, on_forward_trailers,
  chunked_round,
}
use proxypp.Http.Forward.LinePrefix.{take_prefix, drop_prefix}

-- A target that takes every write whole.
abbrev pub TakesWrites : Sockets → Peer → Type 0
TakesWrites S target =
    (bytes : List ℕ) (w : S.World)
    → (S.async_write target bytes w).0 ≡ record { ec = none; written = length bytes }

module _ {S : Sockets} (from target : Peer) (takes : TakesWrites S target) where
  unfoldable pub io_with : List ℕ → S.World → Io S
  io_with buffer w = record { buffer = buffer; world = w }

  pub write_prefix :
      (xs ys : List ℕ) (w : S.World) (n : ℕ)
      → n ≡ length xs
      → (w' : S.World) × (write_to_peer S target n (io_with (xs ++ ys) w) ≡ made n (io_with ys w'))
  unfolding io_with
  write_prefix xs ys w n size = rw size (
    (S.async_write target xs w).1,
    write_to_peer-written target (record { buffer = xs ++ ys; world = w }) (length xs)
          (rw (take_prefix xs ys) (takes xs w))
        ∙ rw (take_prefix xs ys, drop_prefix xs ys) refl,
  )

  -- The three rounds on a line, as equations.
  pub read_line_round :
      (c : Chunked) (io : Io S) (n : ℕ)
      → find_crlf io.buffer ≡ some n
      → chunked_round S from target read_chunk_size_line c io
        ≡ made (record c { state = parse_chunk_size; chunk_size_line_length = n }) io
  unfolding chunked_round on_read_chunk_size_line with_crlf_pos
  read_line_round c io n found = rw found refl

  pub parse_round :
      (c : Chunked) (io : Io S) (n : ℕ)
      → parse_chunk_size_line (take c.chunk_size_line_length io.buffer) ≡ some n
      → chunked_round S from target parse_chunk_size c io
        ≡ made (record c { state = forward_chunk_size_line; chunk_size = n }) io
  unfolding chunked_round on_parse_chunk_size with_chunk_body_size buffer_prefix_to_string
  parse_round c io n read = rw read refl

  pub after_zero :
      (c : Chunked) (io : Io S)
      → c.chunk_size ≡ 0
      → after_chunk_size_line S from target c io ≡ made (record c { state = forward_trailers }) io
  unfolding after_chunk_size_line
  after_zero c io zero_size = ground arith

  pub after_some :
      (c : Chunked) (io : Io S)
      → c.chunk_size ≢ 0
      → c.chunk_size + 2 ≤ size_max
      → after_chunk_size_line S from target c io
        ≡ made
            (record c {
              state = forward_chunk_data_with_crlf;
              chunk_bytes_remaining = c.chunk_size + 2;
            })
            io
  unfolding after_chunk_size_line
  after_some c io some_size fits = ground arith

  pub forward_line_round :
      (c c' : Chunked) (io io1 : Io S) (m : ℕ)
      → write_to_peer S target (c.chunk_size_line_length + 2) io ≡ made m io1
      → after_chunk_size_line S from target c io1 ≡ made c' io1
      → chunked_round S from target forward_chunk_size_line c io ≡ made c' io1
  unfolding chunked_round on_forward_chunk_size_line
  forward_line_round c c' io io1 m wrote next = rw wrote next

  pub data_round :
      (c : Chunked) (io io1 : Io S)
      → is_empty io.buffer ≡ false
      → write_to_peer S target (min c.chunk_bytes_remaining (length io.buffer)) io
        ≡ made c.chunk_bytes_remaining io1
      → chunked_round S from target forward_chunk_data_with_crlf c io
        ≡ made (record c { state = read_chunk_size_line; chunk_bytes_remaining = 0 }) io1
  unfolding chunked_round on_forward_chunk_data forward_buffered_chunk_data
  data_round c io io1 more wrote = rw (more, wrote) (ground arith)

  pub trailer_round :
      (c : Chunked) (io io1 : Io S) (n m : ℕ)
      → find_crlf io.buffer ≡ some n
      → write_to_peer S target (n + 2) io ≡ made m io1
      → chunked_round S from target forward_trailers c io
        ≡ made (record c { state = if n == 0 then completed else forward_trailers }) io1
  unfolding chunked_round on_forward_trailers with_trailer_line
  trailer_round c io io1 n m found wrote = rw (found, wrote) refl
