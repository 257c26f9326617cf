-- ===== src/Http/Forward/ChunkedLoop.antt =====
-- What ForwardChunked has sent when it returns true.
use proxypp.Prelude.{
  ℕ, zero, suc, ◌≡◌, refl, inl, inr, true, false, some, List, [], ◌++◌, arith, Bool-cases, take,
}
use proxypp.Http.MessageUtils.{find_crlf, buffer_prefix_to_string, parse_chunk_size_line}
use proxypp.Http.Stream.{Peer, Sockets, SocketLaws, Io, made}
use proxypp.Http.Stream.Transfer.{continue-made, Transfer, Transfer-refl, Transfer-trans}
use proxypp.Http.Forward.{
  ChunkedState, read_chunk_size_line, parse_chunk_size, forward_chunk_size_line,
  forward_chunk_data_with_crlf, forward_trailers, completed, Chunked, is_completed, is_empty,
  on_read_chunk_size_line, on_parse_chunk_size, on_forward_chunk_data, on_forward_trailers,
  chunked_round, chunked_loop, forward_chunked,
}
use proxypp.Http.Forward.ChunkedBody.{SizedChunks, Expects, Knows, Round, read_more-Transfer, stay}
use proxypp.Http.Forward.ChunkedRounds.{
  read_line-Round, parse-Round, forward_line-Round, data-Round, trailers-Round,
}

module _ {S : Sockets} (L : SocketLaws S) (from target : Peer) where
  -- Every round that goes on.
  chunked_round-Round :
      (st : ChunkedState) (c c' : Chunked) (io io' : Io S)
      → c.state ≡ st
      → is_completed st ≡ false
      → Knows st c io.buffer
      → chunked_round S from target st c io ≡ made c' io'
      → Round L from target st c c' io io'
  unfolding chunked_round Knows on_read_chunk_size_line on_parse_chunk_size on_forward_chunk_data
      on_forward_trailers buffer_prefix_to_string
  chunked_round-Round read_chunk_size_line c c' io io' st _ k e =
      read_line-Round L from target (find_crlf io.buffer) c c' io io' st refl e
  chunked_round-Round parse_chunk_size c c' io io' st _ k e =
      parse-Round L from target (parse_chunk_size_line (take c.chunk_size_line_length io.buffer)) c
        c' io io' k refl e
  chunked_round-Round forward_chunk_size_line c c' io io' st _ (found, read) e =
      forward_line-Round L from target c c' io io' found read e
  chunked_round-Round forward_chunk_data_with_crlf c c' io io' st _ k e =
      elim (Bool-cases (is_empty io.buffer)) [
        | inl empty ↦
            stay L from target forward_chunk_data_with_crlf c c' io io' st tt
              (read_more-Transfer L from target c c' io io' (ground arith))
        | inr more ↦ data-Round L from target c c' io io' (ground arith)
      ]
  chunked_round-Round forward_trailers c c' io io' st _ k e =
      trailers-Round L from target (find_crlf io.buffer) c c' io io' st refl e
  chunked_round-Round completed c c' io io' st busy k e = cc

  completed-Expects : (st : ChunkedState) (c : Chunked) → is_completed st ≡ true → Expects st c []
  unfolding Expects
  completed-Expects completed c e = refl
  completed-Expects read_chunk_size_line c e = cc
  completed-Expects _ c e = cc

  chunked_loop-Expects :
      (fuel : ℕ) (c : Chunked) (io io' : Io S)
      → Knows c.state c io.buffer
      → chunked_loop S from target fuel c io ≡ some (made tt io')
      → (moved : List ℕ) × Transfer L from target io io' moved × Expects c.state c moved
  unfolding chunked_loop
  chunked_loop-Expects zero c io io' k e = cc
  chunked_loop-Expects (suc fuel) c io io' k e = elim (Bool-cases (is_completed c.state)) [
    | inl stop ↦
        let same : io ≡ io' = ground arith in
        ([], rw (← same) (Transfer-refl L from target io), completed-Expects c.state c stop)
    | inr busy ↦
        let (c1, io1, round, rest) =
          continue-made (chunked_round S from target c.state c io) _ tt io'
            (rw (busy, chunked_loop) at e) in
        let r = chunked_round-Round c.state c c1 io io1 refl busy k round in
        let (later, t, expects) = chunked_loop-Expects fuel c1 io1 io' r.knows rest in
        (
          r.moved ++ later,
          Transfer-trans L from target io io1 io' r.moved later r.transfer t,
          r.expects later expects,
        )
  ]

  -- If ForwardChunked returns true, the bytes that the target has been sent are cut up by their own
  -- chunk-size lines: lines that write a number `n` other than 0, each with a CRLF, then `n` bytes
  -- and two more, whatever these two are; then a line that writes 0, as a line of blanks does too,
  -- with a CRLF; then trailer lines up to the first empty one, at which the bytes end. With the
  -- bytes left in the buffer they are, in order, all that the buffer held and the source then
  -- delivered.
  pub forward_chunked_delivers :
      (fuel : ℕ) (io io' : Io S)
      → forward_chunked S from target fuel io ≡ some (made tt io')
      → (moved : List ℕ) × Transfer L from target io io' moved × SizedChunks moved
  unfolding forward_chunked Expects Knows
  forward_chunked_delivers fuel io io' e = chunked_loop-Expects fuel _ io io' tt e
