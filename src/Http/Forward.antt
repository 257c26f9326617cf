-- ===== src/Http/Forward.antt =====
-- The loops that move a message body from one peer to the other (src/proxypp/http/
-- http_proxy_session.cpp: ForwardExactly, ForwardChunked, ForwardUntilEof, ForwardViaTunnel).
--
-- A loop takes fuel, one unit for each round; `none` says that the fuel ran out, `some (failed io)`
-- that the loop returned false, and `some (made tt io)` that it returned true.
pub mod ExactBytes
pub mod Termination
pub mod ChunkedBody
pub mod ChunkedRounds
pub mod ChunkedLoop
pub mod LinePrefix
pub mod ChunkedStall
pub mod ChunkedEquations
pub mod ChunkedComplete
pub mod UntilEof
pub mod UntilEofReturns
use proxypp.Prelude.{
  ℕ, zero, suc, ◌+◌, ◌-◌, ◌*◌, ◌/◌, ◌%◌, ◌^◌, ◌≤◌, ◌<◌, min, String, ◌≡◌, refl, sym, ap, subst, ◌∙◌,
  ◌≡⟨◌⟩◌, ◌∎, ◌≢◌, ◌↔◌, ◌⊎◌, inl, inr, Bool, true, false, not, ◌&&◌, ◌||◌, Option, none, some, List,
  [], ◌∷◌, ◌++◌, map, append-nil, append_assoc, arith, eq_iff, ltb, leb, ◌==◌, str_eq,
  if◌then◌else◌, ltb→lt, lt→ltb, ==_iff, Bool-cases, Option-cases, length, take, drop, All,
  length-append, take-append-drop, length-take, length-drop, take-length, drop-length, filter,
  contains,
}
use proxypp.Http.MessageUtils.{find_crlf, buffer_prefix_to_string, parse_chunk_size_line, size_max}
use proxypp.Http.Stream.{
  Peer, Sockets, ReadSomeResult, Io, Step, failed, made, M, pure, fail, get, bind, continue, ◌>>=◌,
  ◌>>◌, read_some_from_peer, write_to_peer,
}

-- switch over the states of a chunked body.
pub data ChunkedState : Type 0 where
  read_chunk_size_line parse_chunk_size forward_chunk_size_line forward_chunk_data_with_crlf
        forward_trailers completed :
      ChunkedState

-- The local variables of ForwardChunked.
pub record Chunked : Type 0 where
  pub state : ChunkedState
  pub chunk_size_line_length : ℕ
  pub chunk_size : ℕ
  pub chunk_bytes_remaining : ℕ

abbrev pub is_completed : ChunkedState → Bool
is_completed completed = true
is_completed _ = false

abbrev pub is_empty : List ℕ → Bool
is_empty [] = true
is_empty (b ∷ rest) = false

-- chunk_bytes_remaining -= *bytes_written, and the state that follows.
abbrev pub chunk_data_written : Chunked → ℕ → Chunked
chunk_data_written c bytes_written =
    let remaining = c.chunk_bytes_remaining - bytes_written in
    record c {
      state = if remaining == 0 then read_chunk_size_line else forward_chunk_data_with_crlf;
      chunk_bytes_remaining = remaining;
    }

module _ (S : Sockets) (from_peer target_peer : Peer) where
  -- if(read_buffer.size() == 0) … ReadSomeFromPeer
  unfoldable pub fill : M S (Unit {0})
  fill io =
      if is_empty io.buffer then (do read_some_from_peer S from_peer; pure tt) io else made tt io

  -- One round of ForwardExactly, with the number of bytes that it has written.
  unfoldable pub exactly_round : ℕ → M S ℕ
  exactly_round bytes_remaining = do
    fill
    buffer ← get
    write_to_peer S target_peer (min bytes_remaining (length buffer))

  unfoldable pub forward_exactly : ℕ → ℕ → ℕ → Io S → Option (Step S (Unit {0}))
  forward_exactly zero content_length bytes_sent io = none
  forward_exactly (suc fuel) content_length bytes_sent io = elim (ltb bytes_sent content_length) [
    | false ↦ some (made tt io)
    | true ↦
        continue (exactly_round (content_length - bytes_sent) io)
          λ bytes_written io'. forward_exactly fuel content_length (bytes_sent + bytes_written) io'
  ]

  -- A round that only reads, and stays in its state.
  unfoldable pub read_more : Chunked → M S Chunked
  read_more c = do read_some_from_peer S from_peer; pure c

  -- if(!read_result.has_value() || read_result->bytes_read == 0) co_return false
  unfoldable pub need_bytes : Chunked → ReadSomeResult → M S Chunked
  need_bytes c r = if r.bytes_read == 0 then fail else pure c

  -- case ReadChunkSizeLine, by the result of FindCrlf
  unfoldable pub with_crlf_pos : Option ℕ → Chunked → M S Chunked
  with_crlf_pos (some crlf_pos) c =
      pure (record c { state = parse_chunk_size; chunk_size_line_length = crlf_pos })
  with_crlf_pos none c = do read_result ← read_some_from_peer S from_peer; need_bytes c read_result

  -- case ReadChunkSizeLine
  unfoldable pub on_read_chunk_size_line : Chunked → M S Chunked
  on_read_chunk_size_line c = do read_buffer ← get; with_crlf_pos (find_crlf read_buffer) c

  -- case ParseChunkSizeLine, by the result of ParseChunkSizeLine
  unfoldable pub with_chunk_body_size : Option ℕ → Chunked → M S Chunked
  with_chunk_body_size (some chunk_body_size) c =
      pure (record c { state = forward_chunk_size_line; chunk_size = chunk_body_size })
  with_chunk_body_size none c = fail

  -- case ParseChunkSizeLine
  unfoldable pub on_parse_chunk_size : Chunked → M S Chunked
  on_parse_chunk_size c = do
    read_buffer ← get
    let line = buffer_prefix_to_string read_buffer c.chunk_size_line_length
    with_chunk_body_size (parse_chunk_size_line line) c

  -- case ForwardChunkSizeLine, behind the write
  unfoldable pub after_chunk_size_line : Chunked → M S Chunked
  after_chunk_size_line c =
      if c.chunk_size == 0
      then pure (record c { state = forward_trailers })
      else if ltb (size_max - 2) c.chunk_size
      then fail
      else pure (record c {
        state = forward_chunk_data_with_crlf;
        chunk_bytes_remaining = c.chunk_size + 2;
      })

  -- case ForwardChunkSizeLine
  unfoldable pub on_forward_chunk_size_line : Chunked → M S Chunked
  on_forward_chunk_size_line c = do
    write_to_peer S target_peer (c.chunk_size_line_length + 2)
    after_chunk_size_line c

  -- case ForwardChunkDataWithCrlf, with bytes in the buffer
  unfoldable pub forward_buffered_chunk_data : Chunked → M S Chunked
  forward_buffered_chunk_data c = do
    read_buffer ← get
    bytes_written ← write_to_peer S target_peer (min c.chunk_bytes_remaining (length read_buffer))
    pure (chunk_data_written c bytes_written)

  -- case ForwardChunkDataWithCrlf
  unfoldable pub on_forward_chunk_data : Chunked → M S Chunked
  on_forward_chunk_data c = do
    read_buffer ← get
    if is_empty read_buffer then read_more c else forward_buffered_chunk_data c

  -- case ForwardTrailers, by the result of FindCrlf
  unfoldable pub with_trailer_line : Option ℕ → Chunked → M S Chunked
  with_trailer_line none c = read_more c
  with_trailer_line (some trailer_line_length) c = do
    write_to_peer S target_peer (trailer_line_length + 2)
    pure (record c { state = if trailer_line_length == 0 then completed else forward_trailers })

  -- case ForwardTrailers
  unfoldable pub on_forward_trailers : Chunked → M S Chunked
  on_forward_trailers c = do read_buffer ← get; with_trailer_line (find_crlf read_buffer) c

  -- One pass of the switch.
  unfoldable pub chunked_round : ChunkedState → Chunked → M S Chunked
  chunked_round read_chunk_size_line c = on_read_chunk_size_line c
  chunked_round parse_chunk_size c = on_parse_chunk_size c
  chunked_round forward_chunk_size_line c = on_forward_chunk_size_line c
  chunked_round forward_chunk_data_with_crlf c = on_forward_chunk_data c
  chunked_round forward_trailers c = on_forward_trailers c
  chunked_round completed c = pure c

  unfoldable pub chunked_loop : ℕ → Chunked → Io S → Option (Step S (Unit {0}))
  chunked_loop zero c io = none
  chunked_loop (suc fuel) c io = elim (is_completed c.state) [
    | true ↦ some (made tt io)
    | false ↦ continue (chunked_round c.state c io) λ c' io'. chunked_loop fuel c' io'
  ]

  unfoldable pub forward_chunked : ℕ → Io S → Option (Step S (Unit {0}))
  forward_chunked fuel = chunked_loop fuel (record {
    state = read_chunk_size_line;
    chunk_size_line_length = 0;
    chunk_size = 0;
    chunk_bytes_remaining = 0;
  })

  -- if(read_buffer.size() > 0) … WriteToPeer
  unfoldable pub drain : M S (Unit {0})
  drain io =
      if is_empty io.buffer
      then made tt io
      else (do write_to_peer S target_peer (length io.buffer); pure tt) io

  -- if(read_result->bytes_read > 0) … WriteToPeer
  unfoldable pub forward_read : ReadSomeResult → M S Bool
  forward_read r =
      if ltb 0 r.bytes_read
      then (do write_to_peer S target_peer r.bytes_read; pure r.eof)
      else pure r.eof

  -- One round of ForwardUntilEof; the result says whether the end of file was met.
  unfoldable pub until_eof_round : M S Bool
  until_eof_round = do read_result ← read_some_from_peer S from_peer; forward_read read_result

  unfoldable pub until_eof_loop : ℕ → Io S → Option (Step S (Unit {0}))
  until_eof_loop zero io = none
  until_eof_loop (suc fuel) io =
      continue (until_eof_round io)
        λ ended io'. elim ended [ true ↦ some (made tt io') | false ↦ until_eof_loop fuel io' ]

  unfoldable pub forward_until_eof : ℕ → Io S → Option (Step S (Unit {0}))
  forward_until_eof fuel io = continue (drain io) λ _ io'. until_eof_loop fuel io'

  -- The write of one round of ForwardViaTunnel.
  pub relay : M S (Unit {0})
  relay = do read_buffer ← get; write_to_peer S target_peer (length read_buffer); pure tt

  -- The round on an empty buffer: an end of file breaks the loop.
  pub read_and_relay : M S (Unit {0})
  read_and_relay = do
    read_result ← read_some_from_peer S from_peer
    if read_result.eof then fail else relay

  -- One round of ForwardViaTunnel; `failed` breaks the loop.
  pub tunnel_round : M S (Unit {0})
  tunnel_round io = if is_empty io.buffer then read_and_relay io else relay io

  -- The loop without the Close() that ends it: the state in which it was broken.
  pub forward_via_tunnel : ℕ → Io S → Option (Io S)
  forward_via_tunnel zero io = none
  forward_via_tunnel (suc fuel) io = elim (tunnel_round io) [
    | failed io' ↦ some io'
    | made _ io' ↦ forward_via_tunnel fuel io'
  ]
