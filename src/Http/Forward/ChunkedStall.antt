-- ===== src/Http/Forward/ChunkedStall.antt =====
-- ForwardChunked on a source that ends inside a chunk or inside the trailers.
use proxypp.Prelude.{ℕ, zero, suc, ◌≡◌, refl, Bool, true, false, none, []}
use proxypp.Http.MessageUtils.{find_crlf}
use proxypp.Http.Stream.{Peer, Sockets, Io, made, read_size}
use proxypp.Http.Stream.Transfer.{read_some_from_peer-eof}
use proxypp.Http.Forward.{
  ChunkedState, read_chunk_size_line, parse_chunk_size, forward_chunk_size_line,
  forward_chunk_data_with_crlf, forward_trailers, completed, Chunked, is_completed, read_more,
  on_forward_chunk_data, with_trailer_line, on_forward_trailers, chunked_round, chunked_loop,
}
use proxypp.Http.Forward.Termination.{SourceEnded}

-- The states in which the code reads on without a look at the number of bytes read.
abbrev pub waits : ChunkedState → Bool
waits forward_chunk_data_with_crlf = true
waits forward_trailers = true
waits _ = false

module _ {S : Sockets} (from target : Peer) {Ended : S.World → Type 0}
    (ended : SourceEnded S from target Ended) where
  read_more-ended :
      (c : Chunked) (w : S.World)
      → Ended w
      → read_more S from target c (record { buffer = []; world = w })
        ≡ made c (record { buffer = []; world = (S.async_read_some from read_size w).1 })
  unfolding read_more
  read_more-ended c w h =
      let io : Io S = record { buffer = []; world = w } in
      let step = read_some_from_peer-eof {S = S} from io (ended.read_ends read_size w h) in
      rw step refl

  waiting_round :
      (st : ChunkedState) (c : Chunked) (w : S.World)
      → Ended w
      → waits st ≡ true
      → chunked_round S from target st c (record { buffer = []; world = w })
        ≡ made c (record { buffer = []; world = (S.async_read_some from read_size w).1 })
  unfolding chunked_round on_forward_chunk_data on_forward_trailers with_trailer_line find_crlf
  waiting_round forward_chunk_data_with_crlf c w h e = read_more-ended c w h
  waiting_round forward_trailers c w h e = read_more-ended c w h
  waiting_round read_chunk_size_line c w h e = cc
  waiting_round parse_chunk_size c w h e = cc
  waiting_round forward_chunk_size_line c w h e = cc
  waiting_round completed c w h e = cc

  not_completed : (st : ChunkedState) → waits st ≡ true → is_completed st ≡ false
  not_completed completed e = cc
  not_completed _ e = refl

  -- Once the source has ended inside a chunk or inside the trailers, with the buffer empty,
  -- ForwardChunked does not return: it reads nothing, again and again, with any fuel.
  pub chunked_loop_stalls :
      (fuel : ℕ) (c : Chunked) (w : S.World)
      → Ended w
      → waits c.state ≡ true
      → chunked_loop S from target fuel c (record { buffer = []; world = w }) ≡ none
  unfolding chunked_loop
  chunked_loop_stalls zero c w h e = refl
  chunked_loop_stalls (suc fuel) c w h e =
      rw (not_completed c.state e, chunked_loop, waiting_round c.state c w h e)
        (chunked_loop_stalls fuel c _ (ended.read_stays read_size w h) e)
