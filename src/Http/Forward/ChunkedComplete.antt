-- ===== src/Http/Forward/ChunkedComplete.antt =====
-- ForwardChunked over chunks that stand in its buffer.
use proxypp.Prelude.{
  ℕ, suc, ◌+◌, ◌<◌, ◌≡◌, refl, sym, ap, subst, ◌∙◌, true, false, some, List, [], ◌∷◌, ◌++◌,
  append_assoc, arith, length, length-append,
}
use proxypp.Http.MessageUtils.{parse_chunk_size_line}
use proxypp.Http.MessageUtils.FindCrlf.{not_CrlfAt}
use proxypp.Http.Stream.{Peer, Sockets, Io, made, write_to_peer}
use proxypp.Http.Forward.{
  ChunkedState, read_chunk_size_line, parse_chunk_size, forward_chunk_size_line,
  forward_chunk_data_with_crlf, forward_trailers, completed, Chunked, is_completed, is_empty,
  after_chunk_size_line, chunked_round, chunked_loop, forward_chunked,
}
use proxypp.Http.Forward.LinePrefix.{
  line_found, line_taken, line_regroup, size_of_line, no_crlf_in_size, nonzero_test,
}
use proxypp.Http.MessageUtils.ChunkLine.{parse_chunk_size_line_iff}
use proxypp.Http.Forward.ChunkedBody.{Trailers, SizedChunks}
use proxypp.Http.Forward.ChunkedEquations.{
  TakesWrites, io_with, write_prefix, read_line_round, parse_round, after_zero, after_some,
  forward_line_round, data_round, trailer_round,
}

module _ {S : Sockets} (from target : Peer) (takes : TakesWrites S target) where
  -- The loop ends, with this buffer.
  pub record Finishes (c : Chunked) (io : Io S) (after : List ℕ) : Type 0 where
    pub fuel : ℕ
    pub world : S.World
    pub ends :
        chunked_loop S from target fuel c io
        ≡ some (made tt (record { buffer = after; world = world }))

  finish_round :
      (c c' : Chunked) (io io' : Io S) (after : List ℕ)
      → is_completed c.state ≡ false
      → chunked_round S from target c.state c io ≡ made c' io'
      → Finishes c' io' after
      → Finishes c io after
  unfolding chunked_loop
  finish_round c c' io io' after busy round f = record {
    fuel = suc f.fuel;
    world = f.world;
    ends = rw (busy, chunked_loop, round) f.ends;
  }

  finish_from :
      (st : ChunkedState) (c c' : Chunked) (io io' : Io S) (after : List ℕ)
      → c.state ≡ st
      → is_completed st ≡ false
      → chunked_round S from target st c io ≡ made c' io'
      → Finishes c' io' after
      → Finishes c io after
  finish_from st c c' io io' after same busy round f =
      finish_round c c' io io' after (ap is_completed same ∙ busy)
        (subst (λ s. chunked_round S from target s c io ≡ made c' io') (sym same) round) f

  completed_loop :
      (c : Chunked) (io : Io S)
      → is_completed c.state ≡ true
      → chunked_loop S from target 1 c io ≡ some (made tt io)
  unfolding chunked_loop
  completed_loop c io stop = ground arith

  finish_completed :
      (c : Chunked) (after : List ℕ) (w : S.World)
      → c.state ≡ completed
      → Finishes c (io_with from target takes after w) after
  unfolding io_with
  finish_completed c after w same = record {
    fuel = 1;
    world = w;
    ends = completed_loop c _ (ap is_completed same);
  }

  Trailers-Finishes :
      (text after : List ℕ) (c : Chunked) (w : S.World)
      → Trailers text
      → c.state ≡ forward_trailers
      → Finishes c (io_with from target takes (text ++ after) w) after
  unfolding io_with
  Trailers-Finishes text after c w (Trailers.end _ e) same =
      let (w', wrote) = write_prefix from target takes (13 ∷ 10 ∷ []) after w 2 refl in
      rw e (
        finish_from forward_trailers c _ _ _ after same refl
          (trailer_round from target takes c _ _ 0 2 (line_found [] after (λ k. not_CrlfAt [] tt k))
            wrote)
          (finish_completed _ after w' refl))
  Trailers-Finishes text after c w (Trailers.field line rest _ some_line no_crlf e more) same =
      let (w', wrote) =
        write_prefix from target takes (line ++ 13 ∷ 10 ∷ []) (rest ++ after) w (length line + 2)
          (size_of_line line) in
      subst (λ z. Finishes c (io_with from target takes z w) after)
        (line_regroup line rest after text e)
        (finish_from forward_trailers c _ _ _ after same refl
          (trailer_round from target takes c _ _ (length line) (length line + 2)
            (line_found line (rest ++ after) no_crlf) wrote)
          (Trailers-Finishes rest after _ w' more (rw (nonzero_test line some_line) refl)))

  -- The three rounds on a chunk-size line.
  size_line-Finishes :
      (line tail after : List ℕ) (n : ℕ) (c c' : Chunked) (w : S.World)
      → parse_chunk_size_line line ≡ some n
      → c.state ≡ read_chunk_size_line
      → ((io : Io S)
          → after_chunk_size_line S from target
              (record c {
                state = forward_chunk_size_line;
                chunk_size_line_length = length line;
                chunk_size = n;
              })
              io
            ≡ made c' io)
      → ((w' : S.World) → Finishes c' (io_with from target takes tail w') after)
      → Finishes c (io_with from target takes ((line ++ 13 ∷ 10 ∷ []) ++ tail) w) after
  unfolding io_with
  size_line-Finishes line tail after n c c' w read same next finish =
      let found = line_found line tail (no_crlf_in_size line n read) in
      let (w', wrote) =
        write_prefix from target takes (line ++ 13 ∷ 10 ∷ []) tail w (length line + 2)
          (size_of_line line) in
      finish_from read_chunk_size_line c _ _ _ after same refl
        (read_line_round from target takes c _ (length line) found)
        (finish_from parse_chunk_size _ _ _ _ after refl refl
          (parse_round from target takes _ _ n
            (ap parse_chunk_size_line (line_taken line tail) ∙ read))
          (finish_from forward_chunk_size_line _ c' _ _ after refl refl
            (forward_line_round from target takes _ c' _ _ (length line + 2) wrote (next _))
            (finish w')))

  payload-Finishes :
      (payload tail after : List ℕ) (c : Chunked) (w : S.World)
      → c.state ≡ forward_chunk_data_with_crlf
      → length payload ≡ c.chunk_bytes_remaining
      → 0 < length payload
      → ((c' : Chunked) (w' : S.World)
          → c'.state ≡ read_chunk_size_line
          → Finishes c' (io_with from target takes tail w') after)
      → Finishes c (io_with from target takes (payload ++ tail) w) after
  unfolding io_with
  payload-Finishes payload tail after c w same size some_data finish =
      let (w', wrote) =
        write_prefix from target takes payload tail w c.chunk_bytes_remaining (sym size) in
      finish_from forward_chunk_data_with_crlf c _ _ _ after same refl
        (data_round from target takes c _ _ (some_bytes payload tail some_data) (
          subst
            (λ k.
              write_to_peer S target k (io_with from target takes (payload ++ tail) w)
              ≡ made c.chunk_bytes_remaining (io_with from target takes tail w'))
            (omega (arith, length-append payload tail)) wrote))
        (finish _ w' refl)
    where
      some_bytes : (xs ys : List ℕ) → 0 < length xs → is_empty (xs ++ ys) ≡ false
      some_bytes [] ys h = absurd (omega arith)
      some_bytes (x ∷ xs) ys h = refl

  SizedChunks-Finishes :
      (text after : List ℕ) (c : Chunked) (w : S.World)
      → SizedChunks text
      → c.state ≡ read_chunk_size_line
      → Finishes c (io_with from target takes (text ++ after) w) after
  SizedChunks-Finishes text after c w (SizedChunks.last line rest _ writes e more) same =
      subst (λ z. Finishes c (io_with from target takes z w) after)
        (line_regroup line rest after text e)
        (size_line-Finishes line (rest ++ after) after 0 c _ w
          ((parse_chunk_size_line_iff line 0).1 writes) same
          (λ io. after_zero from target takes _ io refl)
          (λ w'. Trailers-Finishes rest after _ w' more refl))
  SizedChunks-Finishes text after c w
        (SizedChunks.chunk n line payload rest _ writes some_size fits size e more) same =
      subst (λ z. Finishes c (io_with from target takes z w) after)
        (line_regroup line (payload ++ rest) after text e)
        (size_line-Finishes line ((payload ++ rest) ++ after) after n c _ w
          ((parse_chunk_size_line_iff line n).1 writes) same
          (λ io. after_some from target takes _ io some_size fits)
          (λ w'. rw (append_assoc payload rest after) (
            payload-Finishes payload (rest ++ after) after _ w' refl size (omega arith)
              (λ c' w'' starts. SizedChunks-Finishes rest after c' w'' more starts))))

  -- If the buffer begins with chunks that their size lines cut up, and the target takes every write, ForwardChunked
  -- returns true with enough fuel, and leaves in the buffer exactly what follows the body.
  pub forward_chunked_completes :
      (text after : List ℕ) (w : S.World)
      → SizedChunks text
      → (fuel : ℕ) × (w' : S.World) × (forward_chunked S from target fuel
            (record { buffer = text ++ after; world = w })
          ≡ some (made tt (record { buffer = after; world = w' })))
  unfolding forward_chunked io_with
  forward_chunked_completes text after w body =
      let f = SizedChunks-Finishes text after _ w body refl in (f.fuel, f.world, f.ends)
