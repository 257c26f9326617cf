-- ===== src/Http/Forward/ChunkedRounds.antt =====
-- What each case of the switch of ForwardChunked does.
use proxypp.Prelude.{
  ℕ, zero, suc, ◌+◌, ◌-◌, ◌≤◌, min, ◌≡◌, refl, sym, ap, subst, ◌∙◌, ◌≢◌, ◌⊎◌, inl, inr, Option,
  none, some, List, [], ◌∷◌, ◌++◌, append_assoc, arith, ◌==◌, Bool-cases, length, take,
  length-append, length-take,
}
use proxypp.Http.MessageUtils.{find_crlf, parse_chunk_size_line, size_max}
use proxypp.Http.MessageUtils.FindCrlf.{take-find_crlf, find_crlf-line}
use proxypp.Http.Stream.{
  Peer, Sockets, SocketLaws, ReadSomeResult, Io, made, read_some_from_peer, write_to_peer,
}
use proxypp.Http.Stream.Transfer.{
  bind-made, Transfer, read_some_from_peer-Transfer, write_to_peer-Transfer,
}
use proxypp.Http.Forward.{
  read_chunk_size_line, parse_chunk_size, forward_chunk_size_line, forward_chunk_data_with_crlf,
  forward_trailers, completed, Chunked, chunk_data_written, need_bytes, with_crlf_pos,
  with_chunk_body_size, with_trailer_line, after_chunk_size_line, on_forward_chunk_size_line,
  forward_buffered_chunk_data,
}
use proxypp.Http.MessageUtils.ChunkLine.{WritesSize, parse_chunk_size_line_iff}
use proxypp.Http.Forward.ChunkedBody.{
  end, field, chunk, last, Expects, Knows, Round, read_more-Transfer, stay, turn,
}

module _ {S : Sockets} (L : SocketLaws S) (from target : Peer) where
  need_bytes-made :
      (c c' : Chunked) (io io' : Io S) (r : ReadSomeResult)
      → need_bytes S from target c r io ≡ made c' io'
      → (c' ≡ c) × (io ≡ io')
  unfolding need_bytes
  need_bytes-made c c' io io' r e = ground arith

  -- case ReadChunkSizeLine
  pub read_line-Round :
      (pos : Option ℕ) (c c' : Chunked) (io io' : Io S)
      → c.state ≡ read_chunk_size_line
      → find_crlf io.buffer ≡ pos
      → with_crlf_pos S from target pos c io ≡ made c' io'
      → Round L from target read_chunk_size_line c c' io io'
  unfolding with_crlf_pos Expects Knows
  read_line-Round none c c' io io' st _ e =
      let (r, io1, read, rest) = bind-made (read_some_from_peer S from io) _ c' io' e in
      let (same, kept) = need_bytes-made c c' io1 io' r rest in
      stay L from target read_chunk_size_line c c' io io' st tt
        (same, rw (← kept) (read_some_from_peer-Transfer L from target io io1 r read))
  read_line-Round (some n) c c' io io' st found e =
      let same : c' ≡ record c { state = parse_chunk_size; chunk_size_line_length = n } =
        ground arith in
      rw same
        (turn L from target read_chunk_size_line c _ io io' (ground arith) found (λ text h. h))

  -- case ParseChunkSizeLine
  pub parse-Round :
      (size : Option ℕ) (c c' : Chunked) (io io' : Io S)
      → find_crlf io.buffer ≡ some c.chunk_size_line_length
      → parse_chunk_size_line (take c.chunk_size_line_length io.buffer) ≡ size
      → with_chunk_body_size S from target size c io ≡ made c' io'
      → Round L from target parse_chunk_size c c' io io'
  unfolding with_chunk_body_size Expects Knows
  parse-Round none c c' io io' found read e = cc
  parse-Round (some n) c c' io io' found read e =
      let same : c' ≡ record c { state = forward_chunk_size_line; chunk_size = n } = ground arith in
      rw same
        (turn L from target parse_chunk_size c _ io io' (ground arith) (found, read) (λ text h. h))

  -- The line of the buffer up to its first CRLF is sent on with that CRLF.
  write_line-Transfer :
      (io io' : Io S) (n m : ℕ)
      → find_crlf io.buffer ≡ some n
      → write_to_peer S target (n + 2) io ≡ made m io'
      → Transfer L from target io io' (take n io.buffer ++ 13 ∷ 10 ∷ [])
  write_line-Transfer io io' n m found e =
      subst (Transfer L from target io io') (take-find_crlf io.buffer n found)
        (write_to_peer-Transfer L from target io io' (n + 2) m e).1

  line_then : (line text : List ℕ) → (line ++ 13 ∷ 10 ∷ []) ++ text ≡ line ++ 13 ∷ 10 ∷ text
  line_then line text = append_assoc line (13 ∷ 10 ∷ []) text

  after_chunk_size_line-made :
      (c c' : Chunked) (io io' : Io S)
      → after_chunk_size_line S from target c io ≡ made c' io'
      → (io ≡ io')
        × (((c.chunk_size ≡ 0) × (c' ≡ record c { state = forward_trailers }))
            ⊎ ((c.chunk_size ≢ 0)
                × (c.chunk_size + 2 ≤ size_max)
                × (c' ≡ record c {
                  state = forward_chunk_data_with_crlf;
                  chunk_bytes_remaining = c.chunk_size + 2;
                })))
  unfolding after_chunk_size_line
  after_chunk_size_line-made c c' io io' e = ground arith

  -- case ForwardChunkSizeLine
  pub forward_line-Round :
      (c c' : Chunked) (io io' : Io S)
      → find_crlf io.buffer ≡ some c.chunk_size_line_length
      → parse_chunk_size_line (take c.chunk_size_line_length io.buffer) ≡ some c.chunk_size
      → on_forward_chunk_size_line S from target c io ≡ made c' io'
      → Round L from target forward_chunk_size_line c c' io io'
  unfolding on_forward_chunk_size_line Expects Knows
  forward_line-Round c c' io io' found read e =
      let line = take c.chunk_size_line_length io.buffer in
      let writes = (parse_chunk_size_line_iff line c.chunk_size).0 read in
      let (m, io1, wrote, rest) =
        bind-made (write_to_peer S target (c.chunk_size_line_length + 2) io) _ c' io' e in
      let (kept, next) = after_chunk_size_line-made c c' io1 io' rest in
      let t =
        subst (λ z. Transfer L from target io z (line ++ 13 ∷ 10 ∷ [])) kept
          (write_line-Transfer io io1 c.chunk_size_line_length m found wrote) in
      elim next [
        | inl (zero_size, same) ↦ rw same (record {
          knows = tt;
          moved = line ++ 13 ∷ 10 ∷ [];
          transfer = t;
          expects = λ text h.
              last line text _ (subst (WritesSize line) zero_size writes) (line_then line text) h;
        })
        | inr (some_size, fits, same) ↦ rw same (record {
          knows = tt;
          moved = line ++ 13 ∷ 10 ∷ [];
          transfer = t;
          expects = λ text h.
              chunk c.chunk_size line h.payload h.rest _ writes some_size fits h.size
                (line_then line text ∙ ap (λ z. line ++ 13 ∷ 10 ∷ z) h.parts) h.more;
        })
      ]

  chunk_data-Round :
      (c : Chunked) (io io' : Io S) (n : ℕ) (moved : List ℕ)
      → length moved ≡ n
      → n ≤ c.chunk_bytes_remaining
      → Transfer L from target io io' moved
      → Round L from target forward_chunk_data_with_crlf c (chunk_data_written c n) io io'
  unfolding Expects Knows
  chunk_data-Round c io io' n moved size fits t =
      elim (Bool-cases (c.chunk_bytes_remaining - n == 0)) [
        | inl all_sent ↦ rw all_sent (record {
          knows = tt;
          moved = moved;
          transfer = t;
          expects = λ text h. record {
            payload = moved;
            rest = text;
            parts = refl;
            size = ground arith;
            more = h;
          };
        })
        | inr some_left ↦ rw some_left (record {
          knows = tt;
          moved = moved;
          transfer = t;
          expects = λ text h. record {
            payload = moved ++ h.payload;
            rest = h.rest;
            parts = ap (◌++◌ moved) h.parts ∙ sym (append_assoc moved h.payload h.rest);
            size = omega (arith, length-append moved h.payload, h.size);
            more = h.more;
          };
        })
      ]

  -- case ForwardChunkDataWithCrlf
  pub data-Round :
      (c c' : Chunked) (io io' : Io S)
      → forward_buffered_chunk_data S from target c io ≡ made c' io'
      → Round L from target forward_chunk_data_with_crlf c c' io io'
  unfolding forward_buffered_chunk_data
  data-Round c c' io io' e =
      let want = min c.chunk_bytes_remaining (length io.buffer) in
      let (n, io1, wrote, rest) = bind-made (write_to_peer S target want io) _ c' io' e in
      let (n_eq, t) = write_to_peer-Transfer L from target io io1 want n wrote in
      let same : c' ≡ chunk_data_written c n = ground arith in
      let kept : io1 ≡ io' = ground arith in
      rw same (
        chunk_data-Round c io io' n (take want io.buffer)
          (omega (arith, length-take want io.buffer)) (omega arith)
          (subst (λ z. Transfer L from target io z (take want io.buffer)) kept t))

  -- case ForwardTrailers
  pub trailers-Round :
      (pos : Option ℕ) (c c' : Chunked) (io io' : Io S)
      → c.state ≡ forward_trailers
      → find_crlf io.buffer ≡ pos
      → with_trailer_line S from target pos c io ≡ made c' io'
      → Round L from target forward_trailers c c' io io'
  unfolding with_trailer_line Expects Knows
  trailers-Round none c c' io io' st _ e =
      stay L from target forward_trailers c c' io io' st tt
        (read_more-Transfer L from target c c' io io' e)
  trailers-Round (some zero) c c' io io' st found e =
      let (m, io1, wrote, rest) = bind-made (write_to_peer S target (0 + 2) io) _ c' io' e in
      let same : c' ≡ record c { state = completed } = ground arith in
      let kept : io1 ≡ io' = ground arith in
      rw same (record {
        knows = tt;
        moved = 13 ∷ 10 ∷ [];
        transfer =
            subst (λ z. Transfer L from target io z (13 ∷ 10 ∷ [])) kept
              (write_line-Transfer io io1 0 m found wrote);
        expects = λ text h. end _ (ap (λ z. 13 ∷ 10 ∷ z) h);
      })
  trailers-Round (some (suc n)) c c' io io' st found e =
      let line = take (suc n) io.buffer in
      let (m, io1, wrote, rest) = bind-made (write_to_peer S target (suc n + 2) io) _ c' io' e in
      let same : c' ≡ record c { state = forward_trailers } = ground arith in
      let kept : io1 ≡ io' = ground arith in
      let (line_length, no_crlf) = find_crlf-line io.buffer (suc n) found in
      rw same (record {
        knows = tt;
        moved = line ++ 13 ∷ 10 ∷ [];
        transfer =
            subst (λ z. Transfer L from target io z (line ++ 13 ∷ 10 ∷ [])) kept
              (write_line-Transfer io io1 (suc n) m found wrote);
        expects = λ text h.
            field line text _ (λ empty. omega (arith, line_length, ap length empty)) no_crlf
              (line_then line text) h;
      })
