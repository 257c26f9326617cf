-- ===== src/Examples/Forwarding.antt =====
-- The forwarding loops on concrete wires.
use proxypp.Prelude.{
  ℕ, zero, suc, ◌≡◌, refl, ◌≢◌, none, some, List, [], ◌∷◌, ◌++◌, arith, length, take, drop,
}
use proxypp.Http.Stream.{
  client, remote, Sockets, Io, made, take_read, read_some_from_peer, take_written, write_to_peer,
}
use proxypp.Http.Stream.Transfer.{Transfer}
use proxypp.Http.MessageUtils.{
  find_crlf, parse_chunk_size_line, hex_digit, push_digit, parse_digits, before, occurs, drop_ows,
  trim_trailing_ows, buffer_prefix_to_string,
}
use proxypp.Http.Forward.{
  fill, exactly_round, forward_exactly, forward_chunked, forward_until_eof, chunked_loop,
  chunked_round, on_read_chunk_size_line, with_crlf_pos, on_parse_chunk_size, with_chunk_body_size,
  on_forward_chunk_size_line, after_chunk_size_line, on_forward_chunk_data,
  forward_buffered_chunk_data, on_forward_trailers, with_trailer_line, read_more, need_bytes, drain,
  forward_read, until_eof_round, until_eof_loop,
}
use proxypp.Http.Forward.ExactBytes.{forward_exactly_delivers}
use proxypp.Http.Forward.Termination.{
  NeverEnds, SourceEnded, forward_exactly_returns, forward_exactly_stalls,
}
use proxypp.Http.MessageUtils.ChunkLine.{parse_chunk_size_line_iff}
use proxypp.Http.Forward.ChunkedBody.{Trailers, SizedChunks}
use proxypp.Http.Forward.ChunkedEquations.{TakesWrites}
use proxypp.Http.Forward.{Chunked, forward_chunk_data_with_crlf}
use proxypp.Http.Forward.ChunkedStall.{chunked_loop_stalls}
use proxypp.Http.Forward.ChunkedComplete.{forward_chunked_completes}
use proxypp.Http.Forward.ChunkedLoop.{forward_chunked_delivers}
use proxypp.Http.Forward.UntilEof.{Flushed, forward_until_eof_delivers}
use proxypp.Examples.Wire.{Wire, wires, wires-SocketLaws, client_sends, forwarded}

-- Two bytes of a body in the buffer, two more on the way, and one that is not of the body.
abbrev exact_start : Io wires
exact_start = record { buffer = 1 ∷ 2 ∷ []; world = client_sends (3 ∷ 4 ∷ 5 ∷ []) }

abbrev exact_end : Io wires
exact_end = record { buffer = 5 ∷ []; world = forwarded (3 ∷ 4 ∷ 5 ∷ []) (1 ∷ 2 ∷ 3 ∷ 4 ∷ []) }

exact_run : forward_exactly wires client remote 9 4 0 exact_start ≡ some (made tt exact_end)
unfolding forward_exactly exactly_round fill read_some_from_peer take_read write_to_peer
    take_written
exact_run = refl

forward_exactly_delivers_example :
    (moved : List ℕ) × Transfer wires-SocketLaws client remote exact_start exact_end moved
    × (length moved ≡ 4)
forward_exactly_delivers_example =
    forward_exactly_delivers wires-SocketLaws client remote 9 4 exact_start exact_end exact_run

-- A source that always has a byte.
abbrev steady : Sockets
steady = record {
  World = ℕ;
  async_read_some = λ p size w. (record { ec = none; bytes = w ∷ [] }, w);
  async_write = λ p bytes w. (record { ec = none; written = length bytes }, w);
}

steady-NeverEnds : NeverEnds steady remote
steady-NeverEnds size w e h = cc

forward_exactly_returns_example :
    forward_exactly steady remote client 4 3 0 (record { buffer = []; world = 7 }) ≢ none
forward_exactly_returns_example =
    forward_exactly_returns remote client steady-NeverEnds 4 3 0 (record { buffer = []; world = 7 })
      (omega arith)

abbrev RemoteGone : Wire → Type 0
RemoteGone w = w.remote_line.incoming ≡ []

drop_empty : (n : ℕ) → drop {A = ℕ} n [] ≡ []
drop_empty zero = refl
drop_empty (suc n) = refl

take_empty : (n : ℕ) → take {A = ℕ} n [] ≡ []
take_empty zero = refl
take_empty (suc n) = refl

wires-SourceEnded : SourceEnded wires remote client RemoteGone
wires-SourceEnded = record {
  read_ends = λ size w h. rw (h, take_empty size) refl;
  read_stays = λ size w h. rw h (drop_empty size);
  write_ok = λ w h. refl;
  write_stays = λ w h. h;
}

forward_exactly_stalls_example :
    forward_exactly wires remote client 1000 9 2 (record { buffer = []; world = client_sends [] })
    ≡ none
forward_exactly_stalls_example =
    forward_exactly_stalls remote client wires-SourceEnded 1000 9 2 (client_sends []) refl
      (omega arith)

-- A chunk of three bytes and the last chunk: the size line of the first is in the buffer.
abbrev chunk_line : List ℕ
chunk_line = b'3' ∷ 13 ∷ 10 ∷ []

abbrev chunk_rest : List ℕ
chunk_rest = 7 ∷ 8 ∷ 9 ∷ 13 ∷ 10 ∷ b'0' ∷ 13 ∷ 10 ∷ 13 ∷ 10 ∷ 77 ∷ []

abbrev chunk_start : Io wires
chunk_start = record { buffer = chunk_line; world = client_sends chunk_rest }

abbrev chunk_sent : List ℕ
chunk_sent = b'3' ∷ 13 ∷ 10 ∷ 7 ∷ 8 ∷ 9 ∷ 13 ∷ 10 ∷ b'0' ∷ 13 ∷ 10 ∷ 13 ∷ 10 ∷ []

abbrev chunk_end : Io wires
chunk_end = record { buffer = 77 ∷ []; world = forwarded chunk_rest chunk_sent }

chunk_run : forward_chunked wires client remote 20 chunk_start ≡ some (made tt chunk_end)
unfolding forward_chunked chunked_loop chunked_round on_read_chunk_size_line with_crlf_pos
    on_parse_chunk_size with_chunk_body_size on_forward_chunk_size_line after_chunk_size_line
    on_forward_chunk_data forward_buffered_chunk_data on_forward_trailers with_trailer_line
    read_more need_bytes read_some_from_peer take_read write_to_peer take_written find_crlf
    buffer_prefix_to_string parse_chunk_size_line hex_digit push_digit parse_digits before occurs
    drop_ows trim_trailing_ows
chunk_run = refl

-- The two bytes behind the data of a chunk are not looked at: "1", a line end, "aXX", "0" and two
-- line ends go through.
abbrev loose : List ℕ
loose = b'1' ∷ 13 ∷ 10 ∷ b'a' ∷ b'X' ∷ b'X' ∷ b'0' ∷ 13 ∷ 10 ∷ 13 ∷ 10 ∷ []

loose_run :
    forward_chunked wires client remote 20 (record { buffer = loose; world = client_sends [] })
    ≡ some (made tt (record { buffer = []; world = forwarded [] loose }))
unfolding forward_chunked chunked_loop chunked_round on_read_chunk_size_line with_crlf_pos
    on_parse_chunk_size with_chunk_body_size on_forward_chunk_size_line after_chunk_size_line
    on_forward_chunk_data forward_buffered_chunk_data on_forward_trailers with_trailer_line
    read_more need_bytes read_some_from_peer take_read write_to_peer take_written find_crlf
    buffer_prefix_to_string parse_chunk_size_line hex_digit push_digit parse_digits before occurs
    drop_ows trim_trailing_ows
loose_run = refl

forward_chunked_delivers_example :
    (moved : List ℕ) × Transfer wires-SocketLaws client remote chunk_start chunk_end moved
    × SizedChunks moved
forward_chunked_delivers_example =
    forward_chunked_delivers wires-SocketLaws client remote 20 chunk_start chunk_end chunk_run

-- The same bytes, cut up by their size lines.
three : parse_chunk_size_line (b'3' ∷ []) ≡ some 3
unfolding parse_chunk_size_line hex_digit push_digit parse_digits before occurs drop_ows
    trim_trailing_ows
three = refl

naught : parse_chunk_size_line (b'0' ∷ []) ≡ some 0
unfolding parse_chunk_size_line hex_digit push_digit parse_digits before occurs drop_ows
    trim_trailing_ows
naught = refl

chunk_sent-SizedChunks : SizedChunks chunk_sent
chunk_sent-SizedChunks =
    SizedChunks.chunk 3 (b'3' ∷ []) (7 ∷ 8 ∷ 9 ∷ 13 ∷ 10 ∷ []) (b'0' ∷ 13 ∷ 10 ∷ 13 ∷ 10 ∷ [])
      chunk_sent ((parse_chunk_size_line_iff (b'3' ∷ []) 3).0 three) (omega arith) (omega arith)
      refl refl
      (SizedChunks.last (b'0' ∷ []) (13 ∷ 10 ∷ []) (b'0' ∷ 13 ∷ 10 ∷ 13 ∷ 10 ∷ [])
        ((parse_chunk_size_line_iff (b'0' ∷ []) 0).0 naught) refl
        (Trailers.end (13 ∷ 10 ∷ []) refl))

wires-TakesWrites : TakesWrites wires remote
wires-TakesWrites bytes w = refl

forward_chunked_completes_example :
    (fuel : ℕ) × (w' : Wire) × (forward_chunked wires client remote fuel
        (record { buffer = chunk_sent ++ 77 ∷ []; world = client_sends [] })
      ≡ some (made tt (record { buffer = 77 ∷ []; world = w' })))
forward_chunked_completes_example =
    forward_chunked_completes client remote wires-TakesWrites chunk_sent (77 ∷ []) (client_sends [])
      chunk_sent-SizedChunks

eof_run :
    forward_until_eof wires client remote 3 exact_start
    ≡ some (
        made tt
          (record { buffer = []; world = forwarded (3 ∷ 4 ∷ 5 ∷ []) (1 ∷ 2 ∷ 3 ∷ 4 ∷ 5 ∷ []) }))
unfolding forward_until_eof until_eof_loop until_eof_round drain forward_read read_some_from_peer
    take_read write_to_peer take_written
eof_run = refl

forward_until_eof_delivers_example :
    Flushed wires-SocketLaws client remote exact_start
      (record { buffer = []; world = forwarded (3 ∷ 4 ∷ 5 ∷ []) (1 ∷ 2 ∷ 3 ∷ 4 ∷ 5 ∷ []) })
forward_until_eof_delivers_example =
    forward_until_eof_delivers wires-SocketLaws client remote 3 exact_start
      (record { buffer = []; world = forwarded (3 ∷ 4 ∷ 5 ∷ []) (1 ∷ 2 ∷ 3 ∷ 4 ∷ 5 ∷ []) }) eof_run

-- Five bytes of a chunk are missing.
abbrev inside_chunk : Chunked
inside_chunk = record {
  state = forward_chunk_data_with_crlf;
  chunk_size_line_length = 1;
  chunk_size = 8;
  chunk_bytes_remaining = 5;
}

chunked_loop_stalls_example :
    chunked_loop wires remote client 1000 inside_chunk
      (record { buffer = []; world = client_sends [] })
    ≡ none
chunked_loop_stalls_example =
    chunked_loop_stalls remote client wires-SourceEnded 1000 inside_chunk (client_sends []) refl
      refl
