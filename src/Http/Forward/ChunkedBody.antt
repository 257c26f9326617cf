-- ===== src/Http/Forward/ChunkedBody.antt =====
-- The bytes that ForwardChunked takes for a chunked body, and what each of its states has still to
-- send of them.
use proxypp.Prelude.{
  ℕ, ◌+◌, ◌≤◌, ◌≡◌, sym, subst, ◌∙◌, ◌≢◌, some, List, [], ◌∷◌, ◌++◌, arith, length, take,
}
use proxypp.Http.MessageUtils.{find_crlf, parse_chunk_size_line, size_max}
use proxypp.Http.MessageUtils.FindCrlf.{CrlfAt}
use proxypp.Http.MessageUtils.ChunkLine.{WritesSize}
use proxypp.Http.Stream.{Peer, Sockets, SocketLaws, Io, made, read_some_from_peer}
use proxypp.Http.Stream.Transfer.{bind-made, Transfer, Transfer-refl, read_some_from_peer-Transfer}
use proxypp.Http.Forward.{
  ChunkedState, read_chunk_size_line, parse_chunk_size, forward_chunk_size_line,
  forward_chunk_data_with_crlf, forward_trailers, completed, Chunked, read_more,
}

-- The trailer section: lines that are not empty and hold no CRLF, and an empty line.
pub data Trailers : List ℕ → Type 0 where
  end : (text : List ℕ) → text ≡ 13 ∷ 10 ∷ [] → Trailers text
  field :
      (line rest text : List ℕ)
      → line ≢ []
      → ((k : ℕ) → ¬ CrlfAt k line)
      → text ≡ line ++ 13 ∷ 10 ∷ rest
      → Trailers rest
      → Trailers text

-- The bytes that chunk-size lines cut up: chunks, each a line that writes a size `n`, a CRLF and then
-- `n + 2` bytes, a number that fits size_t, and after them a line that writes the size 0, with the
-- trailers. This is wider than a chunked body of HTTP: the two bytes behind the `n` need not be a
-- CRLF, and WritesSize lets a line of blanks stand for 0.
pub data SizedChunks : List ℕ → Type 0 where
  chunk :
      (n : ℕ) (line payload rest text : List ℕ)
      → WritesSize line n
      → n ≢ 0
      → n + 2 ≤ size_max
      → length payload ≡ n + 2
      → text ≡ line ++ 13 ∷ 10 ∷ (payload ++ rest)
      → SizedChunks rest
      → SizedChunks text
  last :
      (line rest text : List ℕ)
      → WritesSize line 0
      → text ≡ line ++ 13 ∷ 10 ∷ rest
      → Trailers rest
      → SizedChunks text

-- The rest of a chunk, of `n` bytes, and what follows it.
pub record ChunkRest (n : ℕ) (text : List ℕ) : Type 0 where
  pub payload : List ℕ
  pub rest : List ℕ
  pub parts : text ≡ payload ++ rest
  pub size : length payload ≡ n
  pub more : SizedChunks rest

-- What the loop has still to send from a state on.
unfoldable pub Expects : ChunkedState → Chunked → List ℕ → Type 0
Expects read_chunk_size_line c text = SizedChunks text
Expects parse_chunk_size c text = SizedChunks text
Expects forward_chunk_size_line c text = SizedChunks text
Expects forward_chunk_data_with_crlf c text = ChunkRest c.chunk_bytes_remaining text
Expects forward_trailers c text = Trailers text
Expects completed c text = text ≡ []

-- What a state says of the buffer.
unfoldable pub Knows : ChunkedState → Chunked → List ℕ → Type 0
Knows parse_chunk_size c buffer = find_crlf buffer ≡ some c.chunk_size_line_length
Knows forward_chunk_size_line c buffer =
    (find_crlf buffer ≡ some c.chunk_size_line_length)
    × (parse_chunk_size_line (take c.chunk_size_line_length buffer) ≡ some c.chunk_size)
Knows _ c buffer = Unit {0}

module _ {S : Sockets} (L : SocketLaws S) (from target : Peer) where
  -- What a round that goes on has done.
  pub record Round (st : ChunkedState) (c c' : Chunked) (io io' : Io S) : Type 0 where
    pub knows : Knows c'.state c' io'.buffer
    pub moved : List ℕ
    pub transfer : Transfer L from target io io' moved
    pub expects : (text : List ℕ) → Expects c'.state c' text → Expects st c (moved ++ text)

  pub read_more-Transfer :
      (c c' : Chunked) (io io' : Io S)
      → read_more S from target c io ≡ made c' io'
      → (c' ≡ c) × Transfer L from target io io' []
  unfolding read_more
  read_more-Transfer c c' io io' e =
      let (r, io1, read, same) = bind-made (read_some_from_peer S from io) _ c' io' e in
      (ground arith, read_some_from_peer-Transfer L from target io io' r (read ∙ ground arith))

  -- A round that only reads.
  pub stay :
      (st : ChunkedState) (c c' : Chunked) (io io' : Io S)
      → c.state ≡ st
      → Knows st c io'.buffer
      → (c' ≡ c) × Transfer L from target io io' []
      → Round st c c' io io'
  stay st c c' io io' same knows (unchanged, t) = rw unchanged (record {
    knows = subst (λ s. Knows s c io'.buffer) (sym same) knows;
    moved = [];
    transfer = t;
    expects = λ text h. subst (λ s. Expects s c text) same h;
  })

  -- A round that neither reads nor writes.
  pub turn :
      (st : ChunkedState) (c c' : Chunked) (io io' : Io S)
      → io ≡ io'
      → Knows c'.state c' io.buffer
      → ((text : List ℕ) → Expects c'.state c' text → Expects st c text)
      → Round st c c' io io'
  turn st c c' io io' same knows h =
      rw (← same) (record {
        knows = knows;
        moved = [];
        transfer = Transfer-refl L from target io;
        expects = h;
      })
