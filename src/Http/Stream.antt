-- ===== src/Http/Stream.antt =====
-- The two connections of a session as the forwarding loops use them: the operations of Boost.Asio
-- on a socket, with what the loops rely on, and the read buffer (src/proxypp/http/
-- http_proxy_session.cpp: ReadSomeFromPeer and WriteToPeer).
pub mod Transfer
use proxypp.Prelude.{
  ℕ, zero, suc, ◌+◌, ◌-◌, ◌*◌, ◌/◌, ◌%◌, ◌^◌, ◌≤◌, ◌<◌, min, String, ◌≡◌, refl, sym, ap, subst, ◌∙◌,
  ◌≡⟨◌⟩◌, ◌∎, ◌≢◌, ◌↔◌, ◌⊎◌, inl, inr, Bool, true, false, not, ◌&&◌, ◌||◌, Option, none, some, List,
  [], ◌∷◌, ◌++◌, map, append-nil, append_assoc, arith, eq_iff, ltb, leb, ◌==◌, str_eq,
  if◌then◌else◌, ltb→lt, lt→ltb, ==_iff, Bool-cases, Option-cases, length, take, drop, All,
  length-append, take-append-drop, length-take, length-drop, take-length, drop-length, filter,
  contains,
}

-- The error codes that the code tells apart.
pub data ErrorCode : Type 0 where
  eof end_of_stream operation_aborted not_connected connection_reset : ErrorCode
  other : ℕ → ErrorCode

pub data Peer : Type 0 where
  client remote : Peer

pub record ReadResult : Type 0 where
  pub ec : Option ErrorCode
  pub bytes : List ℕ

pub record WriteResult : Type 0 where
  pub ec : Option ErrorCode
  pub written : ℕ

-- The sockets, and the state of all that lies beyond them.
pub record Sockets : Type 1 where
  pub World : Type 0
  pub async_read_some : Peer → ℕ → World → ReadResult × World
  pub async_write : Peer → List ℕ → World → WriteResult × World

-- What Boost.Asio documents of them, in terms of all bytes that a peer has handed over so far and
-- all that it has been sent.
pub record SocketLaws (S : Sockets) : Type 0 where
  pub received : Peer → S.World → List ℕ
  pub sent : Peer → S.World → List ℕ
  pub received-read :
      (p : Peer) (size : ℕ) (w : S.World)
      → received p (S.async_read_some p size w).1
        ≡ received p w ++ (S.async_read_some p size w).0.bytes
  pub sent-read :
      (p q : Peer) (size : ℕ) (w : S.World) → sent q (S.async_read_some p size w).1 ≡ sent q w
  pub received-write :
      (p q : Peer) (bytes : List ℕ) (w : S.World)
      → received q (S.async_write p bytes w).1 ≡ received q w
  pub sent-write :
      (p : Peer) (bytes : List ℕ) (w : S.World)
      → (S.async_write p bytes w).0.ec ≡ none
      → sent p (S.async_write p bytes w).1 ≡ sent p w ++ bytes

pub record ReadSomeResult : Type 0 where
  pub bytes_read : ℕ
  pub eof : Bool

-- One read buffer, beside the world.
pub record Io (S : Sockets) : Type 0 where
  pub buffer : List ℕ
  pub world : S.World

-- What a coroutine returns: `failed` is std::nullopt, or false.
pub data Step (S : Sockets) (A : Type 0) : Type 0 where
  failed : Io S → Step S A
  made : A → Io S → Step S A

abbrev pub M : Sockets → Type 0 → Type 0
M S A = Io S → Step S A

module _ {S : Sockets} where
  abbrev pub pure : {A : Type 0} → A → M S A
  pure a io = made a io

  abbrev pub fail : {A : Type 0} → M S A
  fail io = failed io

  abbrev pub get : M S (List ℕ)
  get io = made io.buffer io

  abbrev pub bind : {A B : Type 0} → Step S A → (A → M S B) → Step S B
  bind (failed io) f = failed io
  bind (made a io) f = f a io

  infixl 5 ◌>>=◌ ◌>>◌
  abbrev pub ◌>>=◌ : {A B : Type 0} → M S A → (A → M S B) → M S B
  ◌>>=◌ m f io = bind (m io) f

  abbrev pub ◌>>◌ : {A B : Type 0} → M S A → M S B → M S B
  m >> k = m >>= λ _. k

  -- A round of a loop, and the rest of the loop if the round did not return false.
  abbrev pub continue :
      {A B : Type 0} → Step S A → (A → Io S → Option (Step S B)) → Option (Step S B)
  continue (failed io) rest = some (failed io)
  continue (made a io) rest = rest a io

  abbrev pub commit : List ℕ → S.World → Io S → Io S
  commit bytes w io = record { buffer = io.buffer ++ bytes; world = w }

  abbrev pub keep : S.World → Io S → Io S
  keep w io = record { buffer = io.buffer; world = w }

-- The most that one read asks for.
abbrev pub read_size : ℕ
read_size = 64 * 1024

module _ (S : Sockets) where
  -- The result of a read, by its error code; the bytes of an end of file or of an aborted read are
  -- kept, those of another error are not.
  unfoldable pub take_read : Option ErrorCode → List ℕ → S.World → M S ReadSomeResult
  take_read none [] w io = failed (keep w io)
  take_read none (b ∷ bytes) w io =
      made (record { bytes_read = length (b ∷ bytes); eof = false }) (commit (b ∷ bytes) w io)
  take_read (some eof) bytes w io =
      made (record { bytes_read = length bytes; eof = true }) (commit bytes w io)
  take_read (some operation_aborted) bytes w io = failed (commit bytes w io)
  take_read (some _) bytes w io = failed (keep w io)

  unfoldable pub read_some_from_peer : Peer → M S ReadSomeResult
  read_some_from_peer from_peer io =
      let (r, w) = S.async_read_some from_peer read_size io.world in take_read r.ec r.bytes w io

  -- The result of a write of the first `n` bytes of the buffer.
  unfoldable pub take_written : ℕ → Option ErrorCode → ℕ → S.World → M S ℕ
  take_written n (some code) written w io = failed (keep w io)
  take_written n none written w io =
      if written == n
      then made written (record { buffer = drop written io.buffer; world = w })
      else failed (keep w io)

  unfoldable pub write_to_peer : Peer → ℕ → M S ℕ
  write_to_peer target_peer bytes_to_write io =
      let (r, w) = S.async_write target_peer (take bytes_to_write io.buffer) io.world in
      take_written bytes_to_write r.ec r.written w io
