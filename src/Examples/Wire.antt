-- ===== src/Examples/Wire.antt =====
-- Sockets over lists of bytes: what a peer has still to send, what it has sent, what it was sent.
use proxypp.Prelude.{ℕ, ◌≡◌, refl, Option, none, some, List, [], ◌∷◌, ◌++◌, length, take, drop}
use proxypp.Http.Stream.{
  ErrorCode, eof, Peer, client, remote, ReadResult, WriteResult, Sockets, SocketLaws,
}

pub record Line : Type 0 where
  pub incoming : List ℕ
  pub delivered : List ℕ
  pub written : List ℕ

pub record Wire : Type 0 where
  pub client_line : Line
  pub remote_line : Line

abbrev pub line_of : Peer → Wire → Line
line_of client w = w.client_line
line_of remote w = w.remote_line

abbrev pub with_line : Peer → Line → Wire → Wire
with_line client l w = record w { client_line = l }
with_line remote l w = record w { remote_line = l }

-- A read delivers what there is, at most `size` bytes, and then the end of the file.
abbrev pub code_of : List ℕ → Option ErrorCode
code_of [] = some eof
code_of (b ∷ bytes) = none

abbrev pub read_line : ℕ → Line → Line
read_line size l = record {
  incoming = drop size l.incoming;
  delivered = l.delivered ++ take size l.incoming;
  written = l.written;
}

abbrev pub read_wire : Peer → ℕ → Wire → ReadResult × Wire
read_wire p size w =
    let l = line_of p w in
    (
      record { ec = code_of (take size l.incoming); bytes = take size l.incoming },
      with_line p (read_line size l) w,
    )

abbrev pub write_line : List ℕ → Line → Line
write_line bytes l = record l { written = l.written ++ bytes }

abbrev pub write_wire : Peer → List ℕ → Wire → WriteResult × Wire
write_wire p bytes w =
    (record { ec = none; written = length bytes }, with_line p (write_line bytes (line_of p w)) w)

abbrev pub wires : Sockets
wires = record { World = Wire; async_read_some = read_wire; async_write = write_wire }

pub wires-SocketLaws : SocketLaws wires
wires-SocketLaws = record {
  received = λ p w. (line_of p w).delivered;
  sent = λ p w. (line_of p w).written;
  received-read = received_read;
  sent-read = sent_read;
  received-write = received_write;
  sent-write = sent_write;
}
  where
    received_read :
        (p : Peer) (size : ℕ) (w : Wire)
        → (line_of p (read_wire p size w).1).delivered
          ≡ (line_of p w).delivered ++ (read_wire p size w).0.bytes
    received_read client size w = refl
    received_read remote size w = refl

    sent_read :
        (p q : Peer) (size : ℕ) (w : Wire)
        → (line_of q (read_wire p size w).1).written ≡ (line_of q w).written
    sent_read client client size w = refl
    sent_read client remote size w = refl
    sent_read remote client size w = refl
    sent_read remote remote size w = refl

    received_write :
        (p q : Peer) (bytes : List ℕ) (w : Wire)
        → (line_of q (write_wire p bytes w).1).delivered ≡ (line_of q w).delivered
    received_write client client bytes w = refl
    received_write client remote bytes w = refl
    received_write remote client bytes w = refl
    received_write remote remote bytes w = refl

    sent_write :
        (p : Peer) (bytes : List ℕ) (w : Wire)
        → (write_wire p bytes w).0.ec ≡ none
        → (line_of p (write_wire p bytes w).1).written ≡ (line_of p w).written ++ bytes
    sent_write client bytes w e = refl
    sent_write remote bytes w e = refl

abbrev pub silent : Line
silent = record { incoming = []; delivered = []; written = [] }

-- The client sends some bytes; the remote is silent.
abbrev pub client_sends : List ℕ → Wire
client_sends bytes = record {
  client_line = record { incoming = bytes; delivered = []; written = [] };
  remote_line = silent;
}

-- The wire after the client's bytes have been read and forwarded to the remote.
abbrev pub forwarded : List ℕ → List ℕ → Wire
forwarded bytes moved = record {
  client_line = record { incoming = []; delivered = bytes; written = [] };
  remote_line = record { incoming = []; delivered = []; written = moved };
}
