-- ===== src/Examples/Ending.antt =====
-- A wire is a source that ends.
use proxypp.Prelude.{
  ℕ, zero, suc, ◌<◌, ◌≡◌, refl, ◌≢◌, none, List, [], ◌∷◌, arith, length, take, drop, length-drop,
}
use proxypp.Http.Stream.{client, remote}
use proxypp.Http.Forward.{forward_until_eof}
use proxypp.Http.Forward.UntilEofReturns.{FiniteSource, forward_until_eof_returns}
use proxypp.Examples.Wire.{Wire, wires, client_sends, code_of}

abbrev to_come : Wire → ℕ
to_come w = length w.client_line.incoming

drop_less :
    (size : ℕ) (xs : List ℕ) → code_of (take size xs) ≡ none → length (drop size xs) < length xs
drop_less zero xs e = cc
drop_less (suc size) [] e = cc
drop_less (suc size) (x ∷ xs) e = omega (arith, length-drop size xs)

wires-FiniteSource : FiniteSource wires client remote to_come
wires-FiniteSource = record {
  read_less = λ size w e. drop_less size w.client_line.incoming e;
  write_keeps = λ bytes w. refl;
}

forward_until_eof_returns_example :
    forward_until_eof wires client remote 4
      (record { buffer = 1 ∷ []; world = client_sends (2 ∷ 3 ∷ 4 ∷ []) })
    ≢ none
forward_until_eof_returns_example =
    forward_until_eof_returns client remote wires-FiniteSource 4
      (record { buffer = 1 ∷ []; world = client_sends (2 ∷ 3 ∷ 4 ∷ []) }) (omega arith)
