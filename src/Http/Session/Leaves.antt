-- ===== src/Http/Session/Leaves.antt =====
-- What the operations of a session leave of it: open, or closed and without a remote.
use proxypp.Prelude.{◌≡◌, refl, ◌⊎◌, inl, true, false, Option, none, some, arith}
use proxypp.Http.Environment.{Environment}
use proxypp.Http.Session.{
  Session, Outcome, done, stopped, thrown, starved, X, bind, check, or_stop, or_throw,
}

module _ {V : Environment} where
  -- Close() has not run, or it has.
  abbrev pub IsOpen : Session V → Type 0
  IsOpen s = s.closed ≡ false

  abbrev pub IsClosed : Session V → Type 0
  IsClosed s =
      (s.closed ≡ true) × (s.remote_state ≡ record { host = ""; port = ""; connected = false })

  abbrev pub Settled : Session V → Type 0
  Settled s = IsOpen s ⊎ IsClosed s

  -- A predicate for the value and the session of an outcome, one for the session that is stopped,
  -- and an open session behind an exception.
  abbrev pub Leaves :
      {A : Type 0} → (A → Session V → Type 0) → (Session V → Type 0) → Outcome V A → Type 0
  Leaves P Q (done a s) = P a s
  Leaves P Q (stopped s) = Q s
  Leaves P Q (thrown s) = IsOpen s
  Leaves P Q starved = Unit {0}

  abbrev pub StaysOpen : {A : Type 0} → X V A → Type 0
  StaysOpen m = (s : Session V) → IsOpen s → Leaves (λ _. IsOpen) Settled (m s)

  -- A chain that begins with a step that keeps the session open.
  pub bind-Leaves :
      {A B : Type 0} (P : B → Session V → Type 0) (m : Outcome V A) (f : A → X V B)
      → Leaves (λ _. IsOpen) Settled m
      → ((a : A) (s : Session V) → IsOpen s → Leaves P Settled (f a s))
      → Leaves P Settled (bind m f)
  bind-Leaves P (done a s) f h k = k a s h
  bind-Leaves P (stopped s) f h k = h
  bind-Leaves P (thrown s) f h k = h
  bind-Leaves P starved f h k = tt

  pub or_stop-StaysOpen : {A : Type 0} (o : Option A) → StaysOpen (or_stop o)
  or_stop-StaysOpen none s h = inl h
  or_stop-StaysOpen (some a) s h = h

  pub or_throw-StaysOpen : {A : Type 0} (o : Option A) → StaysOpen (or_throw o)
  or_throw-StaysOpen none s h = h
  or_throw-StaysOpen (some a) s h = h

  pub check-StaysOpen : {A B : Type 0} (o : Option B) (a : A) → StaysOpen (check o a)
  check-StaysOpen none a s h = h
  check-StaysOpen (some code) a s h = inl h

  -- A chain that ends with a value has one for its first step.
  pub bind-done :
      {A B : Type 0} (m : Outcome V A) (f : A → X V B) (b : B) (s : Session V)
      → bind m f ≡ done b s
      → (a : A) × (s' : Session V) × (m ≡ done a s') × (f a s' ≡ done b s)
  bind-done (done a s') f b s e = (a, s', refl, e)
  bind-done (stopped s') f b s e = cc
  bind-done (thrown s') f b s e = cc
  bind-done starved f b s e = cc

  pub or_throw-done :
      {A : Type 0} (o : Option A) (s s' : Session V) (a : A)
      → or_throw o s ≡ done a s'
      → (o ≡ some a) × (s ≡ s')
  or_throw-done none s s' a e = cc
  or_throw-done (some x) s s' a e = ground arith
