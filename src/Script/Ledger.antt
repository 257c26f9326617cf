-- ===== src/Script/Ledger.antt =====
-- The accounting of references over operations that may fail, and its rules.
use proxypp.Prelude.{ℕ, ◌+◌, ◌≡◌, refl, arith}
use proxypp.Error.{
  replaced, map_error, Error, Result, ok, err, R, pure, fail, bind, ◌>>=◌, call, act, finally,
  on_error, after_error,
}
use proxypp.Script.Quickjs.{Counters, Ledger}

module _ {S : Type 0} (C : Counters S) where
  -- What a result holds; an error holds nothing.
  abbrev pub held : {A : Type 0} → (A → ℕ) → Result A → ℕ
  held g (ok a) = g a
  held g (err e) = 0

  -- From every state, the operation gives back `lost` references and holds those of its result.
  pub record Accounts {A : Type 0} (m : R S A) (lost : ℕ) (g : A → ℕ) : Type 0 where
    pub ledger : (h : S) → Ledger C h (m h).1 lost (held g (m h).0)

  Ledger-trans :
      (h h' h'' : S) (a b c : ℕ) → Ledger C h h' a b → Ledger C h' h'' b c → Ledger C h h'' a c
  Ledger-trans h h' h'' a b c p q = omega arith

  after_bind :
      {A B : Type 0} (f : A → R S B) (lost : ℕ) (g : A → ℕ) (k : B → ℕ) (h : S)
      → ((a : A) → Accounts (f a) (g a) k)
      → (r : Result A) (h' : S) → Ledger C h h' lost (held g r)
      → Ledger C h (bind r h' f).1 lost (held k (bind r h' f).0)
  after_bind f lost g k h q (ok a) h' e = Ledger-trans h h' _ lost (g a) _ e ((q a).ledger h')
  after_bind f lost g k h q (err s) h' e = e

  pub bind-Accounts :
      {A B : Type 0} {m : R S A} {f : A → R S B} {lost : ℕ} {k : B → ℕ} (g : A → ℕ)
      → Accounts m lost g
      → ((a : A) → Accounts (f a) (g a) k)
      → Accounts (m >>= f) lost k
  bind-Accounts {m} {f} {lost} {k} g p q = record {
    ledger = λ h. after_bind f lost g k h q (m h).0 (m h).1 (p.ledger h);
  }

  -- A call that cannot fail, while `frame` other references are held.
  pub call-Accounts :
      {A : Type 0} {f : S → A × S} (g : A → ℕ) (frame : ℕ)
      → ((h : S) → Ledger C h (f h).1 0 (g (f h).0))
      → Accounts (call f) frame (λ a. g a + frame)
  call-Accounts g frame p = record { ledger = λ h. omega (arith, p h) }

  -- A call that takes references over, whatever it returns.
  pub handing-Accounts :
      {A : Type 0} {f : S → A × S} (lost : ℕ)
      → ((h : S) → Ledger C h (f h).1 lost 0)
      → Accounts (call f) lost (λ _. 0)
  handing-Accounts lost p = record { ledger = p }

  pub act-Accounts :
      {f : S → S} (lost frame : ℕ)
      → ((h : S) → Ledger C h (f h) lost 0)
      → Accounts (act f) (lost + frame) (λ _. frame)
  act-Accounts lost frame p = record { ledger = λ h. omega (arith, p h) }

  pub fail-Accounts : {A : Type 0} {g : A → ℕ} (e : Error) → Accounts (fail e) 0 g
  fail-Accounts e = record { ledger = λ h. omega arith }

  pub pure-Accounts : {A : Type 0} {g : A → ℕ} (a : A) → Accounts (pure a) (g a) g
  pure-Accounts a = record { ledger = λ h. omega arith }

  -- The same amounts, written otherwise.
  pub recount-Accounts :
      {A : Type 0} {m : R S A} {lost lost' : ℕ} {g : A → ℕ}
      → Accounts m lost g
      → lost ≡ lost'
      → Accounts m lost' g
  recount-Accounts p e = record { ledger = λ h. omega (arith, p.ledger h) }

  pub finally-Accounts :
      {A : Type 0} {m : R S A} {g : A → ℕ} (cleanup : S → S) (lost kept : ℕ)
      → Accounts m lost g
      → ((h : S) → Ledger C h (cleanup h) kept 0)
      → Accounts (finally cleanup m) (lost + kept) g
  finally-Accounts {m} cleanup lost kept p q = record {
    ledger = λ h. omega (arith, p.ledger h, q (m h).1);
  }

  after_error-Ledger :
      {A : Type 0} (cleanup : S → S) (lost kept : ℕ) (g : A → ℕ) (h : S)
      → ((h' : S) → Ledger C h' (cleanup h') kept 0)
      → (r : Result A) (h' : S) → Ledger C h h' lost (held g r)
      → Ledger C h
          (after_error cleanup r h').1
          (lost + kept)
          (held (λ a. g a + kept) (after_error cleanup r h').0)
  after_error-Ledger cleanup lost kept g h q (ok a) h' e = omega arith
  after_error-Ledger cleanup lost kept g h q (err s) h' e = omega (arith, q h')

  pub on_error-Accounts :
      {A : Type 0} {m : R S A} {g : A → ℕ} (cleanup : S → S) (lost kept : ℕ)
      → Accounts m lost g
      → ((h : S) → Ledger C h (cleanup h) kept 0)
      → Accounts (on_error cleanup m) (lost + kept) (λ a. g a + kept)
  on_error-Accounts {m} {g} cleanup lost kept p q = record {
    ledger = λ h. after_error-Ledger cleanup lost kept g h q (m h).0 (m h).1 (p.ledger h);
  }

  held-replaced :
      {A : Type 0} (f : Error → Error) (g : A → ℕ) (r : Result A) → held g (replaced f r) ≡ held g r
  held-replaced f g (ok a) = refl
  held-replaced f g (err e) = refl

  pub map_error-Accounts :
      {A : Type 0} {m : R S A} {lost : ℕ} {g : A → ℕ} (f : Error → Error)
      → Accounts m lost g
      → Accounts (map_error f m) lost g
  map_error-Accounts {m} {g} f p = record {
    ledger = λ h. omega (arith, p.ledger h, held-replaced f g (m h).0);
  }

  held-cong :
      {A : Type 0} (g g' : A → ℕ) (r : Result A) → ((a : A) → g a ≡ g' a) → held g r ≡ held g' r
  held-cong g g' (ok a) e = e a
  held-cong g g' (err s) e = refl

  pub reheld-Accounts :
      {A : Type 0} {m : R S A} {lost : ℕ} {g g' : A → ℕ}
      → Accounts m lost g
      → ((a : A) → g a ≡ g' a)
      → Accounts m lost g'
  reheld-Accounts {m} {g} {g'} p e = record {
    ledger = λ h. omega (arith, p.ledger h, held-cong g g' (m h).0 e);
  }

  pub held-zero : {A : Type 0} (r : Result A) → held (λ _. 0) r ≡ 0
  held-zero (ok a) = refl
  held-zero (err s) = refl
