-- ===== src/Script/ObjectBuilder/Owning.antt =====
-- A builder owns one object, and each value that is moved into it ends in that object or is
-- destroyed.
use proxypp.Prelude.{ℕ, ◌+◌, String, Bool, true, false, Option, none, some, arith}
use proxypp.Prelude.Int.{ℤ}
use proxypp.Error.{on_error, Error, Result, ok, err, R, call}
use proxypp.Script.Quickjs.{Quickjs, QuickjsLaws, Ledger}
use proxypp.Script.Ledger.{held, Accounts, bind-Accounts, pure-Accounts}
use proxypp.Script.Value.{Value, Context, destroy}
use proxypp.Script.Value.Owning.{owned_weight, destroy-Ledger}
use proxypp.Script.Value.Making.{
  object-Accounts, string-Accounts, bool-Accounts, int32-Accounts, null-Accounts,
}
use proxypp.Script.Value.Access.{set_property-Accounts}
use proxypp.Script.ObjectBuilder.{
  ObjectBuilder, Setter, create, after_set, set_property, set_made, set_making, set_moved,
  set_string, set_bool, set_int32, set_null, set_object, set_value, build_result, build,
}

module _ {Q : Quickjs} (L : QuickjsLaws Q) where
  -- The references that a builder owns.
  abbrev pub builder_weight : ObjectBuilder Q → ℕ
  builder_weight b = owned_weight L b.object

  -- A setter into which `lost` references are moved.
  abbrev pub SetterLedger : ℕ → Setter Q → Type 0
  SetterLedger lost f =
      (b : ObjectBuilder Q) (h : Q.Heap)
      → Ledger L.counters h (f b h).1 (lost + builder_weight b) (builder_weight (f b h).0)

  pub create-Accounts :
      (context : Context Q) → Accounts L.counters (create Q context) 0 builder_weight
  unfolding create
  create-Accounts context =
      bind-Accounts L.counters _ (object-Accounts L context) λ value.
        pure-Accounts L.counters (record { context = context; object = value; error = none })

  after_set-Ledger :
      (name : String) (b : ObjectBuilder Q) (lost : ℕ) (h : Q.Heap) (r : Result (Unit {0}))
      (h' : Q.Heap)
      → Ledger L.counters h h' lost (held L.counters (λ _. 0) r)
      → Ledger L.counters h
          (after_set Q name b (r, h')).1
          (lost + builder_weight b)
          (builder_weight (after_set Q name b (r, h')).0)
  unfolding after_set
  after_set-Ledger name b lost h (ok u) h' e = omega arith
  after_set-Ledger name b lost h (err s) h' e = omega arith

  set_property-Ledger :
      (name : String) (value : Value Q)
      → SetterLedger (owned_weight L value) (set_property Q name value)
  unfolding set_property
  set_property-Ledger name value b h =
      after_set-Ledger name b (owned_weight L value) h _ _
        ((set_property-Accounts L name value b.object).ledger h)

  set_made-Ledger :
      (name : String) (b : ObjectBuilder Q) (h : Q.Heap) (r : Result (Value Q)) (h' : Q.Heap)
      → Ledger L.counters h h' 0 (held L.counters (owned_weight L) r)
      → Ledger L.counters h
          (set_made Q name b (r, h')).1
          (builder_weight b)
          (builder_weight (set_made Q name b (r, h')).0)
  unfolding set_made
  set_made-Ledger name b h (ok value) h' e = omega (arith, set_property-Ledger name value b h')
  set_made-Ledger name b h (err s) h' e = omega arith

  set_making-Ledger :
      (name : String) (make : Context Q → R Q.Heap (Value Q)) (o : Option Error)
      → ((context : Context Q) → Accounts L.counters (make context) 0 (owned_weight L))
      → SetterLedger 0 (set_making Q name make o)
  unfolding set_making
  set_making-Ledger name make none p b h =
      omega (arith, set_made-Ledger name b h _ _ ((p b.context).ledger h))
  set_making-Ledger name make (some e) p b h = omega arith

  pub set_string-Ledger : (name text : String) → SetterLedger 0 (set_string Q name text)
  unfolding set_string
  set_string-Ledger name text b =
      set_making-Ledger name _ b.error (λ context. string-Accounts L context text) b

  pub set_bool-Ledger : (name : String) (value : Bool) → SetterLedger 0 (set_bool Q name value)
  unfolding set_bool
  set_bool-Ledger name value b =
      set_making-Ledger name _ b.error (λ context. bool-Accounts L context value) b

  pub set_int32-Ledger : (name : String) (value : ℤ) → SetterLedger 0 (set_int32 Q name value)
  unfolding set_int32
  set_int32-Ledger name value b =
      set_making-Ledger name _ b.error (λ context. int32-Accounts L context value) b

  pub set_null-Ledger : (name : String) → SetterLedger 0 (set_null Q name)
  unfolding set_null
  set_null-Ledger name b = set_making-Ledger name _ b.error (null-Accounts L) b

  set_moved-Ledger :
      (valid : Bool) (text name : String) (value : Value Q) (o : Option Error)
      → SetterLedger (owned_weight L value) (set_moved Q valid text name value o)
  unfolding set_moved
  set_moved-Ledger true text name value none b h = set_property-Ledger name value b h
  set_moved-Ledger false text name value none b h = omega (arith, destroy-Ledger L value h)
  set_moved-Ledger valid text name value (some e) b h = omega (arith, destroy-Ledger L value h)

  pub set_object-Ledger :
      (name : String) (value : Value Q)
      → SetterLedger (owned_weight L value) (set_object Q name value)
  unfolding set_object
  set_object-Ledger name value b = set_moved-Ledger _ _ name value b.error b

  pub set_value-Ledger :
      (name : String) (value : Value Q)
      → SetterLedger (owned_weight L value) (set_value Q name value)
  unfolding set_value
  set_value-Ledger name value b = set_moved-Ledger _ _ name value b.error b

  -- A setter as a step while `frame` other references are held: one that makes its value, and one
  -- into which a value is moved.
  pub making-Accounts :
      (f : Setter Q) (frame : ℕ) (b : ObjectBuilder Q)
      → SetterLedger 0 f
      → Accounts L.counters
          (call (f b))
          (builder_weight b + frame)
          (λ b'. builder_weight b' + frame)
  making-Accounts f frame b p = record { ledger = λ h. omega (arith, p b h) }

  pub moving-Accounts :
      (f : Setter Q) (lost frame : ℕ) (b : ObjectBuilder Q)
      → SetterLedger lost f
      → Accounts L.counters
          (call (f b))
          (builder_weight b + (lost + frame))
          (λ b'. builder_weight b' + frame)
  moving-Accounts f lost frame b p = record { ledger = λ h. omega (arith, p b h) }

  build_result-Ledger :
      (o : Option Error) (value : Value Q) (h : Q.Heap)
      → Ledger L.counters h
          (on_error (destroy Q value) (build_result Q o value) h).1
          (owned_weight L value)
          (held L.counters
            (owned_weight L)
            (on_error (destroy Q value) (build_result Q o value) h).0)
  build_result-Ledger none value h = omega arith
  build_result-Ledger (some e) value h = omega (arith, destroy-Ledger L value h)

  pub build-Accounts :
      (b : ObjectBuilder Q) → Accounts L.counters (build Q b) (builder_weight b) (owned_weight L)
  unfolding build
  build-Accounts b = record { ledger = build_result-Ledger b.error b.object }
