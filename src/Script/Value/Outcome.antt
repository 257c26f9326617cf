-- ===== src/Script/Value/Outcome.antt =====
-- What a factory or a setter of src/proxypp/script/qjs/value.cpp has done where it succeeds.
use proxypp.Prelude.{
  String, ◌≡◌, refl, sym, ap, ◌∙◌, ◌⊎◌, inl, inr, Bool, true, false, not, Option, none, some,
  if◌then◌else◌,
}
use proxypp.Error.{
  Result, ok, err, R, bind, call, ◌>>=◌, QjsErrc, js_internal_error, set_property_failed,
}
use proxypp.Script.Quickjs.{Quickjs}
use proxypp.Script.Value.{
  Value, Context, handle, with_handle, adopt, adopt_checked, pending_error, get_exception_message,
  string, object,
}
use proxypp.Script.Value.Property.{set_result, set_checked, set_tested, set_property}

picked :
    {A : Type 0} (b : Bool) (x y r : A)
    → (if b then x else y) ≡ r
    → ((b ≡ true) × (x ≡ r)) ⊎ ((b ≡ false) × (y ≡ r))
picked true x y r e = inl (refl, e)
picked false x y r e = inr (refl, e)

chosen :
    {S A : Type 0} (b : Bool) (m k : R S A) (s : S) (r : Result A × S)
    → (if b then m else k) s ≡ r
    → ((b ≡ true) × (m s ≡ r)) ⊎ ((b ≡ false) × (k s ≡ r))
chosen true m k s r e = inl (refl, e)
chosen false m k s r e = inr (refl, e)

-- A chain that succeeds has a first step that does.
pub bound :
    {S A B : Type 0} (r : Result A) (s : S) (f : A → R S B) (b : B) (t : S)
    → bind r s f ≡ (ok b, t)
    → (a : A) × (r ≡ ok a) × (f a s ≡ (ok b, t))
bound (ok a) s f b t e = (a, refl, e)
bound (err x) s f b t e = cc

module _ (Q : Quickjs) where
  pending-fails :
      {A : Type 0} (code : QjsErrc) (c : Q.JsContext) (h h' : Q.Heap) (a : A)
      → ¬ (pending_error Q code c h ≡ (ok a, h'))
  unfolding pending_error
  pending-fails code c h h' a e =
      let (message, _, failed) =
        bound (get_exception_message Q c h).0 (get_exception_message Q c h).1 _ a h' e in
      cc

  -- The value that a factory returns is the one that QuickJS has made.
  pub record Made (value : Value Q) (h' : Q.Heap) (create : Q.JsContext → Q.JsValue × Q.Heap)
      : Type 0 where
    pub context : Q.JsContext
    pub handle_eq : handle Q value ≡ some (context, (create context).0)
    pub heap_eq : h' ≡ (create context).1
    pub no_exception : Q.is_exception (create context).0 ≡ false

  adopt-ok :
      (c : Q.JsContext) (v : Q.JsValue) (h h' : Q.Heap) (value : Value Q)
      → adopt Q c v h ≡ (ok value, h')
      → (handle Q value ≡ some (c, v)) × (h' ≡ h)
  unfolding adopt
  adopt-ok c v h h' value e = elim (picked (Q.can_allocate h) _ _ _ e) [
    | inl (_, made) ↦
        let same : some (record { context = some c; value = v; owns_value = true }) ≡ value = cc in
        (sym (ap (handle Q) same), sym (ap (λ (r : Result (Value Q) × Q.Heap). r.1) made))
    | inr (_, failed) ↦ cc
  ]

  adopt_checked-ok :
      (code : QjsErrc) (c : Q.JsContext) (v : Q.JsValue) (h h' : Q.Heap) (value : Value Q)
      → adopt_checked Q code c v h ≡ (ok value, h')
      → (handle Q value ≡ some (c, v)) × (h' ≡ h) × (Q.is_exception v ≡ false)
  unfolding adopt_checked
  adopt_checked-ok code c v h h' value e = elim (chosen (Q.is_exception v) _ _ h _ e) [
    | inl (_, failed) ↦
        let (message, _, failed') =
          bound (get_exception_message Q c h).0 (get_exception_message Q c h).1 _ value h' failed in
        cc
    | inr (good, made) ↦ let (p, q) = adopt-ok c v h h' value made in (p, q, good)
  ]

  created-ok :
      (create : Q.JsContext → Q.Heap → Q.JsValue × Q.Heap) (o : Option Q.JsContext) (h h' : Q.Heap)
      (value : Value Q)
      → with_handle Q o (λ c. do v ← call (create c); adopt_checked Q js_internal_error c v) h
        ≡ (ok value, h')
      → Made value h' (λ c. create c h)
  created-ok create none h h' value e = cc
  created-ok create (some c) h h' value e =
      let (p, q, r) =
        adopt_checked-ok js_internal_error c (create c h).0 (create c h).1 h' value e in
      record { context = c; handle_eq = p; heap_eq = q; no_exception = r }

  pub string-ok :
      (context : Context Q) (text : String) (h h' : Q.Heap) (value : Value Q)
      → string Q context text h ≡ (ok value, h')
      → Made value h' (λ c. Q.new_string c text h)
  unfolding string
  string-ok context text h h' value e =
      created-ok (λ c. Q.new_string c text) context.native_handle h h' value e

  pub object-ok :
      (context : Context Q) (h h' : Q.Heap) (value : Value Q)
      → object Q context h ≡ (ok value, h')
      → Made value h' (λ c. Q.new_object c h)
  unfolding object
  object-ok context h h' value e = created-ok Q.new_object context.native_handle h h' value e

  set_result-ok :
      (code : QjsErrc) (c : Q.JsContext) (b : Bool) (h h' : Q.Heap) (u : Unit {0})
      → set_result Q code c b h ≡ (ok u, h')
      → (b ≡ true) × (h' ≡ h)
  unfolding set_result
  set_result-ok code c true h h' u e = (refl, sym (ap (λ (r : Result (Unit {0}) × Q.Heap). r.1) e))
  set_result-ok code c false h h' u e = absurd (pending-fails code c h h' u e)

  set_checked-ok :
      (code : QjsErrc) (set : Q.JsContext → Q.JsValue → Q.JsValue → Q.Heap → Bool × Q.Heap)
      (invalid : String) (c d : Q.JsContext) (o v : Q.JsValue) (value : Value Q) (h h' : Q.Heap)
      (u : Unit {0})
      → set_checked Q code set invalid (c, o) value (some (d, v)) h ≡ (ok u, h')
      → ((set c o v h).0 ≡ true) × (h' ≡ (set c o v h).1)
  unfolding set_checked
  set_checked-ok code set invalid c d o v value h h' u e =
      elim (chosen (not (Q.same_context c d)) _ _ h _ e) [
        | inl (_, failed) ↦ cc
        | inr (_, made) ↦ set_result-ok code c (set c o v h).0 (set c o v h).1 h' u made
      ]

  set_tested-ok :
      (code : QjsErrc) (set : Q.JsContext → Q.JsValue → Q.JsValue → Q.Heap → Bool × Q.Heap)
      (p : Q.JsValue → Bool) (no_target invalid : String) (c d : Q.JsContext) (o v : Q.JsValue)
      (value : Value Q) (h h' : Q.Heap) (u : Unit {0})
      → handle Q value ≡ some (d, v)
      → set_tested Q code set p no_target invalid value (some (c, o)) h ≡ (ok u, h')
      → ((set c o v h).0 ≡ true) × (h' ≡ (set c o v h).1)
  unfolding set_tested
  set_tested-ok code set p no_target invalid c d o v value h h' u hv e =
      elim (chosen (not (p o)) _ _ h _ e) [
        | inl (_, failed) ↦ cc
        | inr (_, made) ↦
            set_checked-ok code set invalid c d o v value h h' u
              (sym (ap (λ x. set_checked Q code set invalid (c, o) value x h) hv) ∙ made)
      ]

  -- A property that is set is set by QuickJS.
  pub set_property-ok :
      (name : String) (c d : Q.JsContext) (o v : Q.JsValue) (value target : Value Q) (h h' : Q.Heap)
      (u : Unit {0})
      → handle Q target ≡ some (c, o)
      → handle Q value ≡ some (d, v)
      → set_property Q name value target h ≡ (ok u, h')
      → ((Q.set_property_str c o name v h).0 ≡ true) × (h' ≡ (Q.set_property_str c o name v h).1)
  unfolding set_property
  set_property-ok name c d o v value target h h' u ht hv e =
      set_tested-ok set_property_failed (λ c v u. Q.set_property_str c v name u) Q.is_object
        "target is not an object" "property value is invalid" c d o v value h h' u hv
        (sym (
            ap
              (λ x.
                set_tested Q set_property_failed (λ c v u. Q.set_property_str c v name u)
                  Q.is_object "target is not an object" "property value is invalid" value x h)
              ht)
          ∙ e)
