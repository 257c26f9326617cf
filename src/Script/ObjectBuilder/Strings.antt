-- ===== src/Script/ObjectBuilder/Strings.antt =====
-- What the object of a builder holds after strings were set without an error.
use proxypp.Prelude.{
  String, ◌≡◌, refl, sym, ap, ◌∙◌, false, Option, none, some, str_eq, if◌then◌else◌,
}
use proxypp.Error.{R, on_error, Error, Result, ok, err}
use proxypp.Script.Quickjs.{Quickjs}
use proxypp.Script.Objects.{ObjectLaws}
use proxypp.Script.Value.{destroy, Value, Context, handle, string, object}
use proxypp.Script.Value.Property
use proxypp.Script.Value.Outcome.{Made, bound, string-ok, object-ok, set_property-ok}
use proxypp.Script.ObjectBuilder.{
  ObjectBuilder, create, after_set, set_property, set_made, set_making, set_string, build,
  build_result,
}

module _ {Q : Quickjs} (O : ObjectLaws Q) where
  after_set-ok :
      (name : String) (b b' : ObjectBuilder Q) (r : Result (Unit {0})) (h h' : Q.Heap)
      → after_set Q name b (r, h) ≡ (b', h')
      → b'.error ≡ none
      → (u : Unit {0}) × (r ≡ ok u) × (b'.object ≡ b.object) × (h' ≡ h)
  unfolding after_set
  after_set-ok name b b' (ok u) h h' e free = (
    u,
    refl,
    sym (ap (λ (x : ObjectBuilder Q × Q.Heap). x.0.object) e),
    sym (ap (λ (x : ObjectBuilder Q × Q.Heap). x.1) e),
  )
  after_set-ok name b b' (err s) h h' e free =
      let failed = ap (λ (x : ObjectBuilder Q × Q.Heap). x.0.error) e ∙ free in cc

  set_made-ok :
      (name : String) (b b' : ObjectBuilder Q) (r : Result (Value Q)) (h h' : Q.Heap)
      → set_made Q name b (r, h) ≡ (b', h')
      → b'.error ≡ none
      → (value : Value Q) × (r ≡ ok value) × (set_property Q name value b h ≡ (b', h'))
  unfolding set_made
  set_made-ok name b b' (ok value) h h' e free = (value, refl, e)
  set_made-ok name b b' (err s) h h' e free =
      let failed = ap (λ (x : ObjectBuilder Q × Q.Heap). x.0.error) e ∙ free in cc

  -- The object after one more string.
  pub record Added (name text : String) (b b' : ObjectBuilder Q) (o : Q.JsValue) (h h' : Q.Heap)
      : Type 0 where
    pub no_error : b.error ≡ none
    pub same_object : b'.object ≡ b.object
    pub property_eq :
        (other : String)
        → O.property h' o other ≡ (if str_eq name other then some text else O.property h o other)

  set_making-ok :
      (name text : String) (b b' : ObjectBuilder Q) (before : Option Error) (c : Q.JsContext)
      (o : Q.JsValue) (h h' : Q.Heap)
      → handle Q b.object ≡ some (c, o)
      → str_eq name "__proto__" ≡ false
      → set_making Q name (λ context. string Q context text) before b h ≡ (b', h')
      → b'.error ≡ none
      → b.error ≡ before
      → Added name text b b' o h h'
  unfolding set_making set_property
  set_making-ok name text b b' (some s) c o h h' ho ordinary e free was =
      let failed = sym was ∙ ap (λ (x : ObjectBuilder Q × Q.Heap). x.0.error) e ∙ free in cc
  set_making-ok name text b b' none c o h h' ho ordinary e free was =
      let (value, made, e1) = set_made-ok name b b' _ _ h' e free in
      let m =
        string-ok Q b.context text h (string Q b.context text h).1 value
          (ap (λ (r : Result (Value Q)). (r, (string Q b.context text h).1)) made) in
      let (u, set, same, h_eq) = after_set-ok name b b' _ _ h' e1 free in
      let (good, heap) =
        set_property-ok Q name c m.context o (Q.new_string m.context text h).0 value b.object
          (string Q b.context text h).1 _ u ho m.handle_eq
          (ap
            (λ (r : Result (Unit {0})).
              (r, (Property.set_property Q name value b.object (string Q b.context text h).1).1))
            set) in
      record {
        no_error = was;
        same_object = same;
        property_eq = λ other.
            ap (λ x. O.property x o other) (h_eq ∙ heap)
            ∙ O.property-set_property_str c o name _ _ other good ordinary
            ∙ ap
                (λ x.
                  if str_eq name other then x else O.property (string Q b.context text h).1 o other)
                (O.text-new_string m.context text h m.no_exception)
            ∙ ap (λ x. if str_eq name other then some text else O.property x o other) m.heap_eq
            ∙ ap (λ x. if str_eq name other then some text else x)
                (O.property-new_string m.context text h o other);
      }

  pub set_string-ok :
      (name text : String) (b b' : ObjectBuilder Q) (c : Q.JsContext) (o : Q.JsValue)
      (h h' : Q.Heap)
      → handle Q b.object ≡ some (c, o)
      → str_eq name "__proto__" ≡ false
      → set_string Q name text b h ≡ (b', h')
      → b'.error ≡ none
      → Added name text b b' o h h'
  unfolding set_string
  set_string-ok name text b b' c o h h' ho ordinary e free =
      set_making-ok name text b b' b.error c o h h' ho ordinary e free refl

  set_making-free :
      (name : String) (make : Context Q → R Q.Heap (Value Q)) (before : Option Error)
      (b : ObjectBuilder Q) (h : Q.Heap)
      → b.error ≡ before
      → (set_making Q name make before b h).0.error ≡ none
      → before ≡ none
  unfolding set_making
  set_making-free name make none b h was free = refl
  set_making-free name make (some s) b h was free = sym was ∙ free

  -- The first error stays.
  pub set_string-free :
      (name text : String) (b : ObjectBuilder Q) (h : Q.Heap)
      → (set_string Q name text b h).0.error ≡ none
      → b.error ≡ none
  unfolding set_string
  set_string-free name text b h free = set_making-free name _ b.error b h refl free

  pub create-ok :
      (context : Context Q) (b : ObjectBuilder Q) (h h' : Q.Heap)
      → create Q context h ≡ (ok b, h')
      → Made Q b.object h' (λ c. Q.new_object c h)
  unfolding create
  create-ok context b h h' e =
      let (value, made, e1) = bound (object Q context h).0 (object Q context h).1 _ b h' e in
      let m =
        object-ok Q context h (object Q context h).1 value
          (ap (λ (r : Result (Value Q)). (r, (object Q context h).1)) made) in
      let same : record { context = context; object = value; error = none } ≡ b = cc in
      let heap : (object Q context h).1 ≡ h' =
        ap (λ (r : Result (ObjectBuilder Q) × Q.Heap). r.1) e1 in
      record {
        context = m.context;
        handle_eq = sym (ap (λ (x : ObjectBuilder Q). handle Q x.object) same) ∙ m.handle_eq;
        heap_eq = sym heap ∙ m.heap_eq;
        no_exception = m.no_exception;
      }

  build_result-ok :
      (o : Option Error) (object value : Value Q) (h h' : Q.Heap)
      → on_error (destroy Q object) (build_result Q o object) h ≡ (ok value, h')
      → (o ≡ none) × (object ≡ value) × (h' ≡ h)
  build_result-ok none object value h h' e =
      let heap = ap (λ (r : Result (Value Q) × Q.Heap). r.1) e in (refl, cc, sym heap)
  build_result-ok (some s) object value h h' e = cc

  pub build-ok :
      (b : ObjectBuilder Q) (value : Value Q) (h h' : Q.Heap)
      → build Q b h ≡ (ok value, h')
      → (b.error ≡ none) × (b.object ≡ value) × (h' ≡ h)
  unfolding build
  build-ok b value h h' e = build_result-ok b.error b.object value h h' e
