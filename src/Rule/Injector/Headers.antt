-- ===== src/Rule/Injector/Headers.antt =====
-- What a match expression sees of the headers of a message.
use proxypp.Prelude.{
  String, ◌≡◌, refl, sym, ap, ◌∙◌, Bool, true, false, Option, none, some, List, [], ◌∷◌, str_eq,
  if◌then◌else◌, All,
}
use proxypp.Error.{Result, ok}
use proxypp.Script.Quickjs.{Quickjs}
use proxypp.Script.Objects.{ObjectLaws}
use proxypp.Script.Value.{Value, Context, handle}
use proxypp.Script.Value.Outcome.{bound}
use proxypp.Script.ObjectBuilder.{ObjectBuilder, create, set_string}
use proxypp.Script.ObjectBuilder.Strings.{set_string-ok, set_string-free, create-ok, build-ok}
use proxypp.Rule.Injector.{set_headers, build_header_object}

abbrev or_else : Option String → Option String → Option String
or_else (some s) other = some s
or_else none other = other

or_else-none : (o : Option String) → or_else o none ≡ o
or_else-none (some s) = refl
or_else-none none = refl

module _ {Q : Quickjs} (O : ObjectLaws Q) (to_lower : String → String) where
  -- The value of the last header with this lower-cased name.
  abbrev pub last_value : String → List (String × String) → Option String
  last_value name [] = none
  last_value name ((other, value) ∷ headers) =
      or_else (last_value name headers) (if str_eq (to_lower other) name then some value else none)

  -- The name does not set the prototype.
  abbrev pub IsOrdinary : String × String → Type 0
  IsOrdinary header = str_eq (to_lower header.0) "__proto__" ≡ false

  set_headers-free :
      (headers : List (String × String)) (b : ObjectBuilder Q) (h : Q.Heap)
      → (set_headers Q to_lower headers b h).0.error ≡ none
      → b.error ≡ none
  unfolding set_headers
  set_headers-free [] b h free = free
  set_headers-free ((name, value) ∷ headers) b h free =
      let step = set_string Q (to_lower name) value b h in
      set_string-free O (to_lower name) value b h (set_headers-free headers step.0 step.1 free)

  merge :
      (b : Bool) (rest before : Option String) (value : String)
      → or_else rest (if b then some value else before)
        ≡ or_else (or_else rest (if b then some value else none)) before
  merge b (some s) before value = refl
  merge true none before value = refl
  merge false none before value = refl

  set_headers-ok :
      (headers : List (String × String)) (b : ObjectBuilder Q) (c : Q.JsContext) (o : Q.JsValue)
      (h : Q.Heap)
      → handle Q b.object ≡ some (c, o)
      → All IsOrdinary headers
      → (set_headers Q to_lower headers b h).0.error ≡ none
      → ((set_headers Q to_lower headers b h).0.object ≡ b.object)
        × ((name : String)
            → O.property (set_headers Q to_lower headers b h).1 o name
              ≡ or_else (last_value name headers) (O.property h o name))
  unfolding set_headers
  set_headers-ok [] b c o h ho ordinary free = (refl, λ name. refl)
  set_headers-ok ((other, value) ∷ headers) b c o h ho (ordinary, all) free =
      let step = set_string Q (to_lower other) value b h in
      let added =
        set_string-ok O (to_lower other) value b step.0 c o h step.1 ho ordinary refl
          (set_headers-free headers step.0 step.1 free) in
      let (same, holds) =
        set_headers-ok headers step.0 c o step.1 (ap (handle Q) added.same_object ∙ ho) all free in
      (
        same ∙ added.same_object,
        λ name.
            holds name
            ∙ ap (or_else (last_value name headers)) (added.property_eq name)
            ∙ merge (str_eq (to_lower other) name) (last_value name headers) (O.property h o name)
                value,
      )

  -- The object of the headers, with an own property for the lower-cased name of each header and no
  -- other string.
  pub record HoldsHeaders (headers : List (String × String)) (value : Value Q) (h : Q.Heap)
      : Type 0 where
    pub context : Q.JsContext
    pub object : Q.JsValue
    pub handle_eq : handle Q value ≡ some (context, object)
    pub property_eq : (name : String) → O.property h object name ≡ last_value name headers

  -- Where the object of the headers is built, its property for a lower-cased name holds the value of
  -- the last header of that name, and no other property of it holds a string, provided that no
  -- header is named __proto__.
  pub build_header_object-HoldsHeaders :
      (headers : List (String × String)) (context : Context Q) (h h' : Q.Heap) (value : Value Q)
      → All IsOrdinary headers
      → build_header_object Q to_lower headers context h ≡ (ok value, h')
      → HoldsHeaders headers value h'
  unfolding build_header_object
  build_header_object-HoldsHeaders headers context h h' value ordinary e =
      let (empty, created, e1) = bound (create Q context h).0 (create Q context h).1 _ value h' e in
      let m =
        create-ok O context empty h (create Q context h).1
          (ap (λ (r : Result (ObjectBuilder Q)). (r, (create Q context h).1)) created) in
      let filled = set_headers Q to_lower headers empty (create Q context h).1 in
      let (free, same, heap) = build-ok O filled.0 value filled.1 h' e1 in
      let (kept, holds) =
        set_headers-ok headers empty m.context (Q.new_object m.context h).0 (create Q context h).1
          m.handle_eq ordinary free in
      record {
        context = m.context;
        object = (Q.new_object m.context h).0;
        handle_eq = sym (ap (handle Q) same) ∙ ap (handle Q) kept ∙ m.handle_eq;
        property_eq = λ name.
            ap (λ x. O.property x (Q.new_object m.context h).0 name) heap
            ∙ holds name
            ∙ ap
                (λ x.
                  or_else (last_value name headers)
                    (O.property x (Q.new_object m.context h).0 name))
                m.heap_eq
            ∙ ap (or_else (last_value name headers))
                (O.property-new_object m.context h name m.no_exception)
            ∙ or_else-none (last_value name headers);
      }
