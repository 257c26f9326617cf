-- ===== src/Script/ObjectBuilder.antt =====
-- The builder of JavaScript objects: src/proxypp/script/qjs/object_builder.{h,cpp}. A setter returns
-- the builder that it has changed; the first error makes the later setters do nothing but destroy
-- the value that was moved into them. Logging is left out.
pub mod Owning
pub mod Strings
use proxypp.Prelude.{
  ℕ, zero, suc, ◌+◌, ◌-◌, ◌*◌, ◌/◌, ◌%◌, ◌^◌, ◌≤◌, ◌<◌, min, String, ◌≡◌, refl, sym, ap, subst, ◌∙◌,
  ◌≡⟨◌⟩◌, ◌∎, ◌≢◌, ◌↔◌, ◌⊎◌, inl, inr, Bool, true, false, not, ◌&&◌, ◌||◌, Option, none, some, List,
  [], ◌∷◌, ◌++◌, map, append-nil, append_assoc, arith, eq_iff, ltb, leb, ◌==◌, ◌+++◌, str_eq,
  if◌then◌else◌, ltb→lt, lt→ltb, ==_iff, Bool-cases, Option-cases, length, take, drop, All,
  length-append, take-append-drop, length-take, length-drop, take-length, drop-length, filter,
  contains,
}
use proxypp.Prelude.Int.{ℤ, to_uint32}
use proxypp.Error.{
  Code, qjs, QjsErrc, invalid_context, js_internal_error, convert_value_failed, get_property_failed,
  set_property_failed, invalid_value, on_error, get_element_failed, set_element_failed, finally,
  Error, make_error, Result, ok, err, R, pure, fail, bind, ◌>>=◌, ◌>>◌, call, act,
}
use proxypp.Script.Quickjs.{Quickjs}
use proxypp.Script.Value.{
  Value, Context, destroy, is_valid, is_object, object, string, bool, int32, null,
}
use proxypp.Script.Value.Property

-- qjs::ObjectBuilder
pub record ObjectBuilder (Q : Quickjs) : Type 0 where
  pub context : Context Q
  pub object : Value Q
  pub error : Option Error

module _ (Q : Quickjs) where
  -- ObjectBuilder::Create
  unfoldable pub create : Context Q → R Q.Heap (ObjectBuilder Q)
  create context = do
    value ← object Q context
    pure (record { context = context; object = value; error = none })

  -- A setter: the builder and the heap after it.
  abbrev pub Setter : Type 0
  Setter = ObjectBuilder Q → Q.Heap → ObjectBuilder Q × Q.Heap

  after_set : String → ObjectBuilder Q → Result (Unit {0}) × Q.Heap → ObjectBuilder Q × Q.Heap
  after_set name b (ok _, h) = (b, h)
  after_set name b (err e, h) = (
    record b {
      error = some (
          make_error (qjs set_property_failed)
            ("set property '" +++ name +++ "' failed, " +++ e.message));
    },
    h,
  )

  -- ObjectBuilder::SetProperty
  set_property : String → Value Q → Setter
  set_property name value b h = after_set name b (Property.set_property Q name value b.object h)

  set_made : String → ObjectBuilder Q → Result (Value Q) × Q.Heap → ObjectBuilder Q × Q.Heap
  set_made name b (ok value, h) = set_property name value b h
  set_made name b (err e, h) = (record b { error = some e }, h)

  -- The setters of a value that they make themselves.
  set_making : String → (Context Q → R Q.Heap (Value Q)) → Option Error → Setter
  set_making name make none b h = set_made name b (make b.context h)
  set_making name make (some e) b h = (b, h)

  unfoldable pub set_string : String → String → Setter
  unfolding set_making set_made set_property after_set
  set_string name text b = set_making name (λ context. string Q context text) b.error b

  unfoldable pub set_bool : String → Bool → Setter
  unfolding set_making set_made set_property after_set
  set_bool name value b = set_making name (λ context. bool Q context value) b.error b

  unfoldable pub set_int32 : String → ℤ → Setter
  unfolding set_making set_made set_property after_set
  set_int32 name value b = set_making name (λ context. int32 Q context value) b.error b

  unfoldable pub set_null : String → Setter
  unfolding set_making set_made set_property after_set
  set_null name b = set_making name (null Q) b.error b

  -- The setters of a value that is moved into them, behind a test.
  set_moved : Bool → String → String → Value Q → Option Error → Setter
  set_moved valid text name value none b h =
      if valid
      then set_property name value b h
      else (record b { error = some (make_error (qjs invalid_value) text) }, destroy Q value h)
  set_moved valid text name value (some e) b h = (b, destroy Q value h)

  unfoldable pub set_object : String → Value Q → Setter
  unfolding set_moved set_property after_set
  set_object name value b =
      set_moved (is_valid Q value && is_object Q value)
        "set object failed, value is not a valid object" name value b.error b

  unfoldable pub set_value : String → Value Q → Setter
  unfolding set_moved set_property after_set
  set_value name value b =
      set_moved (is_valid Q value) "set value failed, value is not valid" name value b.error b

  abbrev build_result : Option Error → Value Q → R Q.Heap (Value Q)
  build_result none value = pure value
  build_result (some e) value = fail e

  -- Build of an rvalue, with the end of the builder's scope: the object is moved out, or destroyed
  -- with the builder.
  unfoldable pub build : ObjectBuilder Q → R Q.Heap (Value Q)
  build b = on_error (destroy Q b.object) (build_result b.error b.object)
