-- ===== src/Script/Objects.antt =====
-- What QuickJS promises of the properties of objects, as far as strings are set.
use proxypp.Prelude.{String, ◌≡◌, true, false, Option, none, some, str_eq, if◌then◌else◌}
use proxypp.Script.Quickjs.{Quickjs}

pub record ObjectLaws (Q : Quickjs) : Type 0 where
  -- The string that a value is, and the string in an own property of an object.
  pub text : Q.JsValue → Option String
  pub property : Q.Heap → Q.JsValue → String → Option String
  pub text-new_string :
      (c : Q.JsContext) (s : String) (h : Q.Heap)
      → Q.is_exception (Q.new_string c s h).0 ≡ false
      → text (Q.new_string c s h).0 ≡ some s
  -- A new string changes no object, and a new object has no property.
  pub property-new_string :
      (c : Q.JsContext) (s : String) (h : Q.Heap) (o : Q.JsValue) (name : String)
      → property (Q.new_string c s h).1 o name ≡ property h o name
  pub property-new_object :
      (c : Q.JsContext) (h : Q.Heap) (name : String)
      → Q.is_exception (Q.new_object c h).0 ≡ false
      → property (Q.new_object c h).1 (Q.new_object c h).0 name ≡ none
  -- The name __proto__ sets no own property.
  pub property-set_property_str :
      (c : Q.JsContext) (o : Q.JsValue) (name : String) (u : Q.JsValue) (h : Q.Heap)
      (other : String)
      → (Q.set_property_str c o name u h).0 ≡ true
      → str_eq name "__proto__" ≡ false
      → property (Q.set_property_str c o name u h).1 o other
        ≡ (if str_eq name other then text u else property h o other)
