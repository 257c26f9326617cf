-- ===== src/Examples/Scripts.antt =====
-- A script runtime of the examples: it counts references, and evaluates the words true and false.
use proxypp.Prelude.{
  refl, List, [], ◌∷◌, ◌&&◌, ==_iff, ℕ, suc, ◌+◌, String, ◌≡◌, refl, Bool, true, false, Option,
  none, some, arith, ◌==◌, str_eq, if◌then◌else◌,
}
use proxypp.Prelude.Int.{ℤ, pos, negsuc, wrap_int32}
use proxypp.Error.{Result, ok}
use proxypp.Script.Quickjs.{Quickjs}
use proxypp.Script.Quickjs.{QuickjsLaws}
use proxypp.Script.Value
use proxypp.Script.Value.Property
use proxypp.Script.Objects.{ObjectLaws}
use proxypp.Script.ObjectBuilder
use proxypp.Script.ObjectBuilder.{set_string, build}
use proxypp.Rule.Injector.{set_headers, build_header_object}
use proxypp.Rule.Injector.Headers.{HoldsHeaders, build_header_object-HoldsHeaders}
use proxypp.Script.Value.{Value, Context, adopt, adopt_checked}
use proxypp.Script.Value.Property.{array_length}
use proxypp.Script.Value.Length.{array_length_lem}
use proxypp.Rule.Scripting.{RuleEngine}

pub data JsValue : Type 0 where
  undefined null exception array : JsValue
  object : ℕ → JsValue
  bool : Bool → JsValue
  number : ℤ → JsValue
  string : String → JsValue

pub record Heap : Type 0 where
  pub acquired : ℕ
  pub released : ℕ
  pub properties : ℕ → String → Option String

abbrev weight : JsValue → ℕ
weight (object i) = 1
weight array = 1
weight (string s) = 1
weight _ = 0

abbrev take_value : JsValue → Heap → JsValue × Heap
take_value v h = (v, record h { acquired = h.acquired + weight v })

abbrev give_back : JsValue → Heap → Heap
give_back v h = record h { released = h.released + weight v }

abbrev evaluation : String → JsValue
evaluation expr =
    if str_eq expr "true"
    then bool true
    else if str_eq expr "false"
    then bool false
    else if str_eq expr "1"
    then number (pos 1)
    else exception

-- The array has 3000000000 elements.
abbrev property_of : JsValue → String → JsValue
property_of array name = if str_eq name "length" then number (negsuc 1294967295) else undefined
property_of _ name = undefined

abbrev text_of : JsValue → String
text_of (string s) = s
text_of _ = ""

abbrev truth : JsValue → Option Bool
truth (bool b) = some b
truth _ = none

abbrev int_of : JsValue → Option ℤ
int_of (number n) = some n
int_of _ = none

abbrev is_exception : JsValue → Bool
is_exception exception = true
is_exception _ = false

abbrev is_undefined : JsValue → Bool
is_undefined undefined = true
is_undefined _ = false

abbrev is_null : JsValue → Bool
is_null null = true
is_null _ = false

abbrev is_number : JsValue → Bool
is_number (number n) = true
is_number _ = false

abbrev is_bool : JsValue → Bool
is_bool (bool b) = true
is_bool _ = false

abbrev is_string : JsValue → Bool
is_string (string s) = true
is_string _ = false

abbrev is_object : JsValue → Bool
is_object (object i) = true
is_object array = true
is_object _ = false

abbrev is_array : JsValue → Bool
is_array array = true
is_array _ = false

abbrev string_in : JsValue → Option String
string_in (string s) = some s
string_in _ = none

-- The number of a new object is one that has no properties yet.
abbrev new_object : Heap → JsValue × Heap
new_object h = (
  object (suc h.acquired),
  record {
    acquired = suc h.acquired;
    released = h.released;
    properties = λ i name. if i == suc h.acquired then none else h.properties i name;
  },
)

-- Only strings are kept.
abbrev set_property : JsValue → String → JsValue → Heap → Bool × Heap
set_property (object i) name u h = (
  true,
  record {
    acquired = h.acquired;
    released = h.released + weight u;
    properties =
        λ j other. if j == i && str_eq name other then string_in u else h.properties j other;
  },
)
set_property _ name u h = (false, give_back u h)

abbrev property : Heap → JsValue → String → Option String
property h (object i) name = h.properties i name
property h _ name = none

abbrev pub quickjs : Quickjs
quickjs = record {
  Heap = Heap;
  JsRuntime = Unit {0};
  JsContext = ℕ;
  JsValue = JsValue;
  Cstring = String;
  same_context = λ c d. c == d;
  undefined = undefined;
  null = null;
  is_exception = is_exception;
  is_undefined = is_undefined;
  is_null = is_null;
  is_number = is_number;
  is_bool = is_bool;
  is_string = is_string;
  is_object = is_object;
  is_array = is_array;
  new_runtime = λ h. (some tt, record h { acquired = suc h.acquired });
  free_runtime = λ r h. record h { released = suc h.released };
  new_context = λ r h. (some h.acquired, record h { acquired = suc h.acquired });
  free_context = λ c h. record h { released = suc h.released };
  get_global_object = λ c. take_value (object 0);
  new_bool = λ c b. bool b;
  new_int32 = λ c n. number n;
  new_string = λ c s. take_value (string s);
  new_object = λ c. new_object;
  new_array = λ c. take_value array;
  eval = λ c expr file. take_value (evaluation expr);
  free_value = λ c. give_back;
  get_exception = λ c. take_value (string "SyntaxError");
  to_cstring = λ c v h. (some (text_of v), record h { acquired = suc h.acquired });
  cstring_text = λ s. s;
  free_cstring = λ c s h. record h { released = suc h.released };
  to_bool = λ c v h. (truth v, h);
  to_int32 = λ c v h. (int_of v, h);
  get_property_str = λ c v name. take_value (property_of v name);
  get_property_uint32 = λ c v index. take_value undefined;
  set_property_str = λ c. set_property;
  set_property_uint32 = λ c v index u h. (true, give_back u h);
  can_allocate = λ h. true;
}

pub set_property_lem :
    (v : JsValue) (name : String) (u : JsValue) (h : Heap)
    → (set_property v name u h).1.acquired + h.released + weight u
      ≡ h.acquired + (set_property v name u h).1.released + 0
set_property_lem (object i) name u h = omega arith
set_property_lem undefined name u h = omega arith
set_property_lem null name u h = omega arith
set_property_lem exception name u h = omega arith
set_property_lem array name u h = omega arith
set_property_lem (bool b) name u h = omega arith
set_property_lem (number n) name u h = omega arith
set_property_lem (string s) name u h = omega arith

property_lem :
    (v : JsValue) (name : String) (u : JsValue) (h : Heap) (other : String)
    → (set_property v name u h).0 ≡ true
    → property (set_property v name u h).1 v other
      ≡ (if str_eq name other then string_in u else property h v other)
property_lem (object i) name u h other set = rw ((==_iff i i).1 refl) refl
property_lem undefined name u h other set = cc
property_lem null name u h other set = cc
property_lem exception name u h other set = cc
property_lem array name u h other set = cc
property_lem (bool b) name u h other set = cc
property_lem (number n) name u h other set = cc
property_lem (string s) name u h other set = cc

property-new_string :
    (v : JsValue) (s : String) (h : Heap) (name : String)
    → property (take_value (string s) h).1 v name ≡ property h v name
property-new_string (object i) s h name = refl
property-new_string undefined s h name = refl
property-new_string null s h name = refl
property-new_string exception s h name = refl
property-new_string array s h name = refl
property-new_string (bool b) s h name = refl
property-new_string (number n) s h name = refl
property-new_string (string t) s h name = refl

abbrev quickjs-ObjectLaws : ObjectLaws quickjs
quickjs-ObjectLaws = record {
  text = string_in;
  property = property;
  text-new_string = λ c s h good. refl;
  property-new_string = λ c s h v name. property-new_string v s h name;
  property-new_object =
      λ c h name good. rw ((==_iff (suc h.acquired) (suc h.acquired)).1 refl) refl;
  property-set_property_str = λ c v name u h other set ordinary. property_lem v name u h other set;
}

abbrev pub quickjs-QuickjsLaws : QuickjsLaws quickjs
quickjs-QuickjsLaws = record {
  counters = record { acquired = λ h. h.acquired; released = λ h. h.released };
  weight = weight;
  weight-undefined = refl;
  weight-null = refl;
  weight-new_bool = λ c b. refl;
  weight-new_int32 = λ c n. refl;
  runtime-new_runtime = λ h. omega arith;
  runtime-free_runtime = λ r h. omega arith;
  context-new_context = λ r h. omega arith;
  context-free_context = λ c h. omega arith;
  value-get_global_object = λ c h. omega arith;
  value-new_string = λ c s h. omega arith;
  value-new_object = λ c h. omega arith;
  value-new_array = λ c h. omega arith;
  value-eval = λ c expr file h. omega arith;
  value-free_value = λ c v h. omega arith;
  value-get_exception = λ c h. omega arith;
  cstring-to_cstring = λ c v h. omega arith;
  cstring-free_cstring = λ c s h. omega arith;
  value-to_bool = λ c v h. omega arith;
  value-to_int32 = λ c v h. omega arith;
  value-get_property_str = λ c v name h. omega arith;
  value-get_property_uint32 = λ c v index h. omega arith;
  value-set_property_str = λ c. set_property_lem;
  value-set_property_uint32 = λ c v index u h. omega arith;
}

abbrev pub engine : RuleEngine quickjs
engine = record { runtime = record { native_handle = some tt } }

abbrev pub empty_heap : Heap
empty_heap = record { acquired = 0; released = 0; properties = λ i name. none }

abbrev long_array : Value quickjs
long_array = some (record { context = some 0; value = array; owns_value = true })

array_length_lem_example : (array_length quickjs long_array empty_heap).0 ≡ ok 3000000000
unfolding wrap_int32
array_length_lem_example =
    array_length_lem quickjs long_array 3000000000 empty_heap (omega arith) (record {
      context = 0;
      value = array;
      valid = refl;
      array = refl;
      number = number (negsuc 1294967295);
      after = empty_heap;
      property = refl;
      no_exception = refl;
      allocated = refl;
      is_number = refl;
      reduced = refl;
    })

abbrev cookies : List (String × String)
cookies = ("a", "1") ∷ ("b", "2") ∷ ("a", "3") ∷ []

abbrev script : Context quickjs
script = record { native_handle = some 0 }

-- The object of the headers, and the heap in which it is built.
abbrev built : Result (Value quickjs) × Heap
built = build_header_object quickjs (λ name. name) cookies script empty_heap

build_header_object-HoldsHeaders_example :
    HoldsHeaders quickjs-ObjectLaws
      (λ name. name)
      cookies
      (some (record { context = some 0; value = object 1; owns_value = true }))
      built.1
build_header_object-HoldsHeaders_example =
    build_header_object-HoldsHeaders quickjs-ObjectLaws (λ name. name) cookies script empty_heap
      built.1 (some (record { context = some 0; value = object 1; owns_value = true }))
      (refl, (refl, (refl, tt)))
      (unfold build_header_object ObjectBuilder.create Value.object adopt_checked adopt set_headers
          set_string Value.string Property.set_property build in
        refl)
