-- ===== src/Script/Quickjs.antt =====
-- The C interface of QuickJS as the code calls it: a parameter of the model, over the state of all
-- runtimes, with what its documentation says of the references that it hands out and takes back.
use proxypp.Prelude.{ℕ, ◌+◌, String, ◌≡◌, Bool, Option, none, some}
use proxypp.Prelude.Int.{ℤ}

pub record Quickjs : Type 1 where
  pub Heap : Type 0
  pub JsRuntime : Type 0
  pub JsContext : Type 0
  pub JsValue : Type 0
  -- The text that JS_ToCString returns, until it is freed.
  pub Cstring : Type 0
  -- Equality of two pointers to contexts.
  pub same_context : JsContext → JsContext → Bool
  pub undefined : JsValue
  pub null : JsValue
  pub is_exception : JsValue → Bool
  pub is_undefined : JsValue → Bool
  pub is_null : JsValue → Bool
  pub is_number : JsValue → Bool
  pub is_bool : JsValue → Bool
  pub is_string : JsValue → Bool
  pub is_object : JsValue → Bool
  pub is_array : JsValue → Bool
  pub new_runtime : Heap → Option JsRuntime × Heap
  pub free_runtime : JsRuntime → Heap → Heap
  -- The argument may be a null pointer, as the code may pass one.
  pub new_context : Option JsRuntime → Heap → Option JsContext × Heap
  pub free_context : JsContext → Heap → Heap
  pub get_global_object : JsContext → Heap → JsValue × Heap
  pub new_bool : JsContext → Bool → JsValue
  pub new_int32 : JsContext → ℤ → JsValue
  pub new_string : JsContext → String → Heap → JsValue × Heap
  pub new_object : JsContext → Heap → JsValue × Heap
  pub new_array : JsContext → Heap → JsValue × Heap
  pub eval : JsContext → String → String → Heap → JsValue × Heap
  pub free_value : JsContext → JsValue → Heap → Heap
  pub get_exception : JsContext → Heap → JsValue × Heap
  pub to_cstring : JsContext → JsValue → Heap → Option Cstring × Heap
  pub cstring_text : Cstring → String
  pub free_cstring : JsContext → Cstring → Heap → Heap
  -- `none` is a result below 0: an exception is pending.
  pub to_bool : JsContext → JsValue → Heap → Option Bool × Heap
  pub to_int32 : JsContext → JsValue → Heap → Option ℤ × Heap
  pub get_property_str : JsContext → JsValue → String → Heap → JsValue × Heap
  pub get_property_uint32 : JsContext → JsValue → ℕ → Heap → JsValue × Heap
  -- `false` is a result below 0. The value that is set is taken over in each case.
  pub set_property_str : JsContext → JsValue → String → JsValue → Heap → Bool × Heap
  pub set_property_uint32 : JsContext → JsValue → ℕ → JsValue → Heap → Bool × Heap
  -- Whether new(std::nothrow) of a wrapper succeeds.
  pub can_allocate : Heap → Bool

-- How many references have been handed out and taken back up to a state.
pub record Counters (S : Type 0) : Type 0 where
  pub acquired : S → ℕ
  pub released : S → ℕ

-- Between two states the code has given back `lost` references that it held before, and holds
-- `gained` new ones.
abbrev pub Ledger : {S : Type 0} → Counters S → S → S → ℕ → ℕ → Type 0
Ledger C h h' lost gained =
    C.acquired h' + C.released h + lost ≡ C.acquired h + C.released h' + gained

-- Between two states as many references have been taken back as have been handed out.
abbrev pub Balanced : {S : Type 0} → Counters S → S → S → Type 0
Balanced C h h' = C.acquired h' + C.released h ≡ C.acquired h + C.released h'

-- The references that the C functions have handed out and taken back so far. A reference is one to
-- a value that is counted (`weight` 1; the other values have 0), to a C string, or to a context or a
-- runtime.
pub record QuickjsLaws (Q : Quickjs) : Type 0 where
  pub counters : Counters Q.Heap
  pub weight : Q.JsValue → ℕ
  pub weight-undefined : weight Q.undefined ≡ 0
  pub weight-null : weight Q.null ≡ 0
  pub weight-new_bool : (c : Q.JsContext) (b : Bool) → weight (Q.new_bool c b) ≡ 0
  pub weight-new_int32 : (c : Q.JsContext) (n : ℤ) → weight (Q.new_int32 c n) ≡ 0
  pub runtime-new_runtime :
      (h : Q.Heap)
      → Ledger counters h (Q.new_runtime h).1 0 (elim (Q.new_runtime h).0 [ none ↦ 0 | some r ↦ 1 ])
  pub runtime-free_runtime :
      (r : Q.JsRuntime) (h : Q.Heap) → Ledger counters h (Q.free_runtime r h) 1 0
  pub context-new_context :
      (r : Option Q.JsRuntime) (h : Q.Heap)
      → Ledger counters h
          (Q.new_context r h).1
          0
          (elim (Q.new_context r h).0 [ none ↦ 0 | some c ↦ 1 ])
  pub context-free_context :
      (c : Q.JsContext) (h : Q.Heap) → Ledger counters h (Q.free_context c h) 1 0
  pub value-get_global_object :
      (c : Q.JsContext) (h : Q.Heap)
      → Ledger counters h (Q.get_global_object c h).1 0 (weight (Q.get_global_object c h).0)
  pub value-new_string :
      (c : Q.JsContext) (s : String) (h : Q.Heap)
      → Ledger counters h (Q.new_string c s h).1 0 (weight (Q.new_string c s h).0)
  pub value-new_object :
      (c : Q.JsContext) (h : Q.Heap)
      → Ledger counters h (Q.new_object c h).1 0 (weight (Q.new_object c h).0)
  pub value-new_array :
      (c : Q.JsContext) (h : Q.Heap)
      → Ledger counters h (Q.new_array c h).1 0 (weight (Q.new_array c h).0)
  pub value-eval :
      (c : Q.JsContext) (expr file : String) (h : Q.Heap)
      → Ledger counters h (Q.eval c expr file h).1 0 (weight (Q.eval c expr file h).0)
  pub value-free_value :
      (c : Q.JsContext) (v : Q.JsValue) (h : Q.Heap)
      → Ledger counters h (Q.free_value c v h) (weight v) 0
  pub value-get_exception :
      (c : Q.JsContext) (h : Q.Heap)
      → Ledger counters h (Q.get_exception c h).1 0 (weight (Q.get_exception c h).0)
  pub cstring-to_cstring :
      (c : Q.JsContext) (v : Q.JsValue) (h : Q.Heap)
      → Ledger counters h
          (Q.to_cstring c v h).1
          0
          (elim (Q.to_cstring c v h).0 [ none ↦ 0 | some s ↦ 1 ])
  pub cstring-free_cstring :
      (c : Q.JsContext) (s : Q.Cstring) (h : Q.Heap) → Ledger counters h (Q.free_cstring c s h) 1 0
  pub value-to_bool :
      (c : Q.JsContext) (v : Q.JsValue) (h : Q.Heap) → Ledger counters h (Q.to_bool c v h).1 0 0
  pub value-to_int32 :
      (c : Q.JsContext) (v : Q.JsValue) (h : Q.Heap) → Ledger counters h (Q.to_int32 c v h).1 0 0
  pub value-get_property_str :
      (c : Q.JsContext) (v : Q.JsValue) (name : String) (h : Q.Heap)
      → Ledger counters h
          (Q.get_property_str c v name h).1
          0
          (weight (Q.get_property_str c v name h).0)
  pub value-get_property_uint32 :
      (c : Q.JsContext) (v : Q.JsValue) (index : ℕ) (h : Q.Heap)
      → Ledger counters h
          (Q.get_property_uint32 c v index h).1
          0
          (weight (Q.get_property_uint32 c v index h).0)
  pub value-set_property_str :
      (c : Q.JsContext) (v : Q.JsValue) (name : String) (u : Q.JsValue) (h : Q.Heap)
      → Ledger counters h (Q.set_property_str c v name u h).1 (weight u) 0
  pub value-set_property_uint32 :
      (c : Q.JsContext) (v : Q.JsValue) (index : ℕ) (u : Q.JsValue) (h : Q.Heap)
      → Ledger counters h (Q.set_property_uint32 c v index u h).1 (weight u) 0
