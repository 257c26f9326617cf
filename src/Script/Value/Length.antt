-- ===== src/Script/Value/Length.antt =====
-- The length of an array through a 32-bit signed integer.
use proxypp.Prelude.{ℕ, ◌^◌, ◌<◌, ◌≡◌, refl, true, false, some}
use proxypp.Prelude.Int.{wrap_int32, to_uint32-wrap_int32}
use proxypp.Error.{ok}
use proxypp.Script.Quickjs.{Quickjs}
use proxypp.Script.Value
use proxypp.Script.Value.{Value, handle, adopt, adopt_checked}
use proxypp.Script.Value.Convert.{converted, to_int32_of, to_int32}
use proxypp.Script.Value.Property.{length_of_number, array_length_of, array_length}

module _ (Q : Quickjs) where
  -- In the state h, the value is an array whose length property is the number n, which JS_ToInt32
  -- reduces modulo 2^32.
  pub record HasLength (target : Value Q) (n : ℕ) (h : Q.Heap) : Type 0 where
    pub context : Q.JsContext
    pub value : Q.JsValue
    pub valid : handle Q target ≡ some (context, value)
    pub array : Q.is_array value ≡ true
    pub number : Q.JsValue
    pub after : Q.Heap
    pub property : Q.get_property_str context value "length" h ≡ (number, after)
    pub no_exception : Q.is_exception number ≡ false
    pub allocated : Q.can_allocate after ≡ true
    pub is_number : Q.is_number number ≡ true
    pub reduced : (Q.to_int32 context number after).0 ≡ some (wrap_int32 n)

  -- The length of an array survives the way through a 32-bit signed integer: every length below
  -- 2^32 is returned as it is.
  pub array_length_lem :
      (target : Value Q) (n : ℕ) (h : Q.Heap)
      → n < 2 ^ 32
      → HasLength target n h
      → (array_length Q target h).0 ≡ ok n
  unfolding array_length array_length_of adopt_checked adopt length_of_number Value.is_number
      to_int32 to_int32_of converted
  array_length_lem target n h small p =
      rw
        (
          p.valid,
          p.array,
          p.property,
          p.no_exception,
          p.allocated,
          p.is_number,
          p.reduced,
          to_uint32-wrap_int32 n small,
        )
        refl
