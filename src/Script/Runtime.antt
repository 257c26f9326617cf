-- ===== src/Script/Runtime.antt =====
-- The owner of a JSRuntime: src/proxypp/script/qjs/runtime.{h,cpp}. Logging is left out.
use proxypp.Prelude.{Bool, true, false, Option, none, some}
use proxypp.Error.{create_runtime_failed, qjs, make_error, R, pure, fail, ◌>>=◌, call}
use proxypp.Script.Quickjs.{Quickjs}

-- qjs::Runtime, around a JSRuntime* that may be null.
pub record Runtime (Q : Quickjs) : Type 0 where
  pub native_handle : Option Q.JsRuntime

module _ (Q : Quickjs) where
  abbrev pub created : Option Q.JsRuntime → R Q.Heap (Runtime Q)
  created none = fail (make_error (qjs create_runtime_failed) "")
  created (some runtime) = pure (record { native_handle = some runtime })

  -- Runtime::Create
  unfoldable pub create : R Q.Heap (Runtime Q)
  create = do runtime ← call Q.new_runtime; created runtime

  abbrev pub free : Option Q.JsRuntime → Q.Heap → Q.Heap
  free none h = h
  free (some runtime) h = Q.free_runtime runtime h

  -- ~Runtime
  unfoldable pub destroy : Runtime Q → Q.Heap → Q.Heap
  destroy runtime = free runtime.native_handle

  -- The move constructor: the new runtime, and what is left of the other one.
  unfoldable pub move_from : Runtime Q → Runtime Q × Runtime Q
  move_from other =
      (record { native_handle = other.native_handle }, record { native_handle = none })

  -- operator= of an rvalue, told whether both are the same object: this runtime, the other one and
  -- the heap.
  unfoldable pub assign : Bool → Runtime Q → Runtime Q → Q.Heap → (Runtime Q × Runtime Q) × Q.Heap
  assign true this other h = ((this, other), h)
  assign false this other h = (move_from other, free this.native_handle h)
