-- ===== src/Script/Context.antt =====
-- The owner of a JSContext: src/proxypp/script/qjs/context.{h,cpp}. Logging is left out.
use proxypp.Prelude.{Bool, true, false, Option, none, some}
use proxypp.Error.{create_context_failed, qjs, make_error, R, pure, fail, ◌>>=◌, call}
use proxypp.Script.Quickjs.{Quickjs}
use proxypp.Script.Value.{Context}
use proxypp.Script.Runtime.{Runtime}

module _ (Q : Quickjs) where
  abbrev pub created : Option Q.JsContext → R Q.Heap (Context Q)
  created none = fail (make_error (qjs create_context_failed) "")
  created (some context) = pure (record { native_handle = some context })

  -- Context::Create
  unfoldable pub create : Runtime Q → R Q.Heap (Context Q)
  create runtime = do context ← call (Q.new_context runtime.native_handle); created context

  abbrev pub free : Option Q.JsContext → Q.Heap → Q.Heap
  free none h = h
  free (some context) h = Q.free_context context h

  -- ~Context
  unfoldable pub destroy : Context Q → Q.Heap → Q.Heap
  destroy context = free context.native_handle

  -- The move constructor: the new context, and what is left of the other one.
  unfoldable pub move_from : Context Q → Context Q × Context Q
  move_from other =
      (record { native_handle = other.native_handle }, record { native_handle = none })

  -- operator= of an rvalue, told whether both are the same object: this context, the other one and
  -- the heap.
  unfoldable pub assign : Bool → Context Q → Context Q → Q.Heap → (Context Q × Context Q) × Q.Heap
  assign true this other h = ((this, other), h)
  assign false this other h = (move_from other, free this.native_handle h)
