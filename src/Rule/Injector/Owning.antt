-- ===== src/Rule/Injector/Owning.antt =====
-- The injection of a message keeps no reference: each value ends in the global object of the context
-- or is destroyed, on every path.
use proxypp.Prelude.{◌+◌, String, List, [], ◌∷◌, arith}
use proxypp.Prelude.Int.{wrap_int32}
use proxypp.Error.{on_error, ◌>>=◌, call}
use proxypp.Script.Quickjs.{Quickjs, QuickjsLaws}
use proxypp.Script.Ledger.{
  reheld-Accounts, on_error-Accounts, Accounts, recount-Accounts, bind-Accounts,
}
use proxypp.Script.Value.{Value, Context, destroy}
use proxypp.Script.Value.Owning.{owned_weight, destroy-Ledger, guard-Accounts}
use proxypp.Script.ObjectBuilder.{ObjectBuilder, create, build, set_string, set_int32, set_object}
use proxypp.Script.ObjectBuilder.Owning.{
  builder_weight, SetterLedger, create-Accounts, build-Accounts, making-Accounts, moving-Accounts,
  set_string-Ledger, set_int32-Ledger, set_object-Ledger,
}
use proxypp.Rule.Adapter.{Adapter, RequestReader, ResponseReader}
use proxypp.Rule.MatchContext.{MatchContext, add_object}
use proxypp.Rule.MatchContext.Owning.{add_object-Accounts}
use proxypp.Rule.Injector.{
  set_headers, build_header_object, build_request_object, build_response_object,
  inject_request_context, inject_response_context,
}

module _ {Q : Quickjs} (L : QuickjsLaws Q) where
  -- The common ends of the functions: the headers moved in, and the object injected.
  with_headers-Accounts :
      (header : Value Q) (b : ObjectBuilder Q)
      → Accounts L.counters
          (do filled ← call (set_object Q "headers" header b); build Q filled)
          (builder_weight L b + owned_weight L header)
          (owned_weight L)
  with_headers-Accounts header b =
      bind-Accounts L.counters _
        (recount-Accounts L.counters
          (moving-Accounts L (set_object Q "headers" header) (owned_weight L header) 0 b
            (set_object-Ledger L _ header))
          (omega arith))
        λ filled. recount-Accounts L.counters (build-Accounts L filled) (omega arith)

  injected-Accounts :
      (context : MatchContext Q) (b : ObjectBuilder Q)
      → Accounts L.counters
          (do ctx_obj ← build Q b; add_object Q "ctx" ctx_obj context)
          (builder_weight L b + 0)
          (λ _. 0)
  injected-Accounts context b =
      bind-Accounts L.counters _ (recount-Accounts L.counters (build-Accounts L b) (omega arith))
        λ ctx_obj. add_object-Accounts L "ctx" ctx_obj context

  both_guarded :
      (u v : Value Q) (context : Context Q)
      → Accounts L.counters
          (on_error (destroy Q u) (on_error (destroy Q v) (create Q context)))
          (owned_weight L v + owned_weight L u)
          (λ b. builder_weight L b + (owned_weight L u + owned_weight L v))
  both_guarded u v context =
      reheld-Accounts L.counters
        (on_error-Accounts L.counters (destroy Q u) (owned_weight L v) (owned_weight L u)
          (guard-Accounts L v (create-Accounts L context)) (destroy-Ledger L u))
        (λ b. omega arith)

  module _ (to_lower : String → String) where
    set_headers-Ledger :
        (headers : List (String × String)) → SetterLedger L 0 (set_headers Q to_lower headers)
    unfolding set_headers
    set_headers-Ledger [] b h = omega arith
    set_headers-Ledger ((name, value) ∷ headers) b h = omega (
      arith,
      set_string-Ledger L (to_lower name) value b h,
      set_headers-Ledger headers (set_string Q (to_lower name) value b h).0
          (set_string Q (to_lower name) value b h).1,
    )

    build_header_object-Accounts :
        (headers : List (String × String)) (context : Context Q)
        → Accounts L.counters (build_header_object Q to_lower headers context) 0 (owned_weight L)
    unfolding build_header_object
    build_header_object-Accounts headers context =
        bind-Accounts L.counters _ (create-Accounts L context) λ empty.
          bind-Accounts L.counters _
            (recount-Accounts L.counters
              (making-Accounts L (set_headers Q to_lower headers) 0 empty
                (set_headers-Ledger headers))
              (omega arith))
            λ filled. recount-Accounts L.counters (build-Accounts L filled) (omega arith)

    module _ {A : Type 0} (ops : Adapter A) (reader : RequestReader A) where
      build_request_object-Accounts :
          (request : A) (context : Context Q)
          → Accounts L.counters
              (build_request_object Q to_lower ops reader request context)
              0
              (owned_weight L)
      unfolding build_request_object
      build_request_object-Accounts request context =
          bind-Accounts L.counters _
            (build_header_object-Accounts (ops.get_all_headers request) context)
            λ header.
              bind-Accounts L.counters _ (guard-Accounts L header (create-Accounts L context)) λ b0.
                bind-Accounts L.counters _
                  (making-Accounts L (set_string Q "method" (reader.method request)) _ b0
                    (set_string-Ledger L _ _))
                  λ b1.
                    bind-Accounts L.counters _
                      (making-Accounts L (set_string Q "target" (reader.target request)) _ b1
                        (set_string-Ledger L _ _))
                      λ b2.
                        bind-Accounts L.counters _
                          (making-Accounts L
                            (set_int32 Q "version" (wrap_int32 (reader.version request))) _ b2
                            (set_int32-Ledger L _ _))
                          λ b3. with_headers-Accounts header b3

      pub inject_request_context-Accounts :
          (context : MatchContext Q) (request : A)
          → Accounts L.counters
              (inject_request_context Q to_lower ops reader context request)
              0
              (λ _. 0)
      unfolding inject_request_context
      inject_request_context-Accounts context request =
          bind-Accounts L.counters _ (build_request_object-Accounts request context.script_context)
            λ request_obj.
              bind-Accounts L.counters _
                (guard-Accounts L request_obj (create-Accounts L context.script_context))
                λ b0.
                  bind-Accounts L.counters _
                    (making-Accounts L (set_string Q "phase" "request") _ b0
                      (set_string-Ledger L _ _))
                    λ b1.
                      bind-Accounts L.counters _
                        (recount-Accounts L.counters
                          (moving-Accounts L (set_object Q "request" request_obj)
                            (owned_weight L request_obj) 0 b1 (set_object-Ledger L _ request_obj))
                          (omega arith))
                        λ b2. injected-Accounts context b2

    module _ {B : Type 0} (ops : Adapter B) (reader : ResponseReader B) where
      build_response_object-Accounts :
          (response : B) (context : Context Q)
          → Accounts L.counters
              (build_response_object Q to_lower ops reader response context)
              0
              (owned_weight L)
      unfolding build_response_object
      build_response_object-Accounts response context =
          bind-Accounts L.counters _
            (build_header_object-Accounts (ops.get_all_headers response) context)
            λ header.
              bind-Accounts L.counters _ (guard-Accounts L header (create-Accounts L context)) λ b0.
                bind-Accounts L.counters _
                  (making-Accounts L (set_int32 Q "status" (wrap_int32 (reader.status response))) _
                    b0 (set_int32-Ledger L _ _))
                  λ b1.
                    bind-Accounts L.counters _
                      (making-Accounts L (set_string Q "reason" (reader.reason response)) _ b1
                        (set_string-Ledger L _ _))
                      λ b2.
                        bind-Accounts L.counters _
                          (making-Accounts L
                            (set_int32 Q "version" (wrap_int32 (reader.version response))) _ b2
                            (set_int32-Ledger L _ _))
                          λ b3. with_headers-Accounts header b3

      pub inject_response_context-Accounts :
          {A : Type 0} (request_ops : Adapter A) (request_reader : RequestReader A) (request : A)
          (context : MatchContext Q) (response : B)
          → Accounts L.counters
              (inject_response_context Q to_lower ops reader request_ops request_reader request
                context response)
              0
              (λ _. 0)
      unfolding inject_response_context
      inject_response_context-Accounts request_ops request_reader request context response =
          bind-Accounts L.counters _
            (build_request_object-Accounts request_ops request_reader request
              context.script_context)
            λ request_obj.
              bind-Accounts L.counters _
                (guard-Accounts L request_obj
                  (build_response_object-Accounts response context.script_context))
                λ response_obj.
                  bind-Accounts L.counters _
                    (both_guarded request_obj response_obj context.script_context)
                    λ b0.
                      bind-Accounts L.counters _
                        (making-Accounts L (set_string Q "phase" "response") _ b0
                          (set_string-Ledger L _ _))
                        λ b1.
                          bind-Accounts L.counters _
                            (moving-Accounts L (set_object Q "request" request_obj)
                              (owned_weight L request_obj) (owned_weight L response_obj) b1
                              (set_object-Ledger L _ request_obj))
                            λ b2.
                              bind-Accounts L.counters _
                                (recount-Accounts L.counters
                                  (moving-Accounts L (set_object Q "response" response_obj)
                                    (owned_weight L response_obj) 0 b2
                                    (set_object-Ledger L _ response_obj))
                                  (omega arith))
                                λ b3. injected-Accounts context b3
