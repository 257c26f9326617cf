-- ===== src/Http/Session/Exchange/Headers.antt =====
-- Which headers of the client's request reach the remote, through the proxy and the rules.
use proxypp.Prelude.{
  ap, sym, inl, inr, String, ◌≡◌, ◌∙◌, true, Option, none, some, [], arith, if◌then◌else◌,
}
use proxypp.Http.Environment.{Environment}
use proxypp.Http.Fields.{FieldsLaws, values}
use proxypp.Http.Adapter.{RequestHeader, request_adapter, request_reader}
use proxypp.Http.Adapter.Laws.{request_adapter-AdapterLaws}
use proxypp.Http.BodyInfo.{RequestParser}
use proxypp.Http.RemoteInfo.{parse_remote_info}
use proxypp.Http.RemoteHeader.{fields_to_erase, build_remote_request_header}
use proxypp.Http.RemoteHeader.Laws.{named_in, build_remote_request_header_lem}
use proxypp.Rule.Model.{HttpConfig}
use proxypp.Rule.Executor.{is_unsupported}
use proxypp.Rule.Injector.{inject_request_context}
use proxypp.Rule.Scripting.{script_matcher}
use proxypp.Rule.Apply.Laws.{apply_request_protected}
use proxypp.Http.Session.{Session, done, or_throw, or_stop}
use proxypp.Http.Session.Remote.{ensure_remote_connected}
use proxypp.Http.Session.Leaves.{bind-done, or_throw-done}
use proxypp.Http.Session.Exchange.{rewrite_request, prepare_request}

module _ (V : Environment) (L : FieldsLaws V.fields)
    (fold : (n m : String) → V.fields.same_name n m ≡ true → V.to_lower n ≡ V.to_lower m)
    (config : Option HttpConfig) where
  rewrite_request-values :
      (rules : Option HttpConfig) (header header' : RequestHeader V.fields) (s s' : Session V)
      (m : String)
      → is_unsupported V.to_lower m ≡ true
      → rewrite_request V config rules header s ≡ done header' s'
      → values V.fields m header'.fields ≡ values V.fields m header.fields
  unfolding rewrite_request
  rewrite_request-values none header header' s s' m protected e = ground arith
  rewrite_request-values (some c) header header' s s' m protected e = ground (
    arith,
    apply_request_protected (script_matcher V.quickjs V.engine) (request_adapter-AdapterLaws L)
        V.to_lower fold
        (inject_request_context V.quickjs V.to_lower (request_adapter V.fields)
          (request_reader V.fields))
        c.rules (s.runtime, header) m protected,
  )

  -- Whatever the rules are, and whether they succeed or fail: the request for the remote carries
  -- each protected header with the values of the client's request, in order, but for
  -- Proxy-Connection, Proxy-Authorization and Proxy-Authenticate, which it lacks.
  pub prepare_request-values :
      (request : RequestParser V.fields) (header : RequestHeader V.fields) (s s' : Session V)
      (m : String)
      → is_unsupported V.to_lower m ≡ true
      → prepare_request V config request s ≡ done header s'
      → values V.fields m header.fields ≡ (
          if named_in V.fields (fields_to_erase V.fields) m
          then []
          else values V.fields m request.header.fields)
  unfolding prepare_request
  prepare_request-values request header s s' m protected e =
      let (info, s1, _, e1) =
        bind-done (or_stop (parse_remote_info V.urls request.header) s) _ header s' e in
      let (_, s2, _, e2) = bind-done (ensure_remote_connected V info s1) _ header s' e1 in
      let (built, s3, build, e3) =
        bind-done
          (or_throw (build_remote_request_header V.fields V.enumerations request.header info) s2)
          (rewrite_request V config config) header s' e2 in
      let (found, _) =
        or_throw-done (build_remote_request_header V.fields V.enumerations request.header info) s2
          s3 built build in
      elim (build_remote_request_header_lem L V.enumerations request.header info) [
        | inl (_, built', found', from_client) ↦
            let same : built' ≡ built = ground arith in
            rewrite_request-values config built header s3 s' m protected e3
            ∙ ap (λ (h : RequestHeader V.fields). values V.fields m h.fields) (sym same)
            ∙ from_client.kept m
        | inr (_, refused) ↦ cc
      ]
