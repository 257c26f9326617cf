-- ===== src/Examples/Exchanges.antt =====
-- Whole exchanges of a session of the concrete proxy.
use proxypp.Prelude.{some, ◌≡◌, refl, true, false, none, [], ◌∷◌, eq_iff, if◌then◌else◌}
use proxypp.Http.Stream.{read_some_from_peer, take_read, write_to_peer, take_written}
use proxypp.Http.Fields.{values}
use proxypp.Http.Adapter.{RequestHeader}
use proxypp.Http.BodyInfo.{
  request_by_length, determine_request_body, response_by_length, determine_response_body,
}
use proxypp.Http.RemoteInfo.{
  RemoteInfo, http_remote_info, parse_http_remote_info, parse_remote_info,
}
use proxypp.Http.RemoteHeader.{
  fields_to_erase, insert_all, erase_all, build_remote_request_header, remote_request,
  client_response,
}
use proxypp.Http.RemoteHeader.Laws.{named_in}
use proxypp.Http.Forward.{forward_exactly, exactly_round, fill}
use proxypp.Http.Session.{Session, done, close_socket, reset_remote_state, close_remote}
use proxypp.Http.Session.Remote.{
  nonempty_endpoints, resolve_remote, connect_remote, set_remote_state, can_reuse, reconnect,
  ensure_remote_connected,
}
use proxypp.Http.Session.Remote.Laws.{ConnectedOrNot, ensure_remote_connected_lem}
use proxypp.Http.Session.Body.{
  io_of, put_io, after_loop, run_loop, forward_request_framed, forward_request_body,
  forward_response_framed, forward_response_body, read_client_request_header,
  read_remote_response_header, send_request_header, write_remote_request_header,
  write_remote_response_header_to_client,
}
use proxypp.Http.Session.Exchange.{
  rewrite_request, rewrite_response, prepare_request, keep_alive_result, should_keep_alive,
  forward_exchange, handle_one_exchange, run,
}
use proxypp.Http.Session.Exchange.Closing.{RunLeaves, run-RunLeaves}
use proxypp.Http.Session.Exchange.KeepAlive.{KeptAlive, handle_one_exchange-KeptAlive}
use proxypp.Http.Session.Exchange.Headers.{prepare_request-values}
use proxypp.Examples.Wire.{silent}
use proxypp.Examples.Headers.{fields, fields-FieldsLaws}
use proxypp.Http.Session.Heap.{Holds}
use proxypp.Http.Session.Exchange.Balance.{run-Balanced}
use proxypp.Script.Quickjs.{Balanced}
use proxypp.Rule.Model.{Op, Phase, Target, header_name_value, HttpConfig}
use proxypp.Examples.Scripts.{quickjs-QuickjsLaws, empty_heap}
use proxypp.Examples.Proxy.{proxy, fresh, served, get_request}

one_exchange : handle_one_exchange proxy none 5 [] fresh ≡ done true served
unfolding handle_one_exchange forward_exchange prepare_request rewrite_request rewrite_response
    keep_alive_result should_keep_alive read_client_request_header read_remote_response_header
    send_request_header write_remote_request_header write_remote_response_header_to_client
    forward_request_body forward_request_framed forward_response_body forward_response_framed
    run_loop after_loop io_of put_io forward_exactly exactly_round fill read_some_from_peer
    take_read write_to_peer take_written ensure_remote_connected reconnect can_reuse
    set_remote_state connect_remote resolve_remote nonempty_endpoints close_remote
    reset_remote_state close_socket parse_remote_info parse_http_remote_info http_remote_info
    build_remote_request_header remote_request client_response insert_all erase_all
    determine_request_body request_by_length determine_response_body response_by_length
one_exchange = refl

handle_one_exchange-KeptAlive_example : KeptAlive proxy none 5 fresh served
handle_one_exchange-KeptAlive_example =
    handle_one_exchange-KeptAlive proxy none 5 [] fresh served refl one_exchange

run-RunLeaves_example : RunLeaves proxy none (run proxy none 3 5 [] fresh)
run-RunLeaves_example = run-RunLeaves proxy none 3 5 [] fresh refl

abbrev scripted : HttpConfig
scripted = record {
  rules = some (
      record {
        name = "scripted";
        enabled = true;
        phase = Phase.request;
        match = some (record { expr = "true" });
        actions =
            record {
              op = Op.set;
              target = Target.header;
              action_data = header_name_value "x-b" "3";
            }
            ∷ [];
      }
      ∷ []);
}

run-Balanced_example :
    Holds
      (Balanced quickjs-QuickjsLaws.counters empty_heap)
      (run proxy (some scripted) 3 5 [] fresh)
run-Balanced_example = run-Balanced proxy quickjs-QuickjsLaws (some scripted) 3 5 [] fresh

abbrev example_org : RemoteInfo
example_org = record { scheme = "http"; host = "example.org"; port = "8080"; forward_target = "/" }

ensure_remote_connected_lem_example :
    ConnectedOrNot example_org fresh (ensure_remote_connected proxy example_org fresh)
ensure_remote_connected_lem_example = ensure_remote_connected_lem proxy example_org fresh

-- The session after the remote is connected and the header is built.
abbrev connected : Session proxy
connected = record {
  world = record { client_line = silent; remote_line = silent };
  runtime = empty_heap;
  client_read_buffer = 0 ∷ [];
  remote_read_buffer = 0 ∷ 5 ∷ 6 ∷ [];
  remote_state = record { host = "example.org"; port = "8080"; connected = true };
  closed = false;
}

abbrev remote_header : RequestHeader fields
remote_header = record {
  method = "GET";
  target = "/index?q=1";
  version = 11;
  fields = ("host", "example.org") ∷ ("x-a", "1") ∷ [];
}

prepared : prepare_request proxy none get_request fresh ≡ done remote_header connected
unfolding prepare_request rewrite_request ensure_remote_connected reconnect can_reuse
    set_remote_state connect_remote resolve_remote nonempty_endpoints close_remote
    reset_remote_state close_socket parse_remote_info parse_http_remote_info http_remote_info
    build_remote_request_header insert_all erase_all
prepared = refl

prepare_request-values_example : values fields "host" remote_header.fields ≡ (
    if named_in fields (fields_to_erase fields) "host"
    then []
    else values fields "host" get_request.header.fields)
prepare_request-values_example =
    prepare_request-values proxy fields-FieldsLaws (λ n m e. (eq_iff n m).0 e) none get_request
      remote_header fresh connected "host" refl prepared
