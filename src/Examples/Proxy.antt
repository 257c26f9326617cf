-- ===== src/Examples/Proxy.antt =====
-- A proxy between lists of bytes: what the model takes as parameters, made concrete.
use proxypp.Prelude.{ℕ, true, false, ◌||◌, none, some, List, [], ◌∷◌, ◌==◌, str_eq, if◌then◌else◌}
use proxypp.Http.Environment.{Environment, Reply, HeaderRead}
use proxypp.Http.BodyInfo.{RequestParser, ResponseParser}
use proxypp.Http.RemoteInfo.{UrlParsers}
use proxypp.Http.RemoteHeader.{Enumerations}
use proxypp.Http.Session.{Session}
use proxypp.Examples.Scripts.{quickjs, engine, empty_heap}
use proxypp.Examples.Wire.{Wire, wires, silent}
use proxypp.Examples.Headers.{fields}

-- Every target is http://example.org:8080/index?q=1, and every authority example.org:443.
abbrev pub urls : UrlParsers
urls = record {
  parse_absolute_uri = λ target. some (record {
    scheme = "http";
    host = "example.org";
    port = "8080";
    encoded_target = "/index?q=1";
    encoded_path = "/index";
    has_query = true;
    encoded_query = "q=1";
  });
  parse_authority = λ target. some (record { host = "example.org"; port = "443" });
}

abbrev pub enumerations : Enumerations
enumerations = record {
  known_method = λ m. str_eq m "GET" || str_eq m "CONNECT";
  int_to_status = λ code. if code == 799 then 0 else code;
}

abbrev pub get_request : RequestParser fields
get_request = record {
  header = record {
    method = "GET";
    target = "http://example.org:8080/index?q=1";
    version = 11;
    fields = ("host", "example.org") ∷ ("Proxy-Connection", "close") ∷ ("x-a", "1") ∷ [];
  };
  chunked = false;
  content_length = none;
  keep_alive = true;
}

abbrev pub short_response : ResponseParser fields
short_response = record {
  header = record { result = 200; reason = "OK"; version = 11; fields = ("x-b", "2") ∷ [] };
  chunked = false;
  content_length = some 2;
  keep_alive = true;
}

-- One byte of the buffer stands for a header.
abbrev pub read_header : {A : Type 0} → A → List ℕ → Wire → HeaderRead Wire A
read_header a [] w = record { parser = none; buffer = []; world = w }
read_header a (b ∷ buffer) w = record { parser = some a; buffer = buffer; world = w }

abbrev pub succeeds : {A : Type 0} → A → Wire → Reply Wire A
succeeds a w = record { ec = none; value = a; world = w }

abbrev pub proxy : Environment
proxy = record {
  fields = fields;
  sockets = wires;
  urls = urls;
  enumerations = enumerations;
  quickjs = quickjs;
  engine = engine;
  to_lower = λ name. name;
  Endpoint = ℕ;
  async_resolve = λ host port. succeeds (1 ∷ []);
  async_connect = λ endpoints. succeeds tt;
  is_open = λ p w. true;
  shutdown = λ p w. w;
  close_socket = λ p w. w;
  read_request_header = read_header get_request;
  read_response_header = read_header short_response;
  write_request_header = λ header. succeeds tt;
  write_response_header = λ header. succeeds tt;
}

-- One request is in the buffer of the client, and one response with its body in that of the remote.
abbrev pub fresh : Session proxy
fresh = record {
  world = record { client_line = silent; remote_line = silent };
  runtime = empty_heap;
  client_read_buffer = 0 ∷ [];
  remote_read_buffer = 0 ∷ 5 ∷ 6 ∷ [];
  remote_state = record { host = ""; port = ""; connected = false };
  closed = false;
}

-- The session after one exchange.
abbrev pub served : Session proxy
served = record {
  world = record {
    client_line = record { incoming = []; delivered = []; written = 5 ∷ 6 ∷ [] };
    remote_line = silent;
  };
  runtime = empty_heap;
  client_read_buffer = [];
  remote_read_buffer = [];
  remote_state = record { host = "example.org"; port = "8080"; connected = true };
  closed = false;
}
