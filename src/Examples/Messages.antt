-- ===== src/Examples/Messages.antt =====
-- Buffers, lines and headers.
use proxypp.Prelude.{
  not, true, false, ◌==◌, ◌⊎◌, none, ℕ, String, ◌≡◌, refl, ◌↔◌, some, List, [], ◌∷◌, arith, str_eq,
}
use proxypp.Http.MessageUtils.{find_crlf, parse_digits, parse_chunk_size_line}
use proxypp.Http.MessageUtils.FindCrlf.{IsFirstCrlf, find_crlf-IsFirstCrlf}
use proxypp.Http.MessageUtils.ChunkSize.{hex_value, fitting, parse_digits-hex_value}
use proxypp.Http.MessageUtils.ChunkLine.{
  WritesSize, parse_chunk_size_line_iff, parse_chunk_size_line_blank,
}
use proxypp.Http.Fields.{values}
use proxypp.Http.Adapter.{
  RequestHeader, ResponseHeader, request_adapter, response_adapter, request_values, response_values,
}
use proxypp.Http.Adapter.Laws.{request_adapter-AdapterLaws, response_adapter-AdapterLaws}
use proxypp.Http.BodyInfo.{determine_response_body}
use proxypp.Http.BodyInfo.Laws.{Framed, determine_response_body-Framed}
use proxypp.Http.RemoteInfo.{RemoteInfo, parse_remote_info}
use proxypp.Http.RemoteInfo.Laws.{AsksFor, parse_remote_info_iff}
use proxypp.Http.RemoteHeader.{
  insert_all, build_remote_request_header, remote_request, client_response,
}
use proxypp.Http.RemoteHeader.Laws.{
  EnumerationsLaws, BuiltFrom, build_remote_request_header_lem, remote_request-values,
  client_response_lem,
}
use proxypp.Rule.Adapter.{AdapterLaws}
use proxypp.Examples.Headers.{fields, fields-FieldsLaws}
use proxypp.Examples.Proxy.{urls, enumerations, get_request, short_response}

-- "1a", a line end and more.
abbrev line_buffer : List ℕ
line_buffer = b'1' ∷ b'a' ∷ 13 ∷ 10 ∷ 13 ∷ 10 ∷ []

crlf_at_two : find_crlf line_buffer ≡ some 2
unfolding find_crlf
crlf_at_two = refl

find_crlf-IsFirstCrlf_example : IsFirstCrlf line_buffer (find_crlf line_buffer)
find_crlf-IsFirstCrlf_example = find_crlf-IsFirstCrlf line_buffer

-- Seventeen digits: too many for 64 bits.
abbrev long_digits : List ℕ
long_digits =
    b'1' ∷ b'0' ∷ b'0' ∷ b'0' ∷ b'0' ∷ b'0' ∷ b'0' ∷ b'0' ∷ b'0' ∷ b'0' ∷ b'0' ∷ b'0' ∷ b'0' ∷ b'0'
    ∷ b'0' ∷ b'0' ∷ b'0' ∷ []

parse_digits-hex_value_example : parse_digits 0 long_digits ≡ fitting (hex_value 0 long_digits)
parse_digits-hex_value_example = parse_digits-hex_value 0 long_digits (omega arith)

-- "1a ;x"
abbrev size_line : List ℕ
size_line = b'1' ∷ b'a' ∷ b' ' ∷ b';' ∷ b'x' ∷ []

parse_chunk_size_line_iff_example :
    (parse_chunk_size_line size_line ≡ some 26) ↔ WritesSize size_line 26
parse_chunk_size_line_iff_example = parse_chunk_size_line_iff size_line 26

parse_chunk_size_line_blank_example : parse_chunk_size_line (b' ' ∷ 9 ∷ b';' ∷ b'x' ∷ []) ≡ some 0
parse_chunk_size_line_blank_example =
    parse_chunk_size_line_blank (b' ' ∷ 9 ∷ []) (b';' ∷ b'x' ∷ []) (λ h. cc) (ground arith)
      (ground arith) (ground arith) (ground arith)

determine_response_body-Framed_example :
    Framed get_request short_response (determine_response_body get_request short_response)
determine_response_body-Framed_example = determine_response_body-Framed get_request short_response

abbrev parsed_remote : RemoteInfo
parsed_remote = record {
  scheme = "http";
  host = "example.org";
  port = "8080";
  forward_target = "/index?q=1";
}

parse_remote_info_iff_example :
    (parse_remote_info urls get_request.header ≡ some parsed_remote)
    ↔ AsksFor urls get_request.header parsed_remote
parse_remote_info_iff_example = parse_remote_info_iff urls get_request.header parsed_remote

build_remote_request_header_lem_example :
    ((enumerations.known_method "GET" ≡ true)
      × (built : RequestHeader fields) × (build_remote_request_header fields enumerations
            get_request.header parsed_remote
          ≡ some built)
      × BuiltFrom fields-FieldsLaws enumerations get_request.header parsed_remote built)
    ⊎ ((enumerations.known_method "GET" ≡ false)
        × (build_remote_request_header fields enumerations get_request.header parsed_remote ≡ none))
build_remote_request_header_lem_example =
    build_remote_request_header_lem fields-FieldsLaws enumerations get_request.header parsed_remote

-- A GET is written with its fields.
written_request : remote_request fields enumerations get_request.header ≡ some get_request.header
unfolding remote_request insert_all
written_request = refl

remote_request-values_example :
    values fields "x-a" get_request.header.fields ≡ values fields "x-a" get_request.header.fields
remote_request-values_example =
    remote_request-values fields-FieldsLaws enumerations get_request.header get_request.header "x-a"
      written_request

named_status : (code : ℕ) → not (code == 799) ≡ true → enumerations.int_to_status code ≡ code
named_status code e = ground arith

status_without_name : (code : ℕ) → not (code == 799) ≡ false → enumerations.int_to_status code ≡ 0
status_without_name code e = ground arith

abbrev enumerations-EnumerationsLaws : EnumerationsLaws enumerations
enumerations-EnumerationsLaws = record {
  is_named = λ code. not (code == 799);
  int_to_status-named = named_status;
  int_to_status-unnamed = status_without_name;
}

-- A response with a status code that has no name.
abbrev unnamed_status : ResponseHeader fields
unnamed_status = record short_response.header { result = 799 }

client_response_lem_example :
    let written = client_response fields enumerations unnamed_status in
    ((m : String) → values fields m written.fields ≡ values fields m unnamed_status.fields)
    × (written.reason ≡ "OK")
    × (written.version ≡ 11)
    × (((not (799 == 799) ≡ true) × (written.result ≡ 799))
        ⊎ ((not (799 == 799) ≡ false) × (written.result ≡ 0)))
client_response_lem_example =
    client_response_lem fields-FieldsLaws enumerations enumerations-EnumerationsLaws unnamed_status

request_adapter-AdapterLaws_example :
    AdapterLaws (request_adapter fields) str_eq (request_values fields)
request_adapter-AdapterLaws_example = request_adapter-AdapterLaws fields-FieldsLaws

response_adapter-AdapterLaws_example :
    AdapterLaws (response_adapter fields) str_eq (response_values fields)
response_adapter-AdapterLaws_example = response_adapter-AdapterLaws fields-FieldsLaws
