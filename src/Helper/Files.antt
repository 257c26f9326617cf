-- ===== src/Helper/Files.antt =====
-- src/proxypp/helper/file_helper.cpp.
use proxypp.Prelude.{String, Option, none, some, ◌+++◌}
use proxypp.Error.{common, invalid_argument, make_error, Result, ok, err}

abbrev pub opened : String → Option String → Result String
opened path none = err (make_error (common invalid_argument) ("failed to open file: " +++ path))
opened path (some text) = ok text

-- ReadTextFile, by what the file system holds at the path: `none` is a file that cannot be opened.
unfoldable pub read_text_file : (String → Option String) → String → Result String
read_text_file content path = opened path (content path)
