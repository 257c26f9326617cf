-- ===== src/App/ReadyFile.antt =====
-- The file that tells that the server listens: WriteReadyFile of src/app/main.cpp. The file system is
-- a parameter; a path is its text. Logging is left out.
pub mod Laws
use proxypp.Prelude.{
  ℕ, zero, suc, ◌+◌, ◌-◌, ◌*◌, ◌/◌, ◌%◌, ◌^◌, ◌≤◌, ◌<◌, min, String, ◌≡◌, refl, sym, ap, subst, ◌∙◌,
  ◌≡⟨◌⟩◌, ◌∎, ◌≢◌, ◌↔◌, ◌⊎◌, inl, inr, Bool, true, false, not, ◌&&◌, ◌||◌, Option, none, some, List,
  [], ◌∷◌, ◌++◌, map, append-nil, append_assoc, arith, eq_iff, ltb, leb, ◌==◌, ◌+++◌, str_eq,
  if◌then◌else◌, ltb→lt, lt→ltb, ==_iff, Bool-cases, Option-cases, length, take, drop, All,
  length-append, take-append-drop, length-take, length-drop, take-length, drop-length, filter,
  contains,
}
use proxypp.Error.{common, internal_error, file_operation_failed, make_error, Result, ok, err, R}

-- std::ofstream and std::filesystem, over the state of the file system.
pub record FileSystem : Type 1 where
  pub Files : Type 0
  pub content : Files → String → Option String
  -- An output stream that truncates the file: whether it opens.
  pub open_truncated : String → Files → Bool × Files
  -- What is written to the open stream, with the flush and the end of the stream: whether the stream
  -- is good after the flush.
  pub write_flushed : String → String → Files → Bool × Files
  -- rename and absolute: the what() of the exception that is thrown.
  pub rename : String → String → Files → Option String × Files
  pub absolute : String → Files → Option String
  pub number_text : ℕ → String

unfoldable pub temporary_name : String → String
temporary_name ready_file = ready_file +++ ".tmp"

module _ (F : FileSystem) where
  -- The text that is written.
  unfoldable pub ready_text : String → ℕ → String
  ready_text host port =
      "{\n"
      +++ "  \"host\": \""
      +++ host
      +++ "\",\n"
      +++ "  \"port\": "
      +++ F.number_text port
      +++ "\n"
      +++ "}\n"

  abbrev rename_failure : String → Result (Unit {0})
  rename_failure what = err (make_error (common internal_error) ("rename file failed, " +++ what))

  -- The rest of the try block: the path is made absolute for the log.
  abbrev pub renamed_result : Option String → Result (Unit {0})
  renamed_result none = ok tt
  renamed_result (some what) = rename_failure what

  abbrev pub renamed : String → Option String × F.Files → Result (Unit {0}) × F.Files
  renamed ready_file (none, files) = (renamed_result (F.absolute ready_file files), files)
  renamed ready_file (some what, files) = (rename_failure what, files)

  abbrev pub written : String → Bool × F.Files → Result (Unit {0}) × F.Files
  written ready_file (true, files) =
      renamed ready_file (F.rename (temporary_name ready_file) ready_file files)
  written ready_file (false, files) = (
    err (
        make_error (common file_operation_failed)
          ("write file " +++ temporary_name ready_file +++ " failed")),
    files,
  )

  abbrev pub opened : String → String → ℕ → Bool × F.Files → Result (Unit {0}) × F.Files
  opened ready_file host port (true, files) =
      written ready_file (F.write_flushed (temporary_name ready_file) (ready_text host port) files)
  opened ready_file host port (false, files) =
      (err (make_error (common internal_error) (temporary_name ready_file)), files)

  -- WriteReadyFile
  unfoldable pub write_ready_file : String → String → ℕ → R F.Files (Unit {0})
  write_ready_file ready_file host port files =
      opened ready_file host port (F.open_truncated (temporary_name ready_file) files)
