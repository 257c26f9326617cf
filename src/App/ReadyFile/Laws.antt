-- ===== src/App/ReadyFile/Laws.antt =====
-- The ready file is never seen half written.
use proxypp.Prelude.{
  ℕ, String, ◌≡◌, refl, sym, ap, ◌∙◌, ◌≢◌, ◌⊎◌, inl, inr, Bool, true, false, Option, none, some,
  str_eq,
}
use mathlib.Core.Bool.{true≢false}
use text.Mathlib.TextLemmas
use proxypp.Error.{Result, ok, err}
use proxypp.App.ReadyFile.{
  FileSystem, ready_text, temporary_name, opened, written, renamed, renamed_result,
  write_ready_file,
}

-- What std::ofstream and std::filesystem promise of the contents.
pub record FileSystemLaws (F : FileSystem) : Type 0 where
  -- Another file is not touched.
  pub content-open_truncated :
      (path other : String) (files : F.Files)
      → path ≢ other
      → F.content (F.open_truncated path files).1 other ≡ F.content files other
  pub content-write_flushed :
      (path text other : String) (files : F.Files)
      → path ≢ other
      → F.content (F.write_flushed path text files).1 other ≡ F.content files other
  -- A write to a truncated file that succeeds leaves the text in it.
  pub content-written :
      (path text : String) (files : F.Files)
      → (F.open_truncated path files).0 ≡ true
      → (F.write_flushed path text (F.open_truncated path files).1).0 ≡ true
      → F.content (F.write_flushed path text (F.open_truncated path files).1).1 path ≡ some text
  -- A rename that succeeds moves the content; one that fails changes nothing.
  pub content-rename :
      (from to : String) (files : F.Files)
      → (F.rename from to files).0 ≡ none
      → F.content (F.rename from to files).1 to ≡ F.content files from
  pub content-rename_failed :
      (from to : String) (files : F.Files) (what : String)
      → (F.rename from to files).0 ≡ some what
      → F.content (F.rename from to files).1 to ≡ F.content files to

temporary_other : (name : String) → temporary_name name ≢ name
unfolding temporary_name
temporary_other name e =
    let same : ".tmp" ≡ "" =
      TextLemmas.append_cancel_left name ".tmp" "" (e ∙ sym (TextLemmas.append-nil name)) in
    true≢false (ap (str_eq ".tmp") same)

module _ {F : FileSystem} (L : FileSystemLaws F) (ready_file host : String) (port : ℕ) where
  -- What a file holds, by the result: its whole text after a success; after an error what it held
  -- before, or its whole text.
  abbrev pub AllOrNothing : Option String → Option String → Result (Unit {0}) → Type 0
  AllOrNothing before after (ok u) = after ≡ some (ready_text F host port)
  AllOrNothing before after (err e) = (after ≡ before) ⊎ (after ≡ some (ready_text F host port))

  renamed_result-AllOrNothing :
      (before after : Option String) (o : Option String)
      → after ≡ some (ready_text F host port)
      → AllOrNothing before after (renamed_result F o)
  renamed_result-AllOrNothing before after none e = e
  renamed_result-AllOrNothing before after (some what) e = inr e

  renamed-AllOrNothing :
      (before : Option String) (files : F.Files) (o : Option String) (files' : F.Files)
      → (o ≡ none → F.content files' ready_file ≡ some (ready_text F host port))
      → ((what : String) → o ≡ some what → F.content files' ready_file ≡ before)
      → AllOrNothing before
          (F.content (renamed F ready_file (o, files')).1 ready_file)
          (renamed F ready_file (o, files')).0
  renamed-AllOrNothing before files none files' done failed =
      renamed_result-AllOrNothing before _ (F.absolute ready_file files') (done refl)
  renamed-AllOrNothing before files (some what) files' done failed = inl (failed what refl)

  written-AllOrNothing :
      (before : Option String) (good : Bool) (files : F.Files)
      → F.content files ready_file ≡ before
      → (good ≡ true → F.content files (temporary_name ready_file) ≡ some (ready_text F host port))
      → AllOrNothing before
          (F.content (written F ready_file (good, files)).1 ready_file)
          (written F ready_file (good, files)).0
  written-AllOrNothing before false files kept text = inl kept
  written-AllOrNothing before true files kept text =
      renamed-AllOrNothing before files _ _
        (λ e. L.content-rename (temporary_name ready_file) ready_file files e ∙ text refl)
        (λ what e.
          L.content-rename_failed (temporary_name ready_file) ready_file files what e ∙ kept)

  opened-AllOrNothing :
      (files : F.Files) (good : Bool) (files' : F.Files)
      → F.content files' ready_file ≡ F.content files ready_file
      → (good ≡ true
          → (F.write_flushed (temporary_name ready_file) (ready_text F host port) files').0 ≡ true
          → F.content
              (F.write_flushed (temporary_name ready_file) (ready_text F host port) files').1
              (temporary_name ready_file)
            ≡ some (ready_text F host port))
      → AllOrNothing
          (F.content files ready_file)
          (F.content (opened F ready_file host port (good, files')).1 ready_file)
          (opened F ready_file host port (good, files')).0
  opened-AllOrNothing files false files' kept text = inl kept
  opened-AllOrNothing files true files' kept text =
      written-AllOrNothing _ _ _
        (L.content-write_flushed _ _ ready_file files' (temporary_other ready_file) ∙ kept)
        (text refl)

  -- Wherever the writing of the ready file fails, the file is left as it was before or with the
  -- whole text of host and port, never with a part of it; where it succeeds, the whole text is in
  -- the file.
  pub write_ready_file-AllOrNothing :
      (files : F.Files)
      → AllOrNothing
          (F.content files ready_file)
          (F.content (write_ready_file F ready_file host port files).1 ready_file)
          (write_ready_file F ready_file host port files).0
  unfolding write_ready_file
  write_ready_file-AllOrNothing files =
      opened-AllOrNothing files _ _
        (L.content-open_truncated _ ready_file files (temporary_other ready_file))
        (λ good. L.content-written _ _ files good)
