-- ===== src/Filesystem/Publish.antt =====
-- How the publication of a file ends (src/filesystem.c).
use cup.Base.{
  ℕ, ap, Bool, true, false, not, ◌||◌, some, ◌≡◌, ◌≢◌, refl, ◌⊎◌, inl, inr, arith, is_nil, Text,
  Bool-cases, if◌then◌else◌,
}
use cup.Errors.{CupError, cup_ok, Result, ok, err, commit, invalid_input}
use cup.Path.{max_path_len, path_parent, path_equal, path_normalize}
use cup.Text.{text_copy}
use cup.System.{StoredFile, MoveAnswer, moved, applied, reverted, not_applied, file_after_move}
use cup.Filesystem.{
  PublishFileAnswers, PublicationMode, mode_is_usable, mode_admits, mode_replaces, write_temporary,
  finish_file, after_writing, after_creating, publish_file,
}

-- The new file stands there whole, with CUP_OK or CUP_ERR_COMMIT, and the writer was content; or
-- the file is as it was, with an error.
pub data FileOutcome (a : PublishFileAnswers) (mode : PublicationMode) (writer : CupError × Text)
    (before : StoredFile) (r : CupError × StoredFile) : Type 0 where
  published :
      (r.0 ≡ cup_ok) ⊎ (r.0 ≡ commit)
      → r.1 ≡ some (writer.1, a.new_identity)
      → writer.0 ≡ cup_ok
      → mode_admits mode before ≡ true
      → FileOutcome a mode writer before r
  untouched : r.0 ≢ cup_ok → r.1 ≡ before → FileOutcome a mode writer before r

-- An error of `write_temporary` is none of the writer's, or the writer failed.
write_temporary-writer :
    (a : PublishFileAnswers) (executable : Bool) (e : CupError)
    → write_temporary a executable e ≡ cup_ok
    → e ≡ cup_ok
unfolding write_temporary
write_temporary-writer a executable cup_ok h = refl
write_temporary-writer a executable _ h = h

module _ (a : PublishFileAnswers) (mode : PublicationMode) (writer : CupError × Text)
    (file : StoredFile) where
  finish-outcome :
      (move : MoveAnswer) (admitted : Bool)
      → mode_admits mode file ≡ admitted
      → writer.0 ≡ cup_ok
      → FileOutcome a mode writer file (
          finish_file move admitted file
            (file_after_move move (mode_replaces mode) file (some (writer.1, a.new_identity))))
  unfolding finish_file file_after_move
  finish-outcome moved true m w = published (inl refl) refl w m
  finish-outcome (applied e) true m w = published (inr refl) refl w m
  finish-outcome reverted true m w = elim (Bool-cases (mode_replaces mode)) [
    | inl stays ↦ published (inr refl) (rw stays refl) w m
    | inr back ↦ untouched (λ q. ground arith) (rw back refl)
  ]
  finish-outcome reverted false m w = untouched (λ q. ground arith) refl
  finish-outcome (not_applied cup_ok) true m w = untouched (λ q. ground arith) refl
  finish-outcome (not_applied _) true m w = untouched (λ q. ground arith) refl
  finish-outcome (not_applied cup_ok) false m w = untouched (λ q. ground arith) refl
  finish-outcome (not_applied _) false m w = untouched (λ q. ground arith) refl
  finish-outcome moved false m w = untouched (λ q. ground arith) refl
  finish-outcome (applied e) false m w = untouched (λ q. ground arith) refl

  writing-outcome :
      (executable : Bool) (e : CupError)
      → (e ≡ cup_ok → writer.0 ≡ cup_ok)
      → FileOutcome a mode writer file (after_writing a mode executable writer file e)
  unfolding after_writing
  writing-outcome executable cup_ok w = finish-outcome a.move (mode_admits mode file) refl (w refl)
  writing-outcome executable _ w = untouched (λ q. ground arith) refl

  creating-outcome :
      (executable : Bool) (e : CupError)
      → FileOutcome a mode writer file (after_creating a mode executable writer file e)
  unfolding after_creating
  creating-outcome executable cup_ok =
      writing-outcome executable (write_temporary a executable writer.0)
        (write_temporary-writer a executable writer.0)
  creating-outcome executable _ = untouched (λ q. ground arith) refl

  -- What `path_parent` answers never is an error CUP_OK.
  parent-outcome :
      (executable : Bool) (directory : Text) (r : Result Text)
      → r ≢ err cup_ok
      → FileOutcome a mode writer file (elim r as (λ _. CupError × StoredFile) [
        | err e ↦ (e, file)
        | ok parent ↦
            if path_equal parent directory
            then after_creating a mode executable writer file a.temporary_created
            else (invalid_input, file)
      ])
  parent-outcome executable directory (err e) h = untouched (λ q. h (ap err q)) refl
  parent-outcome executable directory (ok parent) h =
      elim (Bool-cases (path_equal parent directory)) [
        | inl same ↦ rw same (creating-outcome executable a.temporary_created)
        | inr other ↦ rw other (untouched (λ q. ground arith) refl)
      ]

path_parent-ne_ok : (size : ℕ) (path : Text) → path_parent size path ≢ err cup_ok
unfolding path_parent path_normalize text_copy
path_parent-ne_ok size path h = ground arith

-- publish_file, whatever the system calls answer: either the answer is CUP_OK or CUP_ERR_COMMIT,
-- the writer succeeded, the file that stood there was one that the mode may replace, and the new
-- bytes stand there whole; or the answer is an error, which may be CUP_ERR_COMMIT too, and the
-- file is as it was.
pub publish_file-outcome :
    (a : PublishFileAnswers) (mode : PublicationMode) (executable : Bool) (writer : CupError × Text)
    (file : StoredFile) (directory prefix destination : Text)
    → FileOutcome a mode writer file
        (publish_file a mode executable writer file directory prefix destination)
unfolding publish_file
publish_file-outcome a mode executable writer file directory prefix destination =
    elim (Bool-cases
      (is_nil directory || is_nil prefix || is_nil destination || not (mode_is_usable mode))) [
        | inl refused ↦ rw refused (untouched (λ q. ground arith) refl)
        | inr fine ↦ rw fine (
            parent-outcome a mode writer file executable directory
              (path_parent max_path_len destination) (path_parent-ne_ok max_path_len destination))
      ]
