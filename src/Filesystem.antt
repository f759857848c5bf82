-- ===== src/Filesystem.antt =====
-- src/filesystem.c: reading a file whole, and publishing one. A file at a path is a `StoredFile`;
-- `ReadAnswers` and `PublishFileAnswers` say how each system call ends.
pub mod Publish
use cup.Base.{
  ℕ, Bool, true, false, not, ◌&&◌, ◌||◌, Option, none, some, ltb, leb, ◌==◌, if◌then◌else◌, length,
  is_nil, Text,
}
use cup.Errors.{
  CupError, cup_ok, Result, ok, err, invalid_input, filesystem, temporary, buffer_too_small, commit,
}
use cup.Path.{max_path_len, path_parent, path_equal}
use cup.System.{
  SystemPathIdentity, regular_file, same_kind, StoredFile, is_regular, move_admitted, MoveAnswer,
  moved, applied, reverted, not_applied, file_after_move,
}

pub record ReadAnswers : Type 0 where
  pub opened : CupError
  pub allocated : Bool
  pub read_whole : Bool
  pub file_closed : Bool

-- `PersistentFileSnapshot`; `none` is a missing file.
unfoldable pub filesystem_snapshot_read : ReadAnswers → Text → ℕ → StoredFile → Result StoredFile
filesystem_snapshot_read a path maximum_bytes file =
    if is_nil path || maximum_bytes == 0 then err invalid_input else elim a.opened [
      | cup_ok ↦ elim file [
        | none ↦ ok none
        | some (bytes, identity) ↦
            if ltb maximum_bytes (length bytes)
            then err (if a.file_closed then buffer_too_small else filesystem)
            else if not a.allocated
            then err (if a.file_closed then temporary else filesystem)
            else if a.read_whole && a.file_closed
            then ok (some (bytes, identity))
            else err filesystem
      ]
      | e ↦ err e
    ]

pub record PublishFileAnswers : Type 0 where
  pub temporary_created : CupError
  pub written : CupError
  pub made_executable : CupError
  pub synced : CupError
  pub closed : Bool
  pub new_identity : SystemPathIdentity
  pub move : MoveAnswer

-- `FilesystemPublicationMode`, with the identity that a replacement expects.
pub data PublicationMode : Type 0 where
  create replace : PublicationMode
  replace_if_identity : SystemPathIdentity → PublicationMode

unfoldable pub mode_is_usable : PublicationMode → Bool
unfolding is_regular
mode_is_usable create = true
mode_is_usable replace = true
mode_is_usable (replace_if_identity expected) = is_regular expected

-- Whether the file system lets the move be applied.
unfoldable pub mode_admits : PublicationMode → StoredFile → Bool
unfolding move_admitted same_kind
mode_admits create file = move_admitted none file
mode_admits replace none = true
mode_admits replace (some (bytes, identity)) = same_kind identity.kind regular_file
mode_admits (replace_if_identity expected) file = move_admitted (some expected) file

-- The steps on the open temporary file: the first error counts.
unfoldable pub write_temporary : PublishFileAnswers → Bool → CupError → CupError
write_temporary a executable e = elim e [
  | cup_ok ↦ elim (if executable then a.made_executable else cup_ok) [
    | cup_ok ↦ elim a.synced [ cup_ok ↦ if a.closed then cup_ok else filesystem | failed ↦ failed ]
    | failed ↦ failed
  ]
  | failed ↦ failed
]

unfoldable pub mode_replaces : PublicationMode → Bool
mode_replaces create = false
mode_replaces replace = true
mode_replaces (replace_if_identity expected) = true

-- `after` is what stands at the destination behind a move that is admitted.
unfoldable pub finish_file : MoveAnswer → Bool → StoredFile → StoredFile → CupError × StoredFile
finish_file moved true before after = (cup_ok, after)
finish_file (applied e) true before after = (commit, after)
finish_file reverted true before after = (commit, after)
finish_file (not_applied cup_ok) true before after = (filesystem, after)
finish_file (not_applied e) true before after = (e, after)
finish_file (not_applied cup_ok) false before after = (filesystem, before)
finish_file (not_applied e) false before after = (e, before)
finish_file _ false before after = (filesystem, before)

-- `writer` is what the writer returns and the bytes that it prints.
module _ (a : PublishFileAnswers) (mode : PublicationMode) (executable : Bool)
    (writer : CupError × Text) (file : StoredFile) where
  -- What follows the writing, by the error of it.
  unfoldable pub after_writing : CupError → CupError × StoredFile
  unfolding mode_replaces file_after_move
  after_writing cup_ok =
      finish_file a.move (mode_admits mode file) file
        (file_after_move a.move (mode_replaces mode) file (some (writer.1, a.new_identity)))
  after_writing e = (e, file)

  -- What follows `system_create_temp_file`, by its error.
  unfoldable pub after_creating : CupError → CupError × StoredFile
  unfolding after_writing
  after_creating cup_ok = after_writing (write_temporary a executable writer.0)
  after_creating e = (e, file)

  unfoldable pub publish_file : Text → Text → Text → CupError × StoredFile
  unfolding mode_is_usable mode_admits write_temporary finish_file after_creating
  publish_file directory temporary_prefix destination =
      if is_nil directory
        || is_nil temporary_prefix
        || is_nil destination
        || not (mode_is_usable mode)
      then (invalid_input, file)
      else elim (path_parent max_path_len destination) [
        | err e ↦ (e, file)
        | ok parent ↦
            if path_equal parent directory
            then after_creating a.temporary_created
            else (invalid_input, file)
      ]

module _ (a : PublishFileAnswers) (directory temporary_prefix destination : Text) where
  unfoldable pub filesystem_publish_new_file :
      Bool → CupError × Text → StoredFile → CupError × StoredFile
  unfolding publish_file
  filesystem_publish_new_file executable writer file =
      publish_file a create executable writer file directory temporary_prefix destination

  unfoldable pub filesystem_replace_file_atomically :
      Bool → CupError × Text → StoredFile → CupError × StoredFile
  unfolding publish_file
  filesystem_replace_file_atomically executable writer file =
      publish_file a replace executable writer file directory temporary_prefix destination

  unfoldable pub filesystem_replace_file_if_identity :
      SystemPathIdentity → Bool → CupError × Text → StoredFile → CupError × StoredFile
  unfolding publish_file
  filesystem_replace_file_if_identity expected executable writer file =
      publish_file a (replace_if_identity expected) executable writer file directory
        temporary_prefix destination
