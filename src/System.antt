-- ===== src/System.antt =====
-- include/system.h: what stands at a path, and the identity of the object there.
use cup.Base.{ℕ, Bool, true, false, ◌&&◌, ◌==◌, Option, none, some, Text}
use cup.Errors.{CupError}

pub data SystemPathKind : Type 0 where
  missing regular_file directory link other : SystemPathKind

pub record SystemPathIdentity : Type 0 where
  pub volume : ℕ
  pub object : ℕ
  pub object_high : ℕ
  pub kind : SystemPathKind
  pub valid : Bool

-- All bytes zero.
abbrev pub no_identity : SystemPathIdentity
no_identity = record { volume = 0; object = 0; object_high = 0; kind = missing; valid = false }

unfoldable pub same_kind : SystemPathKind → SystemPathKind → Bool
same_kind missing missing = true
same_kind regular_file regular_file = true
same_kind directory directory = true
same_kind link link = true
same_kind other other = true
same_kind _ _ = false

unfoldable pub system_path_identity_equal : SystemPathIdentity → SystemPathIdentity → Bool
unfolding same_kind
system_path_identity_equal left right =
    left.valid
    && right.valid
    && left.volume == right.volume
    && left.object == right.object
    && left.object_high == right.object_high
    && same_kind left.kind right.kind

-- How a move ends, in the error and the `SystemCommitState`. It is done and durable; it is visible
-- but not durable; its destination could not be examined, so that a move that does not replace is
-- renamed back, the sync of which fails, while one that replaces stays visible; or it is not
-- applied. All but the first and the last are SYSTEM_COMMIT_APPLIED. No other process changes the
-- two paths meanwhile.
pub data MoveAnswer : Type 0 where
  moved : MoveAnswer
  applied : CupError → MoveAnswer
  reverted : MoveAnswer
  not_applied : CupError → MoveAnswer

-- The bytes of the file and its identity; `none` where there is no file.
abbrev pub StoredFile : Type 0
StoredFile = Option (Text × SystemPathIdentity)

-- `kind == SYSTEM_PATH_REGULAR_FILE` of a valid identity.
unfoldable pub is_regular : SystemPathIdentity → Bool
unfolding same_kind
is_regular identity = identity.valid && same_kind identity.kind regular_file

-- Whether the move may be applied: `system_move_path` does not replace, and
-- `system_replace_file_if_identity` replaces only the file that is expected.
unfoldable pub move_admitted : Option SystemPathIdentity → StoredFile → Bool
move_admitted none none = true
move_admitted none (some _) = false
move_admitted (some expected) none = false
move_admitted (some expected) (some (bytes, identity)) =
    system_path_identity_equal identity expected

-- What stands at the destination behind a move that is admitted; `replaces` is that of
-- `move_path_common`.
unfoldable pub file_after_move : MoveAnswer → Bool → StoredFile → StoredFile → StoredFile
file_after_move moved replaces before new = new
file_after_move (applied e) replaces before new = new
file_after_move reverted true before new = new
file_after_move reverted false before new = before
file_after_move (not_applied e) replaces before new = before
