-- ===== src/Journal/Published.antt =====
-- How a publication of transaction.txt ends (src/runtime_journal.c).
use cup.Base.{
  Bool, true, false, not, ◌&&◌, ◌||◌, Option, none, some, ◌≡◌, refl, ap, ◌⊎◌, inl, inr, arith, Text,
  is_nil, if◌then◌else◌, ==_iff, Bool-cases,
}
use cup.Errors.{cup_ok, Result, ok, err, transaction, commit}
use cup.System.{
  SystemPathIdentity, SystemPathKind, missing, regular_file, directory, link, other, same_kind,
  system_path_identity_equal, MoveAnswer, moved, applied, reverted, not_applied, file_after_move,
}
use cup.System.{is_regular, move_admitted}
use cup.Journal.Publish.{
  JournalFile, PublishAnswers, Published, read_back, finish_publish, is_replacement, move_journal,
  expected_is_usable, runtime_journal_publish_at,
}

-- What a publication leaves: the new file whole with CUP_OK and its identity, or whole with
-- CUP_ERR_COMMIT; no file with CUP_ERR_COMMIT, where none was; or the file as it was.
pub data PublishOutcome (expected : Option SystemPathIdentity) (bytes : Text) (before : JournalFile)
    (r : Published) : Type 0 where
  done :
      (identity : SystemPathIdentity)
      → is_regular identity ≡ true
      → move_admitted expected before ≡ true
      → r ≡ (cup_ok, some identity, some (bytes, identity))
      → PublishOutcome expected bytes before r
  unconfirmed :
      (identity : SystemPathIdentity) (known : Option SystemPathIdentity)
      → is_regular identity ≡ true
      → move_admitted expected before ≡ true
      → (known ≡ none) ⊎ (known ≡ some identity)
      → r ≡ (commit, known, some (bytes, identity))
      → PublishOutcome expected bytes before r
  withdrawn :
      expected ≡ none
      → before ≡ none
      → r ≡ (commit, none, none)
      → PublishOutcome expected bytes before r
  unchanged : r ≡ (transaction, none, before) → PublishOutcome expected bytes before r

same_kind-eq : (a b : SystemPathKind) → same_kind a b ≡ true → a ≡ b
unfolding same_kind
same_kind-eq missing missing h = refl
same_kind-eq regular_file regular_file h = refl
same_kind-eq directory directory h = refl
same_kind-eq link link h = refl
same_kind-eq other other h = refl
same_kind-eq _ _ h = ground arith

pub system_path_identity_equal-eq :
    (a b : SystemPathIdentity) → system_path_identity_equal a b ≡ true → a ≡ b
unfolding system_path_identity_equal
system_path_identity_equal-eq a b h = ground (
  arith,
  ==_iff a.volume b.volume,
  ==_iff a.object b.object,
  ==_iff a.object_high b.object_high,
  same_kind-eq a.kind b.kind,
)

read_back-known :
    (b : Bool) (bytes : Text) (source : SystemPathIdentity)
    → (read_back b (some (bytes, source)) source ≡ none)
      ⊎ (read_back b (some (bytes, source)) source ≡ some source)
unfolding read_back
read_back-known false bytes source = inl refl
read_back-known true bytes source = ground arith

read_back-missing : (b : Bool) (source : SystemPathIdentity) → read_back b none source ≡ none
unfolding read_back
read_back-missing false source = refl
read_back-missing true source = refl

moved-outcome :
    (expected : Option SystemPathIdentity) (bytes : Text) (file : JournalFile)
    (known : Option SystemPathIdentity) (source : SystemPathIdentity)
    → is_regular source ≡ true
    → move_admitted expected file ≡ true
    → (known ≡ none) ⊎ (known ≡ some source)
    → PublishOutcome expected bytes file (finish_publish moved known (some (bytes, source)))
unfolding finish_publish
moved-outcome expected bytes file none source g m k = unconfirmed source none g m k refl
moved-outcome expected bytes file (some d) source g m (inl k) = absurd (ground (arith, k))
moved-outcome expected bytes file (some d) source g m (inr k) =
    done source g m (ap (λ o. (cup_ok, o, some (bytes, source))) k)

finish-outcome :
    (expected : Option SystemPathIdentity) (bytes : Text) (file : JournalFile) (b : Bool)
    (move : MoveAnswer) (source : SystemPathIdentity)
    → is_regular source ≡ true
    → move_admitted expected file ≡ true
    → PublishOutcome expected bytes file (
        finish_publish move
          (read_back b
            (file_after_move move (is_replacement expected) file (some (bytes, source)))
            source)
          (file_after_move move (is_replacement expected) file (some (bytes, source))))
unfolding finish_publish file_after_move is_replacement move_admitted
finish-outcome expected bytes file b (not_applied e) source g m = unchanged refl
finish-outcome expected bytes file b (applied e) source g m =
    unconfirmed source (read_back b (some (bytes, source)) source) g m
      (read_back-known b bytes source) refl
finish-outcome (some x) bytes file b reverted source g m =
    unconfirmed source (read_back b (some (bytes, source)) source) g m
      (read_back-known b bytes source) refl
finish-outcome none bytes none b reverted source g m =
    withdrawn refl refl (ap (λ o. (commit, o, none)) (read_back-missing b source))
finish-outcome none bytes (some x) b reverted source g m = absurd (ground (arith, m))
finish-outcome expected bytes file b moved source g m =
    moved-outcome expected bytes file (read_back b (some (bytes, source)) source) source g m
      (read_back-known b bytes source)

module _ (expected : Option SystemPathIdentity) (bytes : Text) (file : JournalFile) where
  move-outcome :
      (a : PublishAnswers) (source : SystemPathIdentity)
      → is_regular source ≡ true
      → PublishOutcome expected bytes file (move_journal a expected bytes source file)
  unfolding move_journal
  move-outcome a source g = elim (Bool-cases (move_admitted expected file)) [
    | inr refused ↦ unchanged (rw refused refl)
    | inl admitted ↦
        rw admitted (finish-outcome expected bytes file a.destination_read a.move source g admitted)
  ]

  source-outcome :
      (a : PublishAnswers) (r : Result SystemPathIdentity)
      → PublishOutcome expected bytes file (elim r [
        | err _ ↦ (transaction, none, file)
        | ok source ↦
            if is_regular source
            then move_journal a expected bytes source file
            else (transaction, none, file)
      ])
  source-outcome a (err e) = unchanged refl
  source-outcome a (ok source) = elim (Bool-cases (is_regular source)) [
    | inr odd ↦ unchanged (rw odd refl)
    | inl good ↦ rw good (move-outcome a source good)
  ]

  -- runtime_journal_publish_at, whatever the system calls answer, ends in one of four ways:
  -- with CUP_OK the new bytes stand whole in the place of the file that was expected, under
  -- the published identity, a regular file's; with CUP_ERR_COMMIT they stand there whole, and
  -- an identity that is published is theirs; with CUP_ERR_COMMIT and no published identity
  -- there is no file, where none was expected and none was there; with CUP_ERR_TRANSACTION the
  -- file is as it was.
  pub publish-outcome :
      (a : PublishAnswers) (root parent prefix : Text)
      → PublishOutcome expected bytes file
          (runtime_journal_publish_at a root parent prefix expected bytes file)
  unfolding runtime_journal_publish_at
  publish-outcome a root parent prefix =
      elim (Bool-cases (
        is_nil root
        || is_nil parent
        || is_nil prefix
        || not (expected_is_usable expected)
        || not a.path_built
        || not a.temporary_created
        || not (a.written && a.synced && a.closed))) [
          | inl refused ↦ unchanged (rw refused refl)
          | inr fine ↦ rw fine (source-outcome a a.source)
        ]
