-- ===== src/Transaction/Safety.antt =====
-- Lemmas on the steps of a recovery, however the system calls end (src/package_transaction.c).
use cup.Base.{Bool, true, false, ◌≡◌, refl, ◌∙◌, ◌≢◌, ◌⊎◌, inl, inr, arith, Bool-cases}
use cup.Errors.{CupError, cup_ok, Result, ok, err, transaction}
use cup.Package.{PackageIdentity}
use cup.Transaction.Recover.{
  PathNode, absent, file, folder, exists, Disk, Answers, inspect_package_validity,
  move_staged_package, remove_staged_path, remove_installed_path, preserve_invalid_install,
  recover_installed_package, recover_absent_package, after_preserve, move_after_preserve,
  after_removal,
}

pub Verdict-cases :
    (r : Result Bool) → (r ≡ ok true) ⊎ ((r ≡ ok false) ⊎ ((e : CupError) × (r ≡ err e)))
Verdict-cases (ok true) = inl refl
Verdict-cases (ok false) = inr (inl refl)
Verdict-cases (err e) = inr (inr (e, refl))

module _ {T : Type 0} (integrity : T → PackageIdentity → CupError) (id : PackageIdentity) where
  -- The node is a directory that passes `package_validate_integrity` for the identity.
  abbrev pub IsGood : PathNode T → Type 0
  IsGood node = inspect_package_validity integrity node id ≡ ok true

  abbrev pub Holds : Disk T → Type 0
  Holds d = IsGood d.installed ⊎ IsGood d.staged

-- Nothing, a regular file or a directory: what the recovery can move out of the way.
abbrev pub Plain : {T : Type 0} → PathNode T → Type 0
Plain absent = Unit
Plain file = Unit
Plain (folder t) = Unit
Plain _ = ⊥

IsGood-Plain :
    {T : Type 0} (integrity : T → PackageIdentity → CupError) (id : PackageIdentity)
    (node : PathNode T)
    → IsGood integrity id node
    → Plain node
unfolding inspect_package_validity
IsGood-Plain integrity id (folder t) h = tt
IsGood-Plain integrity id _ h = absurd (ground arith)

module _ {T : Type 0} (a : Answers T) where
  remove_staged_path-same :
      (d : Disk T)
      → ((remove_staged_path a d).1.installed ≡ d.installed)
        × ((remove_staged_path a d).1.journal ≡ d.journal)
  unfolding remove_staged_path
  remove_staged_path-same d = ground arith

  remove_staged_path-ok :
      (d : Disk T)
      → (remove_staged_path a d).0 ≡ cup_ok
      → (remove_staged_path a d).1.staged ≡ absent
  unfolding remove_staged_path
  remove_staged_path-ok d h = ground arith

  preserve-same :
      (d : Disk T)
      → ((preserve_invalid_install a d).1.staged ≡ d.staged)
        × ((preserve_invalid_install a d).1.journal ≡ d.journal)
  unfolding preserve_invalid_install
  preserve-same d = ground arith

  preserve-installed :
      (d : Disk T)
      → ((preserve_invalid_install a d).1.installed ≡ absent)
        ⊎ ((preserve_invalid_install a d).1.installed ≡ d.installed)
  unfolding preserve_invalid_install
  preserve-installed d = ground arith

  preserve-Plain :
      (d : Disk T) → Plain d.installed → Plain (preserve_invalid_install a d).1.installed
  preserve-Plain d h = elim (preserve-installed d) [ inl e ↦ rw e tt | inr e ↦ rw e h ]

  -- A refusal has changed nothing.
  preserve-refused :
      (d : Disk T)
      → (preserve_invalid_install a d).0 ≡ transaction
      → (preserve_invalid_install a d).1 ≡ d
  unfolding preserve_invalid_install
  preserve-refused d h = ground (arith, h)

  move-refused :
      (d : Disk T) → (move_staged_package a d).0 ≡ transaction → (move_staged_package a d).1 ≡ d
  unfolding move_staged_package
  move-refused d h = ground (arith, h)

  remove_staged_path-not_refused : (d : Disk T) → (remove_staged_path a d).0 ≢ transaction
  unfolding remove_staged_path
  remove_staged_path-not_refused d h = ground (arith, h)

  -- A move leaves the staged node in one of the two places.
  move-places :
      (d : Disk T)
      → (((move_staged_package a d).1.installed ≡ d.staged)
            × ((move_staged_package a d).1.staged ≡ absent)
          ⊎ ((move_staged_package a d).1 ≡ d) × ((move_staged_package a d).0 ≢ cup_ok))
  unfolding move_staged_package
  move-places d = ground arith

  move-journal : (d : Disk T) → (move_staged_package a d).1.journal ≡ d.journal
  unfolding move_staged_package
  move-journal d = ground arith

  remove_installed_path-same :
      (d : Disk T)
      → ((remove_installed_path a d).1.staged ≡ d.staged)
        × ((remove_installed_path a d).1.journal ≡ d.journal)
  unfolding remove_installed_path
  remove_installed_path-same d = ground arith

  remove_installed_path-ok :
      (d : Disk T)
      → (remove_installed_path a d).0 ≡ cup_ok
      → (remove_installed_path a d).1.installed ≡ absent
  unfolding remove_installed_path
  remove_installed_path-ok d h = ground arith

  -- `recover_absent_package` leaves the journal, and success leaves neither path.
  pub absent-journal : (d : Disk T) → (recover_absent_package a d).1.journal ≡ d.journal
  unfolding recover_absent_package after_removal
  absent-journal d =
      ground
        (arith, remove_installed_path-same d, remove_staged_path-same (remove_installed_path a d).1)

  pub absent-ok :
      (d : Disk T)
      → (recover_absent_package a d).0 ≡ cup_ok
      → ((recover_absent_package a d).1.installed ≡ absent)
        × ((recover_absent_package a d).1.staged ≡ absent)
  unfolding recover_absent_package after_removal
  absent-ok d h = ground (
    arith,
    remove_installed_path-ok d,
    remove_staged_path-ok (remove_installed_path a d).1,
    remove_staged_path-same (remove_installed_path a d).1,
  )

  pub absent-not_refused : (d : Disk T) → (recover_absent_package a d).0 ≢ transaction
  unfolding recover_absent_package after_removal remove_installed_path
  absent-not_refused d h =
      ground (arith, h, remove_staged_path-not_refused (remove_installed_path a d).1)

  move_after_preserve-not_refused :
      (r : CupError × Disk T) → (move_after_preserve a r).0 ≢ transaction
  unfolding move_after_preserve
  move_after_preserve-not_refused (transaction, d) h = cc
  move_after_preserve-not_refused (_, d) h = cc

  move_after_preserve-same :
      (r : CupError × Disk T)
      → ((move_after_preserve a r).1 ≡ r.1) × ((move_after_preserve a r).0 ≡ cup_ok → r.0 ≡ cup_ok)
  unfolding move_after_preserve
  move_after_preserve-same (transaction, d) = (refl, λ h. cc)
  move_after_preserve-same (_, d) = (refl, λ h. h)

module _ {T : Type 0} (integrity : T → PackageIdentity → CupError) (id : PackageIdentity)
    (a : Answers T) where
  -- What is known of a recovery that began at `d`.
  pub record Kept (d : Disk T) (r : CupError × Disk T) : Type 0 where
    pub holds : Holds integrity id d → Holds integrity id r.1
    pub plain : Plain d.installed → Plain r.1.installed
    pub journal : r.1.journal ≡ d.journal
    pub done : r.0 ≡ cup_ok → IsGood integrity id r.1.installed × (r.1.staged ≡ absent)
    pub refused : r.0 ≡ transaction → r.1 ≡ d

  move-Kept : (d : Disk T) → IsGood integrity id d.staged → Kept d (move_staged_package a d)
  move-Kept d good = record {
    holds = λ _. elim (move-places a d) [ inl p ↦ inl (rw p.0 good) | inr p ↦ inr (rw p.0 good) ];
    plain = λ h. elim (move-places a d) [
      | inl p ↦ rw p.0 (IsGood-Plain integrity id d.staged good)
      | inr p ↦ rw p.0 h
    ];
    journal = move-journal a d;
    done = λ h. elim (move-places a d) [ inl p ↦ (rw p.0 good, p.1) | inr p ↦ absurd (p.1 h) ];
    refused = move-refused a d;
  }

  preserved-Kept :
      (d : Disk T) (r : CupError × Disk T)
      → IsGood integrity id r.1.staged
      → r.1.journal ≡ d.journal
      → (Plain d.installed → Plain r.1.installed)
      → (r.0 ≡ transaction → r.1 ≡ d)
      → Kept d (after_preserve a r)
  unfolding after_preserve
  preserved-Kept d (cup_ok, d') good same fine none_changed =
      let k = move-Kept d' good in
      let m = move_after_preserve-same a (move_staged_package a d') in
      record {
        holds = λ _. rw m.0 (k.holds (inr good));
        plain = λ h. rw m.0 (k.plain (fine h));
        journal = rw m.0 (k.journal ∙ same);
        done = λ h. rw m.0 (k.done (m.1 h));
        refused = λ h. absurd (move_after_preserve-not_refused a (move_staged_package a d') h);
      }
  preserved-Kept d (_, d') good same fine none_changed = record {
    holds = λ _. inr good;
    plain = fine;
    journal = same;
    done = λ h. cc;
    refused = none_changed;
  }

  pub installed-Kept :
      (d : Disk T) (install_valid staged_valid : Bool)
      → inspect_package_validity integrity d.installed id ≡ ok install_valid
      → inspect_package_validity integrity d.staged id ≡ ok staged_valid
      → Kept d (recover_installed_package a install_valid staged_valid d)
  unfolding recover_installed_package
  installed-Kept d true staged_valid hi hs =
      let same = remove_staged_path-same a d in
      record {
        holds = λ _. inl (rw same.0 hi);
        plain = λ h. rw same.0 h;
        journal = same.1;
        done = λ h. (rw same.0 hi, remove_staged_path-ok a d h);
        refused = λ h. absurd (remove_staged_path-not_refused a d h);
      }
  installed-Kept d false false hi hs = record {
    holds = λ h. h;
    plain = λ h. h;
    journal = refl;
    done = λ h. cc;
    refused = λ h. refl;
  }
  installed-Kept d false true hi hs = elim (Bool-cases (exists d.installed)) [
    | inl there ↦ rw there (
        preserved-Kept d (preserve_invalid_install a d) (rw (preserve-same a d).0 hs)
          (preserve-same a d).1 (preserve-Plain a d) (preserve-refused a d))
    | inr missing ↦ rw missing (move-Kept d hs)
  ]
