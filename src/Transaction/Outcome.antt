-- ===== src/Transaction/Outcome.antt =====
-- What `package_transaction_recover` leaves on the disk (src/package_transaction.c).
use cup.Base.{ℕ, Bool, true, false, some, ◌≡◌, refl, ap, ◌∙◌, ◌≢◌, ◌⊎◌, inl, inr, arith}
use cup.Errors.{CupError, cup_ok, ok, err, transaction, validation}
use cup.Package.{PackageIdentity}
use cup.State.{CupState, state_find_installed}
use cup.Transaction.{PackageTransaction}
use cup.Transaction.Recover.{
  PathNode, absent, folder, judge, Disk, Answers, inspect_package_validity, recover_absent_package,
  clear_journal, then_clear, recover_paths, inspect_and_recover, package_transaction_recover,
  is_some,
}
use cup.Transaction.Safety.{
  Plain, IsGood, Holds, Kept, installed-Kept, absent-journal, absent-ok, absent-not_refused,
  Verdict-cases,
}

module _ {T : Type 0} (integrity : T → PackageIdentity → CupError) where
  -- What a finished recovery leaves, as the state decides: the valid package alone, or nothing.
  abbrev pub Settled : PackageIdentity → Bool → Disk T → Type 0
  Settled id true d = IsGood integrity id d.installed × (d.staged ≡ absent)
  Settled id false d = (d.installed ≡ absent) × (d.staged ≡ absent)

  -- Clearing touches the journal alone, and only a success before it gets there.
  record Cleared (r q : CupError × Disk T) : Type 0 where
    installed : q.1.installed ≡ r.1.installed
    staged : q.1.staged ≡ r.1.staged
    cleared : q.1.journal ≡ false → r.1.journal ≡ true → r.0 ≡ cup_ok
    ended : q.0 ≡ cup_ok → q.1.journal ≡ false
    refused : q.0 ≡ transaction → (q.1 ≡ r.1) × ((r.0 ≡ cup_ok) ⊎ (r.0 ≡ transaction))

  then_clear-Cleared : (a : Answers T) (r : CupError × Disk T) → Cleared r (then_clear a r)
  unfolding then_clear clear_journal
  then_clear-Cleared a (cup_ok, d) = record {
    installed = ground arith;
    staged = ground arith;
    cleared = λ _ _. refl;
    ended = λ h. ground arith;
    refused = λ h. (ground (arith, h), inl refl);
  }
  then_clear-Cleared a (_, d) = record {
    installed = refl;
    staged = refl;
    cleared = λ h k. ground arith;
    ended = λ h. cc;
    refused = λ h. (refl, inr h);
  }

  -- All that the later theorems need of one recovery.
  pub record Outcome (is_installed : Bool) (id : PackageIdentity) (d : Disk T)
      (q : CupError × Disk T) : Type 0 where
    pub keeps : is_installed ≡ true → Holds integrity id d → Holds integrity id q.1
    pub plain : is_installed ≡ true → Plain d.installed → Plain q.1.installed
    pub settles : d.journal ≡ true → q.1.journal ≡ false → Settled id is_installed q.1
    pub ended : q.0 ≡ cup_ok → q.1.journal ≡ false
    pub refused :
        q.0 ≡ transaction → (q.1 ≡ d) ⊎ (Settled id is_installed q.1 × (q.1.journal ≡ d.journal))

  unchanged-Outcome :
      (b : Bool) (id : PackageIdentity) (d : Disk T) (e : CupError)
      → e ≢ cup_ok
      → Outcome b id d (e, d)
  unchanged-Outcome b id d e ne = record {
    keeps = λ _ h. h;
    plain = λ _ h. h;
    settles = λ h k. absurd (ground arith);
    ended = λ h. absurd (ne h);
    refused = λ h. inl refl;
  }

  installed-Outcome :
      (a : Answers T) (id : PackageIdentity) (d : Disk T) (r : CupError × Disk T)
      → Kept integrity id a d r
      → Outcome true id d (then_clear a r)
  installed-Outcome a id d r k =
      let c = then_clear-Cleared a r in
      record {
        keeps = λ _ h. rw (c.installed, c.staged) (k.holds h);
        plain = λ _ h. rw c.installed (k.plain h);
        settles = λ h j. rw (c.installed, c.staged) (k.done (c.cleared j (k.journal ∙ h)));
        ended = c.ended;
        refused = λ h. elim (c.refused h).1 [
          | inl fine ↦ inr (
            rw (c.installed, c.staged) (k.done fine),
            ap (λ e. e.journal) (c.refused h).0 ∙ k.journal,
          )
          | inr failed ↦ inl ((c.refused h).0 ∙ k.refused failed)
        ];
      }

  absent-Outcome :
      (a : Answers T) (id : PackageIdentity) (d : Disk T)
      → Outcome false id d (then_clear a (recover_absent_package a d))
  absent-Outcome a id d =
      let c = then_clear-Cleared a (recover_absent_package a d) in
      record {
        keeps = λ e h. cc;
        plain = λ e h. cc;
        settles = λ h j.
            rw (c.installed, c.staged) (absent-ok a d (c.cleared j (absent-journal a d ∙ h)));
        ended = c.ended;
        refused = λ h. elim (c.refused h).1 [
          | inl fine ↦ inr (
            rw (c.installed, c.staged) (absent-ok a d fine),
            ap (λ e. e.journal) (c.refused h).0 ∙ absent-journal a d,
          )
          | inr failed ↦ absurd (absent-not_refused a d failed)
        ];
      }

  judge-eq_err : (v : CupError) {e : CupError} → judge integrity v ≡ err e → e ≢ cup_ok
  unfolding judge
  judge-eq_err cup_ok h p = cc
  judge-eq_err validation h p = cc
  judge-eq_err _ h p = cc

  inspect-eq_err :
      (node : PathNode T) (id : PackageIdentity) {e : CupError}
      → inspect_package_validity integrity node id ≡ err e
      → e ≢ cup_ok
  unfolding inspect_package_validity
  inspect-eq_err (folder t) id h = judge-eq_err (integrity t id) h
  inspect-eq_err _ id h = λ p. cc

  inspected :
      (a : Answers T) (install_valid : Bool) (id : PackageIdentity) (d : Disk T)
      → inspect_package_validity integrity d.installed id ≡ ok install_valid
      → Outcome true id d (inspect_and_recover integrity a true id d)
  unfolding inspect_and_recover recover_paths
  inspected a v id d hi = elim (Verdict-cases (inspect_package_validity integrity d.staged id)) [
    | inl hs ↦
        rw (hi, hs, inspect_and_recover)
          (installed-Outcome a id d _ (installed-Kept integrity id a d v true hi hs))
    | inr (inl hs) ↦
        rw (hi, hs, inspect_and_recover)
          (installed-Outcome a id d _ (installed-Kept integrity id a d v false hi hs))
    | inr (inr (e, unknown)) ↦
        rw (hi, unknown, inspect_and_recover)
          (unchanged-Outcome true id d e (inspect-eq_err d.staged id unknown))
  ]

  inspect-Outcome :
      (a : Answers T) (b : Bool) (id : PackageIdentity) (d : Disk T)
      → Outcome b id d (inspect_and_recover integrity a b id d)
  unfolding inspect_and_recover recover_paths
  inspect-Outcome a false id d = absent-Outcome a id d
  inspect-Outcome a true id d =
      elim (Verdict-cases (inspect_package_validity integrity d.installed id)) [
        | inl good ↦ inspected a true id d good
        | inr (inl bad) ↦ inspected a false id d bad
        | inr (inr (e, unknown)) ↦
            rw (unknown, inspect_and_recover)
              (unchanged-Outcome true id d e (inspect-eq_err d.installed id unknown))
      ]

  -- The answer of the whole function is that of the recovery, or a refusal that changes nothing.
  recover-cases :
      (a : Answers T) (t : PackageTransaction) (state : CupState) (d : Disk T)
      → (package_transaction_recover integrity a t state d ≡ (transaction, d))
        ⊎ (package_transaction_recover integrity a t state d
            ≡ inspect_and_recover integrity a
                (is_some integrity (state_find_installed state t.identity))
                t.identity
                d)
  unfolding package_transaction_recover
  recover-cases a t state d = ground arith

  pub recover-Outcome :
      (a : Answers T) (t : PackageTransaction) (state : CupState) (d : Disk T)
      → Outcome
          (is_some integrity (state_find_installed state t.identity))
          t.identity
          d
          (package_transaction_recover integrity a t state d)
  recover-Outcome a t state d = elim (recover-cases a t state d) [
    | inl e ↦ rw e (unchanged-Outcome _ t.identity d transaction (λ p. cc))
    | inr e ↦ rw e (inspect-Outcome a _ t.identity d)
  ]

  -- Whatever the system calls answer: if the state holds the transaction's identity and a
  -- directory that passes the integrity check stands at the install path or at the staged path
  -- before package_transaction_recover, one stands at one of them afterwards.
  pub recover-keeps_package :
      (a : Answers T) (t : PackageTransaction) (state : CupState) (d : Disk T) {i : ℕ}
      → state_find_installed state t.identity ≡ some i
      → Holds integrity t.identity d
      → Holds integrity t.identity (package_transaction_recover integrity a t state d).1
  unfolding is_some
  recover-keeps_package a t state d found h =
      (recover-Outcome a t state d).keeps (rw (found, is_some)) h

  -- If the journal is there before package_transaction_recover and gone after it, whatever it
  -- answers, then the disk is as the state decides: where the state holds the identity, a
  -- package that passes the integrity check stands at the install path and nothing is staged;
  -- otherwise both paths are missing.
  pub recover-settles :
      (a : Answers T) (t : PackageTransaction) (state : CupState) (d : Disk T)
      → d.journal ≡ true
      → (package_transaction_recover integrity a t state d).1.journal ≡ false
      → Settled t.identity
          (is_some integrity (state_find_installed state t.identity))
          (package_transaction_recover integrity a t state d).1
  recover-settles a t state d h j = (recover-Outcome a t state d).settles h j

  -- If the journal is there before package_transaction_recover and the call answers CUP_OK,
  -- then the journal is gone and the disk is as the state decides: the checked package at its
  -- install path and nothing staged, or both paths missing.
  pub recover_ok :
      (a : Answers T) (t : PackageTransaction) (state : CupState) (d : Disk T)
      → d.journal ≡ true
      → (package_transaction_recover integrity a t state d).0 ≡ cup_ok
      → ((package_transaction_recover integrity a t state d).1.journal ≡ false)
        × Settled t.identity
            (is_some integrity (state_find_installed state t.identity))
            (package_transaction_recover integrity a t state d).1
  recover_ok a t state d h done =
      let o = recover-Outcome a t state d in (o.ended done, o.settles h (o.ended done))

  -- Where package_transaction_recover answers CUP_ERR_TRANSACTION, whatever the system calls
  -- answer: either nothing has changed, or the journal is as it was and the disk is as the
  -- state decides: the checked package at its install path and nothing staged, or both paths
  -- missing.
  pub recover_refused :
      (a : Answers T) (t : PackageTransaction) (state : CupState) (d : Disk T)
      → (package_transaction_recover integrity a t state d).0 ≡ transaction
      → ((package_transaction_recover integrity a t state d).1 ≡ d)
        ⊎ (Settled t.identity
              (is_some integrity (state_find_installed state t.identity))
              (package_transaction_recover integrity a t state d).1
            × ((package_transaction_recover integrity a t state d).1.journal ≡ d.journal))
  recover_refused a t state d h = (recover-Outcome a t state d).refused h
