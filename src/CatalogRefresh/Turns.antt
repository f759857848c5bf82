-- ===== src/CatalogRefresh/Turns.antt =====
-- Refreshes that take turns (src/catalog_refresh.c).
use cup.Base.{ℕ, ◌<◌, some, ◌≡◌, refl, sym, ap, ◌∙◌, ◌⊎◌, inl, inr, arith, Text}
use cup.Errors.{cup_ok, Result, ok, err}
use cup.System.{SystemPathIdentity, StoredFile}
use cup.CatalogRefresh.{
  CatalogBody, PackageCatalog, CommitAnswers, Committed, load_body, load_catalog,
  commit_remote_catalog,
}
use cup.CatalogRefresh.Commit.{
  swapped, up_to_date, moved_on, failed, ErrorsAreErrors, commit-outcome,
}

module _ (load : Text → Result CatalogBody) where
  -- The commit of some refresh, of bytes that it has loaded. The catalog that it started from may be
  -- any: nothing is assumed of the order in which the refreshes took their snapshots.
  pub data CommitStep (file : StoredFile) : StoredFile → Type 0 where
    commits :
        (a : CommitAnswers) (before remote : PackageCatalog) (bytes : Text)
        (identity : SystemPathIdentity)
        → ErrorsAreErrors load a
        → load_body load bytes identity ≡ ok remote
        → CommitStep file (commit_remote_catalog load a before remote bytes file).file

  pub data Commits (first : StoredFile) : StoredFile → Type 0 where
    none_yet : Commits first first
    then_commit :
        {middle last : StoredFile}
        → Commits first middle
        → CommitStep middle last
        → Commits first last

  -- The file has the catalog of a revision.
  abbrev pub HasRevision : StoredFile → ℕ → Type 0
  HasRevision file n =
      (c : PackageCatalog) × (load_catalog load cup_ok file ≡ ok c) × (c.revision ≡ n)

  -- The revision comes from the bytes, whatever the identity.
  rebound :
      (bytes : Text) (i j : SystemPathIdentity) {c : PackageCatalog}
      → load_body load bytes i ≡ ok c
      → HasRevision (some (bytes, j)) c.revision
  unfolding load_body load_catalog
  rebound bytes i j {c} h = go (load bytes) refl
    where
      go : (r : Result CatalogBody) → load bytes ≡ r → HasRevision (some (bytes, j)) c.revision
      go (err e) q = absurd (ground (arith, q))
      go (ok body) q = (
        record {
          revision = body.revision;
          update_url = body.update_url;
          digest = body.digest;
          identity = j;
        },
        ground (arith, q),
        ground (arith, q),
      )

  -- What a step makes of the revision.
  abbrev pub Advances : StoredFile → StoredFile → ℕ → Type 0
  Advances before after n = (after ≡ before) ⊎ ((m : ℕ) × (n < m) × HasRevision after m)

  step-Advances :
      {before after : StoredFile} (n : ℕ)
      → HasRevision before n
      → CommitStep before after
      → Advances before after n
  step-Advances {before} n (c, loaded, rev) (commits a start remote bytes identity errors body) =
      elim (commit-outcome load a errors start remote bytes before) [
        | swapped current i there same newer f e r ↦ inr (
          remote.revision,
          (let same_catalog : ok c ≡ ok current = sym loaded ∙ there in
              ground (arith, same_catalog, rev, newer)),
          rw f (rebound bytes identity i body),
        )
        | up_to_date current there r d e ↦ inl (ap (λ (k : Committed). k.file) e)
        | moved_on current there changed e ↦ inl (ap (λ (k : Committed). k.file) e)
        | failed e u f ↦ inl f
      ]

  -- Whatever order the commits of any number of refreshes come in, each of bytes that its
  -- refresh has loaded and with any snapshot to start from: behind them the catalog file is
  -- the one at the start, or its bytes load with a higher revision. This holds where errors
  -- are not CUP_OK.
  pub Commits-Advances :
      {first last : StoredFile} (n : ℕ)
      → HasRevision first n
      → Commits first last
      → Advances first last n
  Commits-Advances n h none_yet = inl refl
  Commits-Advances {first} n h (then_commit {middle} {last} cs s) = elim (Commits-Advances n h cs) [
    | inl same ↦ (elim (step-Advances n (rw same h) s) [
      | inl again ↦ inl (again ∙ same)
      | inr (m, more, has) ↦ inr (m, more, has)
    ])
    | inr (m, more, has) ↦ (elim (step-Advances m has s) [
      | inl again ↦ inr (m, more, rw again has)
      | inr (k, further, later) ↦ inr (k, omega (arith, more, further), later)
    ])
  ]
