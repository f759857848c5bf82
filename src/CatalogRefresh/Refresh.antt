-- ===== src/CatalogRefresh/Refresh.antt =====
-- `catalog_refresh_existing` (src/catalog_refresh.c): its loop over the attempts.
use mathlib.Core.Path.{subst}
use cup.Base.{
  ℕ, zero, suc, ◌+◌, ◌≤◌, ◌<◌, Bool, true, false, ◌≡◌, ◌≢◌, refl, sym, ◌⊎◌, inl, inr, arith,
  Bool-cases, ◌==◌, ==_iff, Text,
}
use cup.Errors.{CupError, cup_ok, Result, temporary}
use cup.System.{StoredFile}
use cup.CatalogRefresh.{
  CatalogBody, Committed, Attempt, refresh_attempt, after_attempt, refresh_loop,
  catalog_refresh_existing,
}
use cup.CatalogRefresh.Attempts.{AttemptErrors, AttemptOutcome, attempt-outcome}

order : (m n : ℕ) → m ≤ n → (m ≡ n) ⊎ (suc m ≤ n)
order m n h = elim (Bool-cases (m == n)) [
  | inl same ↦ inl ((==_iff m n).0 same)
  | inr other ↦ inr (ground arith)
]

-- The attempt answered CUP_OK and asked for another one.
abbrev pub Retried : Committed → Type 0
Retried r = (r.answer ≡ cup_ok) × (r.retry ≡ true)

module _ (load : Text → Result CatalogBody) (world : ℕ → Attempt) where
  -- How a refresh ends: with the result of an attempt, of the three, that all before it have asked
  -- for, or with CUP_ERR_TEMPORARY behind three attempts that asked for another one.
  pub data RefreshOutcome (first left : ℕ) (result : CupError × Bool × StoredFile) : Type 0 where
    ended :
        (k : ℕ)
        → first ≤ k
        → k < first + left
        → ((i : ℕ) → first ≤ i → i < k → Retried (refresh_attempt load (world i)))
        → ((refresh_attempt load (world k)).answer ≢ cup_ok)
          ⊎ ((refresh_attempt load (world k)).retry ≡ false)
        → AttemptOutcome load (world k) (refresh_attempt load (world k))
        → result.0 ≡ (refresh_attempt load (world k)).answer
        → result.1 ≡ (refresh_attempt load (world k)).updated
        → result.2 ≡ (refresh_attempt load (world k)).file
        → RefreshOutcome first left result
    gave_up :
        ((i : ℕ) → first ≤ i → i < first + left → Retried (refresh_attempt load (world i)))
        → result.0 ≡ temporary
        → result.1 ≡ false
        → RefreshOutcome first left result

  -- One attempt that asks for another, in front.
  Retried-first :
      (first left : ℕ) (result : CupError × Bool × StoredFile)
      → Retried (refresh_attempt load (world first))
      → RefreshOutcome (suc first) left result
      → RefreshOutcome first (suc left) result
  Retried-first first left result r (ended k low high before e o a u f) =
      ended k (omega (arith, low)) (omega (arith, high)) earlier e o a u f
    where
      earlier : (i : ℕ) → first ≤ i → i < k → Retried (refresh_attempt load (world i))
      earlier i at_least below = elim (order first i at_least) [
        | inl same ↦ subst (λ n. Retried (refresh_attempt load (world n))) same r
        | inr later ↦ before i later below
      ]
  Retried-first first left result r (gave_up before e u) = gave_up earlier e u
    where
      earlier :
          (i : ℕ) → first ≤ i → i < first + suc left → Retried (refresh_attempt load (world i))
      earlier i at_least below = elim (order first i at_least) [
        | inl same ↦ subst (λ n. Retried (refresh_attempt load (world n))) same r
        | inr later ↦ before i later (omega (arith, below))
      ]

  after-outcome :
      (errors : (k : ℕ) → AttemptErrors load (world k)) (first left : ℕ) (e : CupError)
      (again : CupError × Bool × StoredFile)
      → (refresh_attempt load (world first)).answer ≡ e
      → RefreshOutcome (suc first) left again
      → RefreshOutcome first
          (suc left)
          (after_attempt load e (refresh_attempt load (world first)) again)
  unfolding after_attempt
  after-outcome errors first left cup_ok again h later =
      elim (Bool-cases (refresh_attempt load (world first)).retry) [
        | inl asked ↦ rw asked (Retried-first first left again (h, asked) later)
        | inr content ↦ rw content (
            ended first (omega arith) (omega arith) (λ i a b. absurd (omega (arith, a, b)))
              (inr content) (attempt-outcome load (world first) (errors first)) (sym h) refl refl)
      ]
  after-outcome errors first left _ again h later =
      ended first (omega arith) (omega arith) (λ i a b. absurd (omega (arith, a, b)))
        (inl (λ q. absurd (ground (arith, h, q))))
        (attempt-outcome load (world first) (errors first)) (sym h) refl refl

  loop-outcome :
      (errors : (k : ℕ) → AttemptErrors load (world k)) (left first : ℕ) (file : StoredFile)
      → RefreshOutcome first left (refresh_loop load left first world file)
  unfolding refresh_loop
  loop-outcome errors zero first file = gave_up (λ i a b. absurd (omega (arith, a, b))) refl refl
  loop-outcome errors (suc left) first file =
      after-outcome errors first left (refresh_attempt load (world first)).answer _ refl
        (loop-outcome errors left (suc first) (refresh_attempt load (world first)).file)

  -- catalog_refresh_existing, whose calls report no error as CUP_OK, makes three attempts at
  -- most. It ends with the answer, the flag and the file of one of them, whose predecessors
  -- all asked for another attempt, or with CUP_ERR_TEMPORARY and no update behind three
  -- attempts that did. The attempt that it ends with has either called commit_remote_catalog
  -- on what it downloaded, against the catalog of its snapshot, with one of the endings of
  -- that call, among which the catalog may be up to date and the file untouched; or it has
  -- stopped before that, with an error and the file untouched.
  pub refresh-outcome :
      (errors : (k : ℕ) → AttemptErrors load (world k)) (file : StoredFile)
      → RefreshOutcome 0 3 (catalog_refresh_existing load world file)
  unfolding catalog_refresh_existing
  refresh-outcome errors file = loop-outcome errors 3 0 file
