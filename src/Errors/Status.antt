-- ===== src/Errors/Status.antt =====
-- The process statuses of src/exit_status.c.
use cup.Base.{◌≡◌, ◌↔◌, ◌⊎◌, arith}
use cup.Errors.{CupError, cup_ok, already_installed, exit_status_from_error, status_success}

-- exit_status_from_error answers the success status exactly for CUP_OK and
-- CUP_ERR_ALREADY_INSTALLED.
pub exit_status_from_error-status_success :
    (e : CupError)
    → (exit_status_from_error e ≡ status_success) ↔ ((e ≡ cup_ok) ⊎ (e ≡ already_installed))
unfolding exit_status_from_error
exit_status_from_error-status_success e = ground arith
