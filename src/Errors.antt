-- ===== src/Errors.antt =====
-- include/error.h and src/exit_status.c: the error codes and the public exit statuses.
-- A function of the source that returns a `CupError` and fills an output on success returns a
-- `Result` here; one that also changes state returns the code beside the state.
use cup.Base.{ℕ, arith, ◌≡◌, refl}
pub mod Status

-- The constructors are the enumerators of the source, without `CUP_ERR_`.
pub data CupError : Type 0 where
  cup_ok : CupError
  invalid_input : CupError
  unsupported_component invalid_tool invalid_release invalid_os invalid_arch : CupError
  not_available : CupError
  catalog : CupError
  state_load state_full default_full : CupError
  already_installed not_installed inconsistent_state : CupError
  filesystem temporary lock transaction : CupError
  buffer_too_small : CupError
  fetch tls timeout download_too_large archive archive_unsafe extract : CupError
  validation commit rollback : CupError
  interrupt : CupError

abbrev pub status_success : ℕ
status_success = 0

abbrev pub status_usage : ℕ
status_usage = 2

abbrev pub status_unavailable : ℕ
status_unavailable = 3

abbrev pub status_state : ℕ
status_state = 4

abbrev pub status_network : ℕ
status_network = 5

abbrev pub status_operation : ℕ
status_operation = 6

abbrev pub status_internal : ℕ
status_internal = 70

abbrev pub status_interrupt : ℕ
status_interrupt = 130

pub exit_status_from_error : CupError → ℕ
exit_status_from_error cup_ok = status_success
exit_status_from_error already_installed = status_success
exit_status_from_error invalid_input = status_usage
exit_status_from_error unsupported_component = status_usage
exit_status_from_error invalid_tool = status_usage
exit_status_from_error invalid_release = status_usage
exit_status_from_error invalid_os = status_usage
exit_status_from_error invalid_arch = status_usage
exit_status_from_error not_available = status_unavailable
exit_status_from_error not_installed = status_unavailable
exit_status_from_error catalog = status_state
exit_status_from_error state_load = status_state
exit_status_from_error state_full = status_state
exit_status_from_error default_full = status_state
exit_status_from_error inconsistent_state = status_state
exit_status_from_error validation = status_state
exit_status_from_error fetch = status_network
exit_status_from_error tls = status_network
exit_status_from_error timeout = status_network
exit_status_from_error download_too_large = status_network
exit_status_from_error filesystem = status_operation
exit_status_from_error temporary = status_operation
exit_status_from_error lock = status_operation
exit_status_from_error transaction = status_operation
exit_status_from_error archive = status_operation
exit_status_from_error archive_unsafe = status_operation
exit_status_from_error extract = status_operation
exit_status_from_error commit = status_operation
exit_status_from_error rollback = status_operation
exit_status_from_error interrupt = status_interrupt
exit_status_from_error buffer_too_small = status_internal

-- What a call leaves in its output parameter, or the error that it answers.
pub data Result {ℓ} (T : Type ℓ) : Type ℓ where
  err : CupError → Result T
  ok : T → Result T

infixl 5 ◌>>=◌
abbrev pub ◌>>=◌ {ℓ κ} : {T : Type ℓ} {U : Type κ} → Result T → (T → Result U) → Result U
err code >>= next = err code
ok value >>= next = next value

-- A call without an output parameter.
infixl 5 ◌>>◌
abbrev pub ◌>>◌ {ℓ} : {U : Type ℓ} → Result (Unit {0}) → Result U → Result U
call >> next = call >>= λ _. next

-- Where a chain ends well, its first call did.
pub bind-eq_ok {ℓ κ} :
    {T : Type ℓ} {U : Type κ} (r : Result T) (next : T → Result U) {u : U}
    → (r >>= next) ≡ ok u
    → (t : T) × (r ≡ ok t) × (next t ≡ ok u)
bind-eq_ok (err e) next h = absurd (ground (arith, h))
bind-eq_ok (ok t) next h = (t, refl, h)
