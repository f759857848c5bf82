-- ===== src/State/Reached.antt =====
-- The states that the operations of src/state.c lead to.
use cup.Base.{ℕ, Bool, arith}
use cup.Package.{PackageScope, PackageIdentity}
use cup.State.{CupState, state_init, state_add_installed, state_remove_installed}
use cup.State.Defaults.{state_set_default, state_clear_default, state_clear_matching_default}
use cup.State.Valid.{IsValid}
use cup.State.Keeps.{state_add_installed-IsValid, state_remove_installed-IsValid}
use cup.State.KeepsDefaults.{
  state_set_default-IsValid, state_clear_default-IsValid, state_clear_matching_default-IsValid,
}

-- One call, whatever its arguments, its answer and the allocator's.
pub data StateStep (s : CupState) : CupState → Type 0 where
  adds :
      (allocates : ℕ → Bool) (x : PackageIdentity)
      → StateStep s (state_add_installed allocates s x).1
  removes : (x : PackageIdentity) → StateStep s (state_remove_installed s x).1
  sets_default : (x : PackageIdentity) → StateStep s (state_set_default s x).1
  clears_default : (scope : PackageScope) → StateStep s (state_clear_default s scope).1
  clears_matching : (x : PackageIdentity) → StateStep s (state_clear_matching_default s x).1

-- The states after calls, from the empty state.
pub data Reached : CupState → Type 0 where
  initial : Reached state_init
  then_step : {before after : CupState} → Reached before → StateStep before after → Reached after

step-IsValid : {s t : CupState} → StateStep s t → IsValid s → IsValid t
step-IsValid {s} (adds allocates x) v = state_add_installed-IsValid allocates s x v
step-IsValid {s} (removes x) v = state_remove_installed-IsValid s x v
step-IsValid {s} (sets_default x) v = state_set_default-IsValid s x v
step-IsValid {s} (clears_default scope) v = state_clear_default-IsValid s scope v
step-IsValid {s} (clears_matching x) v = state_clear_matching_default-IsValid s x v

state_init-IsValid : IsValid state_init
state_init-IsValid = record {
  few_defaults = omega arith;
  within_capacity = omega arith;
  installed_identities = tt;
  installed_distinct = tt;
  default_identities = tt;
  one_per_scope = tt;
  defaults_installed = tt;
}

-- From the empty state, any sequence of calls of state_add_installed, state_remove_installed,
-- state_set_default, state_clear_default and state_clear_matching_default, whatever their
-- arguments, their answers and the allocator's, leads to a valid state.
pub Reached-IsValid : {s : CupState} → Reached s → IsValid s
Reached-IsValid initial = state_init-IsValid
Reached-IsValid (then_step r s) = step-IsValid s (Reached-IsValid r)
