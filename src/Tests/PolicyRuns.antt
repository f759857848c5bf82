-- ===== src/Tests/PolicyRuns.antt =====
-- A run of src/install_policy.c, and its theorem at it.
use cup.Base.{true, ◌≡◌, refl, some, [], ◌∷◌, All, codes, text_eq}
use cup.Registry.{platform_is_supported}
use cup.InstallPolicy.{InstallNamedList, install_policy_load, install_policy_find_profile}
use cup.InstallPolicy.Profiles.{HasDefault, profile-HasDefault, loaded_policy, loads}

abbrev minimal : InstallNamedList
minimal = record { name = codes "minimal"; items = codes "compiler" ∷ codes "linker" ∷ [] }

linux_known : platform_is_supported (codes "linux-x64") ≡ true
unfolding platform_is_supported text_eq
linux_known = refl

minimal_found : install_policy_find_profile loaded_policy (codes "minimal") ≡ some minimal
unfolding install_policy_find_profile loaded_policy install_policy_load platform_is_supported
minimal_found = refl

profile-HasDefault_example : All (HasDefault loaded_policy (codes "linux-x64")) minimal.items
profile-HasDefault_example =
    profile-HasDefault loaded_policy (codes "linux-x64") (codes "minimal") minimal loads linux_known
      minimal_found
