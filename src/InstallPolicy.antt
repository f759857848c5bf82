-- ===== src/InstallPolicy.antt =====
-- src/install_policy.c: the official defaults of the scopes, the profiles and the toolchains, which
-- are compiled in.
pub mod Profiles
use cup.Base.{
  ℕ, ◌*◌, Bool, true, false, ◌||◌, Option, none, some, List, [], ◌∷◌, ltb, if◌then◌else◌, length,
  get_elem?, is_nil, Text, codes, text_eq,
}
use cup.Errors.{Result, ok, err, inconsistent_state, ◌>>=◌, ◌>>◌}
use cup.Text.{text_copy}
use cup.Registry.{
  max_identifier_len, supported_components, supported_platforms, registry_validate_tool,
}
use cup.Package.{PackageScope, package_scope_init, package_scope_equals}
use cup.State.{find_index}

-- CUP_GLOBAL_SCOPE_COUNT
abbrev pub max_install_defaults : ℕ
max_install_defaults =
    length supported_components * length supported_platforms * length supported_platforms

abbrev pub max_install_profiles : ℕ
max_install_profiles = 8

abbrev pub max_install_toolchains : ℕ
max_install_toolchains = 8

abbrev pub max_install_list_items : ℕ
max_install_list_items = 16

pub record InstallDefault : Type 0 where
  pub scope : PackageScope
  pub tool : Text

pub record InstallNamedList : Type 0 where
  pub name : Text
  pub items : List Text

pub record InstallPolicy : Type 0 where
  pub defaults : List InstallDefault
  pub profiles : List InstallNamedList
  pub toolchains : List InstallNamedList

-- The host, the target, the component and the tool.
abbrev pub compiled_defaults : List (Text × Text × Text × Text)
compiled_defaults =
    (codes "linux-arm64", codes "linux-arm64", codes "compiler", codes "clang")
    ∷ (codes "linux-arm64", codes "linux-arm64", codes "debugger", codes "lldb")
    ∷ (codes "linux-arm64", codes "linux-arm64", codes "linker", codes "lld")
    ∷ (codes "linux-arm64", codes "linux-arm64", codes "formatter", codes "clang-format")
    ∷ (codes "linux-arm64", codes "linux-arm64", codes "linter", codes "clang-tidy")
    ∷ (codes "linux-arm64", codes "linux-arm64", codes "language-server", codes "clangd")
    ∷ (codes "linux-arm64", codes "linux-arm64", codes "analyzer", codes "valgrind")
    ∷ (codes "linux-x64", codes "linux-x64", codes "compiler", codes "clang")
    ∷ (codes "linux-x64", codes "linux-x64", codes "debugger", codes "lldb")
    ∷ (codes "linux-x64", codes "linux-x64", codes "linker", codes "lld")
    ∷ (codes "linux-x64", codes "linux-x64", codes "formatter", codes "clang-format")
    ∷ (codes "linux-x64", codes "linux-x64", codes "linter", codes "clang-tidy")
    ∷ (codes "linux-x64", codes "linux-x64", codes "language-server", codes "clangd")
    ∷ (codes "linux-x64", codes "linux-x64", codes "analyzer", codes "valgrind")
    ∷ (codes "linux-x64", codes "windows-x64", codes "compiler", codes "gcc")
    ∷ (codes "linux-x64", codes "windows-x64", codes "linker", codes "ld")
    ∷ (codes "macos-arm64", codes "macos-arm64", codes "compiler", codes "clang")
    ∷ (codes "macos-arm64", codes "macos-arm64", codes "debugger", codes "lldb")
    ∷ (codes "macos-arm64", codes "macos-arm64", codes "linker", codes "lld")
    ∷ (codes "macos-arm64", codes "macos-arm64", codes "formatter", codes "clang-format")
    ∷ (codes "macos-arm64", codes "macos-arm64", codes "linter", codes "clang-tidy")
    ∷ (codes "macos-arm64", codes "macos-arm64", codes "language-server", codes "clangd")
    ∷ (codes "macos-x64", codes "macos-x64", codes "compiler", codes "clang")
    ∷ (codes "macos-x64", codes "macos-x64", codes "debugger", codes "lldb")
    ∷ (codes "macos-x64", codes "macos-x64", codes "linker", codes "lld")
    ∷ (codes "macos-x64", codes "macos-x64", codes "formatter", codes "clang-format")
    ∷ (codes "macos-x64", codes "macos-x64", codes "linter", codes "clang-tidy")
    ∷ (codes "macos-x64", codes "macos-x64", codes "language-server", codes "clangd")
    ∷ (codes "windows-x64", codes "windows-x64", codes "compiler", codes "clang")
    ∷ (codes "windows-x64", codes "windows-x64", codes "debugger", codes "lldb")
    ∷ (codes "windows-x64", codes "windows-x64", codes "linker", codes "lld")
    ∷ (codes "windows-x64", codes "windows-x64", codes "formatter", codes "clang-format")
    ∷ (codes "windows-x64", codes "windows-x64", codes "linter", codes "clang-tidy")
    ∷ (codes "windows-x64", codes "windows-x64", codes "language-server", codes "clangd")
    ∷ []

abbrev pub compiled_profiles : List (Text × List Text)
compiled_profiles =
    (codes "minimal", codes "compiler" ∷ codes "linker" ∷ [])
    ∷ (
      codes "standard",
      codes "compiler" ∷ codes "linker" ∷ codes "debugger" ∷ codes "language-server" ∷ [],
    )
    ∷ (
      codes "extended",
      codes "compiler"
          ∷ codes "linker"
          ∷ codes "debugger"
          ∷ codes "language-server"
          ∷ codes "formatter"
          ∷ codes "linter"
          ∷ [],
    )
    ∷ []

abbrev pub compiled_toolchains : List (Text × List Text)
compiled_toolchains =
    (
      codes "llvm",
      codes "clang"
          ∷ codes "lldb"
          ∷ codes "lld"
          ∷ codes "clang-format"
          ∷ codes "clang-tidy"
          ∷ codes "clangd"
          ∷ [],
    )
    ∷ (codes "gnu", codes "gcc" ∷ codes "gdb" ∷ codes "ld" ∷ [])
    ∷ []

unfoldable pub copy_items : List Text → Result (List Text)
unfolding text_copy
copy_items [] = ok []
copy_items (item ∷ items) = do
  first ← text_copy max_identifier_len item
  rest ← copy_items items
  ok (first ∷ rest)

-- Every failure of a step is `CUP_ERR_INCONSISTENT_STATE`.
abbrev or_inconsistent {ℓ} : {A : Type ℓ} → Result A → Result A
or_inconsistent (ok a) = ok a
or_inconsistent (err _) = err inconsistent_state

unfoldable pub copy_compiled_list : Text × List Text → Result InstallNamedList
unfolding copy_items
copy_compiled_list (name, items) =
    if ltb max_install_list_items (length items)
    then err inconsistent_state
    else or_inconsistent (do
      n ← text_copy max_identifier_len name
      copied ← copy_items items
      ok (record { name = n; items = copied }))

unfoldable pub copy_compiled_lists : List (Text × List Text) → Result (List InstallNamedList)
unfolding copy_compiled_list
copy_compiled_lists [] = ok []
copy_compiled_lists (source ∷ sources) = do
  first ← copy_compiled_list source
  rest ← copy_compiled_lists sources
  ok (first ∷ rest)

unfoldable pub copy_compiled_default : Text × Text × Text × Text → Result InstallDefault
unfolding package_scope_init registry_validate_tool text_copy
copy_compiled_default (host, target, component, tool) = or_inconsistent (do
  scope ← package_scope_init component host target
  registry_validate_tool component tool
  copied ← text_copy max_identifier_len tool
  ok (record { scope = scope; tool = copied }))

unfoldable pub copy_compiled_defaults :
    List (Text × Text × Text × Text) → Result (List InstallDefault)
unfolding copy_compiled_default
copy_compiled_defaults [] = ok []
copy_compiled_defaults (source ∷ sources) = do
  first ← copy_compiled_default source
  rest ← copy_compiled_defaults sources
  ok (first ∷ rest)

-- A failure leaves the caller an empty policy.
unfoldable pub install_policy_load : Result InstallPolicy
unfolding copy_compiled_defaults copy_compiled_lists
install_policy_load =
    if ltb max_install_defaults (length compiled_defaults)
      || ltb max_install_profiles (length compiled_profiles)
      || ltb max_install_toolchains (length compiled_toolchains)
    then err inconsistent_state
    else do
      defaults ← copy_compiled_defaults compiled_defaults
      profiles ← copy_compiled_lists compiled_profiles
      toolchains ← copy_compiled_lists compiled_toolchains
      ok (record { defaults = defaults; profiles = profiles; toolchains = toolchains })

unfoldable pub default_index : InstallPolicy → PackageScope → Option ℕ
unfolding find_index package_scope_equals
default_index policy scope =
    find_index (λ entry. package_scope_equals entry.scope scope) policy.defaults

unfoldable pub install_policy_find_default :
    InstallPolicy → Text → Text → Text → Option InstallDefault
unfolding default_index package_scope_init
install_policy_find_default policy host target component =
    elim (package_scope_init component host target) [
      | err _ ↦ none
      | ok scope ↦ elim (default_index policy scope) [
        | none ↦ none
        | some index ↦ get_elem? policy.defaults index
      ]
    ]

unfoldable pub named_list_index : List InstallNamedList → Text → Option ℕ
unfolding find_index text_eq
named_list_index lists name =
    if is_nil name then none else find_index (λ list. text_eq list.name name) lists

unfoldable pub find_named : List InstallNamedList → Text → Option InstallNamedList
unfolding named_list_index
find_named lists name = elim (named_list_index lists name) [
  | none ↦ none
  | some index ↦ get_elem? lists index
]

unfoldable pub install_policy_find_profile : InstallPolicy → Text → Option InstallNamedList
unfolding find_named
install_policy_find_profile policy name = find_named policy.profiles name

unfoldable pub install_policy_find_toolchain : InstallPolicy → Text → Option InstallNamedList
unfolding find_named
install_policy_find_toolchain policy name = find_named policy.toolchains name
