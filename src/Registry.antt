-- ===== src/Registry.antt =====
-- include/domain_registry.h, src/registry.c and src/platform.c: the closed domain of components,
-- tools and platforms.
pub mod Names
use cup.Base.{
  ℕ, ◌*◌, Bool, true, false, not, ◌&&◌, ◌||◌, Option, none, some, List, [], ◌∷◌, ◌++◌, leb, ltb,
  if◌then◌else◌, length, is_nil, any, map, get_elem?, Text, codes, text_eq,
}
use cup.Errors.{
  Result, ok, err, invalid_input, buffer_too_small, unsupported_component, invalid_tool, invalid_os,
  invalid_arch, inconsistent_state, ◌>>=◌, ◌>>◌,
}
use cup.Text.{text_copy, text_split_exact, text_format}

abbrev pub max_identifier_len : ℕ
max_identifier_len = 32

abbrev pub max_platform_len : ℕ
max_platform_len = 64

-- `CUP_COMPONENT_REGISTRY`
abbrev pub supported_components : List Text
supported_components =
    codes "compiler"
    ∷ codes "debugger"
    ∷ codes "linker"
    ∷ codes "formatter"
    ∷ codes "linter"
    ∷ codes "language-server"
    ∷ codes "analyzer"
    ∷ codes "package-manager"
    ∷ []

-- `CUP_TOOL_REGISTRY`: component and tool.
abbrev pub supported_tools : List (Text × Text)
supported_tools =
    (codes "compiler", codes "gcc")
    ∷ (codes "compiler", codes "clang")
    ∷ (codes "debugger", codes "gdb")
    ∷ (codes "debugger", codes "lldb")
    ∷ (codes "linker", codes "lld")
    ∷ (codes "linker", codes "ld")
    ∷ (codes "formatter", codes "clang-format")
    ∷ (codes "linter", codes "clang-tidy")
    ∷ (codes "language-server", codes "clangd")
    ∷ (codes "analyzer", codes "valgrind")
    ∷ (codes "package-manager", codes "coffee")
    ∷ []

-- `CUP_PLATFORM_REGISTRY`: system and architecture.
abbrev pub platform_registry : List (Text × Text)
platform_registry =
    (codes "linux", codes "x64")
    ∷ (codes "linux", codes "arm64")
    ∷ (codes "windows", codes "x64")
    ∷ (codes "macos", codes "x64")
    ∷ (codes "macos", codes "arm64")
    ∷ []

-- `CUP_LOCAL_SCOPE_COUNT`, which is also `MAX_STATE_DEFAULTS` and `MAX_TOOL_PREFERENCES`.
abbrev pub local_scope_count : ℕ
local_scope_count = length supported_components * length platform_registry

unfoldable pub registry_is_component : Text → Bool
registry_is_component component =
    not (is_nil component) && any (λ name. text_eq name component) supported_components

unfoldable pub registry_is_tool : Text → Text → Bool
registry_is_tool component tool =
    not (is_nil component)
    && not (is_nil tool)
    && any (λ entry. text_eq entry.0 component && text_eq entry.1 tool) supported_tools

unfoldable pub registry_validate_component : Text → Result (Unit {0})
unfolding registry_is_component
registry_validate_component component =
    if is_nil component
    then err invalid_input
    else if registry_is_component component
    then ok tt
    else err unsupported_component

unfoldable pub registry_validate_tool : Text → Text → Result (Unit {0})
unfolding registry_is_component registry_is_tool
registry_validate_tool component tool =
    if is_nil component || is_nil tool
    then err invalid_input
    else if not (registry_is_component component)
    then err unsupported_component
    else if registry_is_tool component tool
    then ok tt
    else err invalid_tool

unfoldable pub registry_tool_is_operational : Text → Text → Bool
unfolding registry_is_tool
registry_tool_is_operational component tool =
    registry_is_tool component tool && not (text_eq tool (codes "coffee"))

unfoldable pub registry_component_count : ℕ
registry_component_count = length supported_components

unfoldable pub registry_component_at : ℕ → Option Text
unfolding registry_component_count
registry_component_at index =
    if ltb index registry_component_count then get_elem? supported_components index else none

-- The loop of `registry_find_tool_component`; `matched` is the component found so far.
unfoldable pub find_component : Text → Option Text → List (Text × Text) → Result (Option Text)
find_component tool matched [] = ok matched
find_component tool matched ((component, name) ∷ rest) = elim (text_eq name tool) [
  | false ↦ find_component tool matched rest
  | true ↦ elim matched [
    | none ↦ find_component tool (some component) rest
    | some found ↦ elim (text_eq found component) [
      | true ↦ find_component tool (some component) rest
      | false ↦ err inconsistent_state
    ]
  ]
]

unfoldable pub registry_find_tool_component : Text → ℕ → Result Text
unfolding find_component text_copy
registry_find_tool_component tool component_size =
    if is_nil tool || leb component_size 0 then err invalid_input else do
      matched ← find_component tool none supported_tools
      elim matched [ none ↦ err invalid_tool | some component ↦ text_copy component_size component ]

abbrev pub supported_platforms : List Text
supported_platforms = map (λ entry. entry.0 ++ codes "-" ++ entry.1) platform_registry

unfoldable pub platform_is_supported : Text → Bool
platform_is_supported platform =
    if is_nil platform || leb max_platform_len (length platform)
    then false
    else any (λ name. text_eq name platform) supported_platforms

-- What `platform_validate` says of the two parts of a platform that is not supported.
unfoldable pub blame_platform : Result (List Text) → Result (Unit {0})
blame_platform (ok (os ∷ _)) =
    if any (λ entry. text_eq os entry.0) platform_registry then err invalid_arch else err invalid_os
blame_platform _ = err invalid_input

unfoldable pub platform_validate : Text → Result (Unit {0})
unfolding platform_is_supported blame_platform
platform_validate platform =
    if is_nil platform
    then err invalid_input
    else if leb max_platform_len (length platform)
    then err buffer_too_small
    else if platform_is_supported platform
    then ok tt
    else blame_platform
        (text_split_exact platform b'-' (max_identifier_len ∷ max_identifier_len ∷ []))

-- `platform_get_host`; the compiler's macros choose the system and the architecture.
unfoldable pub platform_get_host : Option Text → Option Text → ℕ → Result Text
unfolding platform_validate text_format
platform_get_host os arch size = if leb size 0 then err invalid_input else elim os [
  | none ↦ err invalid_os
  | some system ↦ elim arch [
    | none ↦ err invalid_arch
    | some machine ↦ (do
      host ← text_format size (system ++ codes "-" ++ machine)
      platform_validate host
      ok host)
  ]
]
