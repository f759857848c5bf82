-- ===== src/Base/Bytes.antt =====
-- C strings as lists of their bytes, without the terminator: `strcmp`, `strlen`, `strchr`, `strstr`.
use Prim.Native.Nat.{ℕ, compare, Ordering}
use Prim.Native.Char.{code}
use Prim.Native.String.{String}
use mathlib.Core.Path.{◌≡◌, refl}
use mathlib.Core.Logic.{◌↔◌}
use mathlib.Core.Bool.{Bool, true, false, ◌&&◌}
use mathlib.Core.List.{List, [], ◌∷◌}
use mathlib.Core.Option.{Option, none, some}
use native.Mathlib.Omega.{arith}
use cup.Base.Tests.{◌==◌, if◌then◌else◌}

abbrev pub Text : Type 0
Text = List ℕ

-- The bytes of a literal.
abbrev pub codes : String → Text
codes String.[] = []
codes (String.◌∷◌ c s) = code c ∷ codes s

-- `strcmp(a, b) == 0`
unfoldable pub text_eq : Text → Text → Bool
text_eq [] [] = true
text_eq (a ∷ xs) (b ∷ ys) = a == b && text_eq xs ys
text_eq _ _ = false

pub text_eq_iff : (a b : Text) → (text_eq a b ≡ true) ↔ (a ≡ b)
unfolding text_eq
text_eq_iff (x ∷ a) (y ∷ b) = ground (arith, text_eq_iff a b)
text_eq_iff _ _ = ground arith

pub text_eq_refl : (a : Text) → text_eq a a ≡ true
text_eq_refl a = (text_eq_iff a a).1 refl

-- The sign of `strcmp(a, b)`, also of `memcmp` on texts of one length.
unfoldable pub strcmp : Text → Text → Ordering
strcmp [] [] = Ordering.eq
strcmp [] (b ∷ ys) = Ordering.lt
strcmp (a ∷ xs) [] = Ordering.gt
strcmp (a ∷ xs) (b ∷ ys) = elim (compare a b) [
  | Ordering.lt ↦ Ordering.lt
  | Ordering.eq ↦ strcmp xs ys
  | Ordering.gt ↦ Ordering.gt
]

-- `strncmp(text, prefix, strlen(prefix)) == 0`, with what follows the prefix.
unfoldable pub strip_prefix : Text → Text → Option Text
strip_prefix [] text = some text
strip_prefix (p ∷ ps) [] = none
strip_prefix (p ∷ ps) (c ∷ cs) = if p == c then strip_prefix ps cs else none

-- `strchr(text, separator)`: what stands before it, and what behind it if it is there.
unfoldable pub break_at : ℕ → Text → Text × Option Text
break_at separator [] = ([], none)
break_at separator (c ∷ cs) =
    let (part, rest) = break_at separator cs in
    if c == separator then ([], some cs) else (c ∷ part, rest)

unfoldable pub prepend : ℕ → List Text → List Text
prepend c [] = (c ∷ []) ∷ []
prepend c (part ∷ parts) = (c ∷ part) ∷ parts

-- The parts between the separators; one part more than there are separators.
unfoldable pub split_on : ℕ → Text → List Text
unfolding prepend
split_on separator [] = [] ∷ []
split_on separator (c ∷ cs) =
    let parts = split_on separator cs in if c == separator then [] ∷ parts else prepend c parts

-- What stands before and behind the first `marker` (`strstr`), if there is one.
unfoldable pub break_at_text : Text → Text → Option (Text × Text)
unfolding strip_prefix
break_at_text marker [] = none
break_at_text marker (c ∷ cs) =
    let later = break_at_text marker cs in
    elim (strip_prefix marker (c ∷ cs)) [
      | some behind ↦ some ([], behind)
      | none ↦ elim later [ none ↦ none | some (before, behind) ↦ some (c ∷ before, behind) ]
    ]
