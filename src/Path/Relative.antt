-- ===== src/Path/Relative.antt =====
-- What `path_is_safe_relative` admits (src/path.c), segment by segment.
use cup.Base.Bytes.{prepend}
use cup.Base.{
  ℕ, not, ltb, &&-true_iff, sym, ap, ◌∙◌, ◌||◌, any, inl, inr, Bool, true, false, List, [], ◌∷◌,
  ◌++◌, ◌≡◌, refl, ◌≢◌, arith, is_nil, all, All, Text, codes, text_eq_iff, split_on, Bool-cases,
  ◌&&◌, ◌==◌,
}
use cup.Path.{
  is_segment_byte, path_is_safe_segment, segment_ends_well, safe_relative_from,
  path_is_safe_relative,
}

append_one : (s : Text) (c : ℕ) (p : Text) → (s ++ (c ∷ [])) ++ p ≡ s ++ (c ∷ p)
append_one [] c p = refl
append_one (x ∷ s) c p = ap (λ t. x ∷ t) (append_one s c p)

append_nil : (s : Text) → s ++ [] ≡ s
append_nil [] = refl
append_nil (x ∷ s) = ap (λ t. x ∷ t) (append_nil s)

segment_ends_well-eq : (s : Text) → segment_ends_well s ≡ path_is_safe_segment s
unfolding segment_ends_well path_is_safe_segment
segment_ends_well-eq s = ground arith

-- The segments, the first behind what the loop has already passed of it.
abbrev continued : Text → List Text → Bool
continued s [] = path_is_safe_segment s
continued s (p ∷ ps) = path_is_safe_segment (s ++ p) && all path_is_safe_segment ps

continued-prepend :
    (s : Text) (c : ℕ) (parts : List Text)
    → continued s (prepend c parts) ≡ continued (s ++ (c ∷ [])) parts
unfolding prepend
continued-prepend s c [] = ground arith
continued-prepend s c (p ∷ ps) = rw (append_one s c p) refl

continued-nil :
    (parts : List Text) → is_nil parts ≡ false → continued [] parts ≡ all path_is_safe_segment parts
continued-nil [] h = absurd (ground arith)
continued-nil (p ∷ ps) h = refl

prepend-is_nil : (c : ℕ) (parts : List Text) → is_nil (prepend c parts) ≡ false
unfolding prepend
prepend-is_nil c [] = refl
prepend-is_nil c (p ∷ ps) = refl

split_on-is_nil : (cs : Text) → is_nil (split_on b'/' cs) ≡ false
unfolding split_on prepend
split_on-is_nil [] = refl
split_on-is_nil (c ∷ cs) = elim (Bool-cases (c == b'/')) [
  | inl slash ↦ rw slash refl
  | inr other ↦ rw other (prepend-is_nil c (split_on b'/' cs))
]

safe_relative_from-continued :
    (s cs : Text) → safe_relative_from s cs ≡ continued s (split_on b'/' cs)
unfolding safe_relative_from split_on
safe_relative_from-continued s [] = rw (segment_ends_well-eq s, append_nil s) (ground arith)
safe_relative_from-continued s (c ∷ cs) = elim (Bool-cases (c == b'/')) [
  | inl slash ↦ ground (
    arith,
    slash,
    append_nil s,
    segment_ends_well-eq s,
    safe_relative_from-continued [] cs,
    continued-nil (split_on b'/' cs) (split_on-is_nil cs),
  )
  | inr other ↦ ground (
    arith,
    other,
    safe_relative_from-continued (s ++ (c ∷ [])) cs,
    continued-prepend s c (split_on b'/' cs),
  )
]

unsafe_empty : path_is_safe_segment [] ≡ false
unfolding path_is_safe_segment
unsafe_empty = refl

-- path_is_safe_relative admits a path exactly if path_is_safe_segment admits each of its parts
-- between the slashes.
pub path_is_safe_relative-split_on :
    (path : Text) → path_is_safe_relative path ≡ all path_is_safe_segment (split_on b'/' path)
unfolding path_is_safe_relative
path_is_safe_relative-split_on [] = unfold split_on in ground (arith, unsafe_empty)
path_is_safe_relative-split_on (c ∷ cs) =
    safe_relative_from-continued [] (c ∷ cs)
    ∙ continued-nil (split_on b'/' (c ∷ cs)) (split_on-is_nil (c ∷ cs))

-- A segment that stays where it is and in its own directory.
abbrev pub IsPlainSegment : Text → Type 0
IsPlainSegment s =
    (s ≢ [])
    × (s ≢ codes ".")
    × (s ≢ codes "..")
    × (any (λ c. c == b'/' || c == b'\\' || c == b':') s ≡ false)

none_of :
    (low high slash back colon star ask quote less more bar : Bool)
    → not (low || high || slash || back || colon || star || ask || quote || less || more || bar)
      ≡ true
    → (slash || back || colon) ≡ false
none_of false false false false false star ask quote less more bar h = refl
none_of _ _ _ _ _ star ask quote less more bar h = ground arith

byte_plain : (c : ℕ) → is_segment_byte c ≡ true → (c == b'/' || c == b'\\' || c == b':') ≡ false
unfolding is_segment_byte
byte_plain c h =
    none_of (ltb c 0x21) (ltb 0x7e c) (c == b'/') (c == b'\\') (c == b':') (c == b'*') (c == b'?')
      (c == b'"') (c == b'<') (c == b'>') (c == b'|') h

bytes_plain :
    (s : Text)
    → all is_segment_byte s ≡ true
    → any (λ c. c == b'/' || c == b'\\' || c == b':') s ≡ false
bytes_plain [] h = refl
bytes_plain (c ∷ cs) h =
    let (first, rest) = (&&-true_iff (is_segment_byte c) (all is_segment_byte cs)).0 h in
    rw (byte_plain c first) (bytes_plain cs rest)

path_is_safe_segment-IsPlainSegment : (s : Text) → path_is_safe_segment s ≡ true → IsPlainSegment s
unfolding path_is_safe_segment
path_is_safe_segment-IsPlainSegment s h = (
  (λ e. ground (arith, ap is_nil e)),
  (λ e. ground (arith, (text_eq_iff s (codes ".")).1 e)),
  (λ e. ground (arith, (text_eq_iff s (codes "..")).1 e)),
  bytes_plain s (ground arith),
)

All-Plain : (parts : List Text) → all path_is_safe_segment parts ≡ true → All IsPlainSegment parts
All-Plain [] h = tt
All-Plain (p ∷ ps) h =
    (path_is_safe_segment-IsPlainSegment p (ground arith), All-Plain ps (ground arith))

-- No part between the slashes of a path that path_is_safe_relative admits is empty, . or .., or
-- has a slash, a backslash or a colon in it.
pub path_is_safe_relative-IsPlainSegment :
    (path : Text) → path_is_safe_relative path ≡ true → All IsPlainSegment (split_on b'/' path)
path_is_safe_relative-IsPlainSegment path h =
    All-Plain (split_on b'/' path) (sym (path_is_safe_relative-split_on path) ∙ h)
