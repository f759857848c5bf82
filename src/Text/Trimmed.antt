-- ===== src/Text/Trimmed.antt =====
-- What `text_trim` leaves of a line (src/text.c), told without its loops.
use cup.Base.{
  ℕ, Bool, true, false, not, ◌&&◌, ◌||◌, [], ◌∷◌, ◌++◌, ◌≡◌, refl, ap, ◌∙◌, arith, ◌==◌, all, Text,
}
use cup.Text.{text_trim, skip_blanks, keep_first, drop_blank_end, is_blank}
use cup.Text.Reader.{is_skipped}

-- A space or a tab.
abbrev pub is_gap : ℕ → Bool
is_gap c = c == 0x20 || c == 0x09

abbrev pub ends_in_gap : Text → Bool
ends_in_gap [] = false
ends_in_gap (c ∷ []) = is_gap c
ends_in_gap (c ∷ d ∷ cs) = ends_in_gap (d ∷ cs)

-- A text that neither begins nor ends with a gap, and is no comment.
abbrev pub starts_content : Text → Bool
starts_content [] = false
starts_content (c ∷ cs) = not (is_gap c) && not (c == 0x23)

pub record IsContent (text : Text) : Type 0 where
  pub starts : starts_content text ≡ true
  pub ends : ends_in_gap text ≡ false

skip_blanks-gaps :
    (before more : Text)
    → all is_gap before ≡ true
    → skip_blanks (before ++ more) ≡ skip_blanks more
unfolding skip_blanks is_blank
skip_blanks-gaps [] more h = refl
skip_blanks-gaps (c ∷ before) more h =
    ground (arith, skip_blanks-gaps before more (ground (arith, h)), h)

drop_blank_end-gaps : (after : Text) → all is_gap after ≡ true → drop_blank_end after ≡ []
unfolding drop_blank_end is_blank
drop_blank_end-gaps [] h = refl
drop_blank_end-gaps (c ∷ after) h = ground (arith, drop_blank_end-gaps after (ground (arith, h)), h)

drop_blank_end-append :
    (c : ℕ) (body after : Text)
    → all is_gap after ≡ true
    → ends_in_gap (c ∷ body) ≡ false
    → drop_blank_end ((c ∷ body) ++ after) ≡ c ∷ body
unfolding drop_blank_end is_blank
drop_blank_end-append c [] after g e = ground (arith, drop_blank_end-gaps after g, e)
drop_blank_end-append c (d ∷ body) after g e =
    ground (arith, drop_blank_end-append d body after g e)

keep_first-append :
    (c : ℕ) (body after : Text)
    → all is_gap after ≡ true
    → ends_in_gap (c ∷ body) ≡ false
    → keep_first ((c ∷ body) ++ after) ≡ c ∷ body
unfolding keep_first
keep_first-append c [] after g e = ap (λ t. c ∷ t) (drop_blank_end-gaps after g)
keep_first-append c (d ∷ body) after g e = ap (λ t. c ∷ t) (drop_blank_end-append d body after g e)

-- The gaps round a content go.
pub text_trim-content :
    (before content after : Text)
    → all is_gap before ≡ true
    → IsContent content
    → all is_gap after ≡ true
    → text_trim (before ++ (content ++ after)) ≡ content
unfolding text_trim skip_blanks is_blank
text_trim-content before [] after b c a = absurd (ground (arith, c.starts))
text_trim-content before (x ∷ xs) after b c a =
    ap keep_first {y = (x ∷ xs) ++ after}
      (skip_blanks-gaps before ((x ∷ xs) ++ after) b ∙ ground (arith, c.starts))
    ∙ keep_first-append x xs after a c.ends

pub content-is_skipped : (content : Text) → IsContent content → is_skipped content ≡ false
unfolding is_skipped
content-is_skipped [] c = absurd (ground (arith, c.starts))
content-is_skipped (x ∷ xs) c = ground (arith, c.starts)

-- Gaps alone, or a comment behind gaps.
pub data IsNoContent (line : Text) : Type 0 where
  only_gaps : all is_gap line ≡ true → IsNoContent line
  comment_line :
      (before comment : Text)
      → all is_gap before ≡ true
      → line ≡ before ++ (0x23 ∷ comment)
      → IsNoContent line

only_gaps-skip_blanks : (line : Text) → all is_gap line ≡ true → skip_blanks line ≡ []
unfolding skip_blanks is_blank
only_gaps-skip_blanks [] g = refl
only_gaps-skip_blanks (c ∷ line) g =
    ground (arith, g, only_gaps-skip_blanks line (ground (arith, g)))

pub no_content-is_skipped : (line : Text) → IsNoContent line → is_skipped (text_trim line) ≡ true
unfolding text_trim is_skipped keep_first skip_blanks is_blank
no_content-is_skipped line (only_gaps g) =
    ap (λ t. is_skipped (keep_first t)) (only_gaps-skip_blanks line g)
no_content-is_skipped line (comment_line before comment g e) =
    rw (e, skip_blanks-gaps before (0x23 ∷ comment) g) refl
