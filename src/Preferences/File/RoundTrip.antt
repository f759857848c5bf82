-- ===== src/Preferences/File/RoundTrip.antt =====
-- Loading preferences.txt as it was written (src/tool_preferences.c).
use cup.Base.{
  ℕ, suc, ◌+◌, ◌≤◌, ◌<◌, true, none, List, [], ◌∷◌, ◌++◌, ◌≡◌, refl, sym, ◌∙◌, ap, arith, length,
  length-append, All, Pairs, Fresh, Fresh-nil, Fresh-append_seen, Text, codes, text_eq,
}
use mathlib.Core.List.{append_assoc, append-nil}
use cup.Errors.{Result, ok}
use cup.Text.Reader.{is_skipped}
use cup.Text.Fields.{parse_key_value-found}
use cup.Text.Lines.{IsLine, visit_lines, each_line-document, reader_init-document, document-length}
use cup.Text.Lines
use cup.Journal.{max_metadata_line_len}
use cup.Preferences.{ToolPreference, max_tool_preferences}
use cup.Preferences.Valid.{Apart}
use cup.Preferences.Map.{search}
use cup.Registry.{max_identifier_len}
use cup.Preferences.Keeps.{Apart-search}
use cup.Preferences.Guards.{text_copy-tool}
use cup.Preferences.Outcomes.{preference_index-search}
use cup.Preferences.File.{
  LoadedPreferences, nothing_loaded, add_preference, preference_field, preference_line,
  preference_lines, end_preferences, parse_preferences, max_metadata_key_len, preference_key,
}
use cup.Preferences.File.Names.{Plain}
use cup.Preferences.File.Written.{
  preference_text, preference_text-IsLine, parse_key_value-preference, parse_preference_key-key,
}

abbrev loaded : List ToolPreference → LoadedPreferences
loaded items = record { format_seen = true; preferences = record { items = items } }

-- The line of an entry that is not there yet.
preference_line-text :
    (host : Text) (entry : ToolPreference) (before : List ToolPreference) (n : ℕ)
    → Plain host entry
    → search before entry.scope ≡ none
    → length before < max_tool_preferences
    → preference_line (ok host) (loaded before) n (preference_text entry)
      ≡ ok (loaded (before ++ (entry ∷ [])))
unfolding preference_line preference_field add_preference text_eq
preference_line-text host entry before n p new room = ground (
  arith,
  parse_key_value-preference host entry p,
  parse_preference_key-key host entry p,
  p.good_tool,
  preference_index-search (record { items = before }) entry.scope (omega (arith, room)),
  new,
  room,
  text_copy-tool entry.scope.component entry.tool p.good_tool,
)

abbrev pub texts : List ToolPreference → List Text
texts [] = []
texts (entry ∷ entries) = preference_text entry ∷ texts entries

visit_lines-texts :
    (host : Text) (before entries : List ToolPreference) (n : ℕ)
    → All (Plain host) entries
    → Fresh Apart before entries
    → Pairs Apart entries
    → length before + length entries ≤ max_tool_preferences
    → visit_lines (λ e. e) (preference_line (ok host)) n (loaded before) (texts entries)
      ≡ ok (loaded (before ++ entries))
unfolding visit_lines
visit_lines-texts host before [] n p new apart room =
    ap (λ items. ok (loaded items)) (sym (append-nil before))
visit_lines-texts host before (entry ∷ entries) n p new apart room =
    rw
      (preference_line-text host entry before (n + 1) p.0 (Apart-search entry before new.0)
        (omega (arith, room)))
      (visit_lines-texts host (before ++ (entry ∷ [])) entries (n + 1) p.1
          (Fresh-append_seen Apart entry before entries apart.0 new.1) apart.1
          (omega (arith, room, length-append before (entry ∷ [])))
        ∙ ap (λ items. ok (loaded items)) (append_assoc before (entry ∷ []) entries))

texts-IsLine :
    (host : Text) (entries : List ToolPreference)
    → All (Plain host) entries
    → All (IsLine max_metadata_line_len) (texts entries)
texts-IsLine host [] p = tt
texts-IsLine host (entry ∷ entries) p =
    (preference_text-IsLine host entry p.0, texts-IsLine host entries p.1)

pub preference_lines-document :
    (entries : List ToolPreference) → preference_lines entries ≡ Lines.document (texts entries)
unfolding preference_lines
preference_lines-document [] = refl
preference_lines-document (entry ∷ entries) =
    rw (preference_lines-document entries)
      (sym (append_assoc (preference_key entry) (b'=' ∷ entry.tool) _))

format_IsLine : IsLine max_metadata_line_len (codes "format=2")
unfolding is_skipped
format_IsLine = record { graphic = refl; counts = refl; fits = omega arith }

format_line :
    (host : Result Text) → preference_line host nothing_loaded 1 (codes "format=2") ≡ ok (loaded [])
unfolding preference_line preference_field text_eq
format_line host =
    rw
      (
        preference_line,
        parse_key_value-found (codes "format") (codes "2") max_metadata_key_len max_identifier_len
            refl refl refl refl refl (omega arith) (omega arith),
      )
      refl

visit_document :
    (host : Text) (entries : List ToolPreference)
    → All (Plain host) entries
    → Pairs Apart entries
    → length entries ≤ max_tool_preferences
    → visit_lines
        (λ e. e)
        (preference_line (ok host))
        0
        nothing_loaded
        (codes "format=2" ∷ texts entries)
      ≡ ok (loaded entries)
unfolding visit_lines
visit_document host entries p apart room =
    rw (format_line (ok host))
      (visit_lines-texts host [] entries 1 p (Fresh-nil Apart entries) apart (omega (arith, room)))

-- The loader on the lines of well-formed entries.
pub parse_preferences-document :
    (host : Text) (entries : List ToolPreference)
    → All (Plain host) entries
    → Pairs Apart entries
    → length entries ≤ max_tool_preferences
    → parse_preferences (ok host) (Lines.document (codes "format=2" ∷ texts entries))
      ≡ ok (record { items = entries })
unfolding parse_preferences end_preferences
parse_preferences-document host entries p apart room =
    let lines = codes "format=2" ∷ texts entries in
    let good : All (IsLine max_metadata_line_len) lines =
      (format_IsLine, texts-IsLine host entries p) in
    rw
      (
        parse_preferences,
        reader_init-document max_metadata_line_len (codes "format=2") (texts entries) good,
        each_line-document (λ e. e) (preference_line (ok host)) max_metadata_line_len lines
            (suc (length (Lines.document lines))) 0 nothing_loaded (omega arith) good
            (omega (arith, document-length lines)),
        visit_document host entries p apart room,
      )
      refl
