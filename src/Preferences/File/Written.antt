-- ===== src/Preferences/File/Written.antt =====
-- How one written line of preferences.txt is read back (src/tool_preferences.c).
use cup.Base.{
  ℕ, ◌<◌, Bool, true, not, [], ◌∷◌, ◌++◌, ◌≡◌, refl, ◌∙◌, arith, ◌==◌, length, length-append, all,
  Text, codes, text_eq,
}
use cup.Errors.{ok}
use cup.Text.{text_split_exact, text_parse_key_value}
use cup.Text.Fields.{is_graphic, parse_key_value-found}
use cup.Text.Reader.{is_skipped}
use cup.Journal.{max_metadata_line_len}
use cup.Text.Lines.{all_append, IsLine}
use cup.Registry.{max_identifier_len, max_platform_len}
use cup.Preferences.{ToolPreference}
use cup.Preferences.File.{
  max_metadata_key_len, preferred_scope, parse_preference_key, preference_key,
}
use cup.Registry.Names.{Bytes, plain-Bytes}
use cup.Text.Split.{split_fields-name, split_fields-last, bind_name}
use cup.Preferences.File.Names.{Plain}

preferred-Bytes : Bytes (codes "preferred")
preferred-Bytes = record {
  graphic = refl;
  no_equals = refl;
  no_dot = refl;
  no_at = refl;
  ne_nil = refl;
  short = omega arith;
}

split_key :
    (host : Text) (entry : ToolPreference)
    → Plain host entry
    → text_split_exact
        (preference_key entry)
        b'.'
        (max_identifier_len ∷ max_platform_len ∷ max_identifier_len ∷ [])
      ≡ ok (codes "preferred" ∷ entry.scope.target_platform ∷ entry.scope.component ∷ [])
unfolding text_split_exact
split_key host entry p =
    let target = plain-Bytes entry.scope.target_platform p.target in
    let component = plain-Bytes entry.scope.component p.component in
    split_fields-name (codes "preferred")
      (entry.scope.target_platform ++ (b'.' ∷ entry.scope.component)) max_identifier_len
      max_platform_len (max_identifier_len ∷ []) preferred-Bytes (omega arith)
    ∙ bind_name (codes "preferred") (
        split_fields-name entry.scope.target_platform entry.scope.component max_platform_len
          max_identifier_len [] target (omega arith)
        ∙ bind_name entry.scope.target_platform
            (split_fields-last entry.scope.component max_identifier_len component (omega arith)))

-- The key of an entry, written and read.
pub parse_preference_key-key :
    (host : Text) (entry : ToolPreference)
    → Plain host entry
    → parse_preference_key (ok host) (preference_key entry) ≡ ok entry.scope
unfolding parse_preference_key preferred_scope text_eq
parse_preference_key-key host entry p = rw (parse_preference_key, split_key host entry p) p.scope

-- The line of an entry, without its newline.
abbrev pub preference_text : ToolPreference → Text
preference_text entry = preference_key entry ++ (b'=' ∷ entry.tool)

key_all :
    (q : ℕ → Bool) (entry : ToolPreference)
    → all q (codes "preferred.") ≡ true
    → all q (b'.' ∷ []) ≡ true
    → all q entry.scope.target_platform ≡ true
    → all q entry.scope.component ≡ true
    → all q (preference_key entry) ≡ true
key_all q entry a b t c = all_append q (codes "preferred.") _ a (
    all_append q entry.scope.target_platform (b'.' ∷ entry.scope.component) t
      (ground (arith, b, c)))

key_length :
    (host : Text) (entry : ToolPreference) → Plain host entry → length (preference_key entry) < 80
key_length host entry p =
    let target = plain-Bytes entry.scope.target_platform p.target in
    let component = plain-Bytes entry.scope.component p.component in
    omega (
      arith,
      length-append entry.scope.target_platform (b'.' ∷ entry.scope.component),
      target.short,
      component.short,
    )

pub preference_text-IsLine :
    (host : Text) (entry : ToolPreference)
    → Plain host entry
    → IsLine max_metadata_line_len (preference_text entry)
unfolding is_skipped
preference_text-IsLine host entry p =
    let target = plain-Bytes entry.scope.target_platform p.target in
    let component = plain-Bytes entry.scope.component p.component in
    let tool = plain-Bytes entry.tool p.tool in
    record {
      graphic =
          all_append is_graphic (preference_key entry) (b'=' ∷ entry.tool)
            (key_all is_graphic entry refl refl target.graphic component.graphic)
            (ground (arith, tool.graphic));
      counts = refl;
      fits = omega (
        arith,
        length-append (preference_key entry) (b'=' ∷ entry.tool),
        key_length host entry p,
        tool.short,
      );
    }

pub parse_key_value-preference :
    (host : Text) (entry : ToolPreference)
    → Plain host entry
    → text_parse_key_value (preference_text entry) max_metadata_key_len max_identifier_len
      ≡ ok (preference_key entry, entry.tool)
parse_key_value-preference host entry p =
    let target = plain-Bytes entry.scope.target_platform p.target in
    let component = plain-Bytes entry.scope.component p.component in
    let tool = plain-Bytes entry.tool p.tool in
    parse_key_value-found (preference_key entry) entry.tool max_metadata_key_len max_identifier_len
      (key_all is_graphic entry refl refl target.graphic component.graphic)
      (key_all (λ b. not (b == b'=')) entry refl refl target.no_equals component.no_equals) refl
      tool.graphic tool.ne_nil (omega (arith, key_length host entry p)) tool.short
