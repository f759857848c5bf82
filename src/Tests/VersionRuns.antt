-- ===== src/Tests/VersionRuns.antt =====
-- Runs of the version order of src/package_selector.c, and its theorems at them.
use cup.Base.{some, none, true, ◌≡◌, refl, codes, compare}
use cup.Errors.{Result}
use cup.Selector.{
  PackageVersionParts, parse_package_version, has_second_marker, base_parts, revised_parts,
  parse_numeric_dotted, parse_revision, is_number, package_release_compare, compare_numeric_text,
}
use cup.Selector.Numbers.{number_value, compare_numeric_text-compare}
use cup.Selector.Order.{compare_keys, version_key, package_release_compare-compare_keys}

abbrev plain : PackageVersionParts
plain = record { base = codes "14.1.0"; revision = none }

abbrev revised : PackageVersionParts
revised = record { base = codes "14.1.0"; revision = some (codes "2") }

plain_parsed : parse_package_version (codes "14.1.0") ≡ some plain
unfolding parse_package_version has_second_marker base_parts revised_parts parse_numeric_dotted
    parse_revision is_number
plain_parsed = refl

revised_parsed : parse_package_version (codes "14.1.0-rev2") ≡ some revised
unfolding parse_package_version has_second_marker base_parts revised_parts parse_numeric_dotted
    parse_revision is_number
revised_parsed = refl

package_release_compare-compare_keys_example :
    package_release_compare (codes "14.1.0") (codes "14.1.0-rev2")
    ≡ Result.ok (compare_keys (version_key plain) (version_key revised))
package_release_compare-compare_keys_example =
    package_release_compare-compare_keys (codes "14.1.0") (codes "14.1.0-rev2") plain revised
      plain_parsed revised_parsed

number_9 : is_number (codes "9") ≡ true
unfolding is_number
number_9 = refl

number_10 : is_number (codes "10") ≡ true
unfolding is_number
number_10 = refl

compare_numeric_text-compare_example :
    compare_numeric_text (codes "9") (codes "10")
    ≡ compare (number_value (codes "9")) (number_value (codes "10"))
compare_numeric_text-compare_example =
    compare_numeric_text-compare (codes "9") (codes "10") number_9 number_10
