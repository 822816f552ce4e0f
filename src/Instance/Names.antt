-- ===== src/Instance/Names.antt =====
-- pkg/inapi/valid.go: labels of names and semantic versions. `is_valid` is IsValid of golang.org/x/mod/semver.
use innerstack.Prelude.{
  ℕ, suc, Bool, false, not, ◌&&◌, ◌||◌, [], ◌∷◌, Text, if◌then◌else◌, text_key, number_key, ◌==◌,
  leb, length,
}
use innerstack.Decimal.{is_digit}

-- A lower-case letter or a digit.
abbrev is_alnum : ℕ → Bool
is_alnum c = (leb 97 c && leb c 122) || is_digit c

-- The rest of a label: letters, digits and hyphens, of which the last is not a hyphen.
unfoldable pub label_rest : Text → Bool
label_rest [] = false
label_rest (c ∷ []) = is_alnum c
label_rest (c ∷ d ∷ rest) = (is_alnum c || c == 45) && label_rest (d ∷ rest)

unfoldable pub matches_label : Text → Bool
unfolding label_rest
matches_label [] = false
matches_label (c ∷ []) = is_alnum c
matches_label (c ∷ d ∷ rest) = is_alnum c && label_rest (d ∷ rest) && leb (length rest) 61

-- `DNSLabelValid`
unfoldable pub dns_label_valid : Text → Bool
unfolding matches_label
dns_label_valid name =
    not (name == []) && matches_label name && leb 3 (length name) && leb (length name) 63

-- The text before the first '-' or '+'.
unfoldable pub core_of : Text → Text
core_of [] = []
core_of (c ∷ rest) = let core = core_of rest in if c == 45 || c == 43 then [] else c ∷ core

unfoldable pub count_dots : Text → ℕ
count_dots [] = 0
count_dots (c ∷ rest) = if c == 46 then suc (count_dots rest) else count_dots rest

-- `SemverValid`
unfoldable pub semver_valid : (Text → Bool) → Text → Bool
unfolding core_of count_dots
semver_valid is_valid version =
    not (version == []) && is_valid (118 ∷ version) && count_dots (core_of version) == 2
