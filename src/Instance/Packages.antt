-- ===== src/Instance/Packages.antt =====
-- internal/zonelet/service_package.go: whether the packages of a spec are there and uploaded.
use innerstack.Prelude.{
  ℕ, Bool, true, false, not, ◌&&◌, ◌||◌, List, [], ◌∷◌, none, some, Text, bytes, if◌then◌else◌,
  text_key, ◌==◌, leb, length, any, number_key,
}
use innerstack.Instance.{
  SpecPackage, Package, Outside, Op, returns, package_invalid, pure, guard, ◌>>◌, ticked,
}

abbrev file_state_complete : Text
file_state_complete = bytes "complete"

abbrev to_front : ℕ → List Text → List Text
to_front c [] = (c ∷ []) ∷ []
to_front c (p ∷ rest) = (c ∷ p) ∷ rest

-- strings.Split at '.'.
unfoldable pub split_dots : Text → List Text
split_dots [] = [] ∷ []
split_dots (c ∷ rest) =
    let parts = split_dots rest in if c == 46 then [] ∷ parts else to_front c parts

unfoldable pub is_prefix : List Text → List Text → Bool
is_prefix [] parts = true
is_prefix (f ∷ rest) [] = false
is_prefix (f ∷ rest) (p ∷ parts) = f == p && is_prefix rest parts

-- `versionMatch`
unfoldable pub version_match : Text → Text → Bool
unfolding split_dots is_prefix
version_match filter version =
    if filter == []
    then true
    else if version == []
    then false
    else if leb 3 (length (split_dots filter))
    then filter == version
    else is_prefix (split_dots filter) (split_dots version)

-- The versions of the packages of a name that are uploaded.
unfoldable pub versions_of : Text → List Package → List Text
versions_of name [] = []
versions_of name (p ∷ rest) =
    let later = versions_of name rest in
    if p.file_state == file_state_complete && not (p.name == []) && p.name == name
    then elim p.release [ none ↦ later | some v ↦ v ∷ later ]
    else later

abbrev pub is_nil : List Text → Bool
is_nil [] = true
is_nil (x ∷ rest) = false

unfoldable pub check_packages : List Package → List SpecPackage → Op (Unit {0})
unfolding versions_of version_match
check_packages found [] = pure tt
check_packages found (dep ∷ rest) = do
  guard (not (dep.name == [])) (package_invalid dep.name)
  guard (not (is_nil (versions_of dep.name found))) (package_invalid dep.name)
  guard (dep.version == [] || any (version_match dep.version) (versions_of dep.name found))
      (package_invalid dep.name)
  check_packages found rest

-- `validatePackageDependencies`. The error of the scan is not looked at.
unfoldable pub validate_package_dependencies : Outside → List SpecPackage → Op (Unit {0})
unfolding check_packages
validate_package_dependencies out [] s = returns tt s
validate_package_dependencies out (dep ∷ rest) s =
    check_packages (if out.read_fails s.tick then [] else s.packages) (dep ∷ rest) (ticked s)
