-- ===== src/Instance/Refs.antt =====
-- The reverse references of instances: an instance lists those that depend on it.
use innerstack.Prelude.{
  Bool, true, false, not, List, [], ◌∷◌, ◌++◌, Option, none, some, Text, if◌then◌else◌, ◌==◌,
  text_key, contains, keep_if,
}
use innerstack.Prelude.Map.{lookup}
use innerstack.Instance.{
  Depend, AppDeploy, Entry, Outside, Op, pure, ◌>>=◌, ◌>>◌, read, write_instance,
}

-- A set of names, without repetition.
abbrev pub add_name : Text → List Text → List Text
add_name name names = if contains names name then names else names ++ name ∷ []

-- `deployDependInstanceNames`
unfoldable pub names_of : List Depend → List Text → List Text
names_of [] names = names
names_of (d ∷ rest) names =
    names_of rest (if d.instance_name == [] then names else add_name d.instance_name names)

unfoldable pub depend_names : Option AppDeploy → List Text
unfolding names_of
depend_names none = []
depend_names (some d) = names_of d.depends []

abbrev pub without : Text → List Text → List Text
without name names = keep_if (λ n. not (n == name)) names

-- The references of one instance, or none where they stay.
unfoldable pub new_refs : Bool → Text → List Text → Option (List Text)
new_refs add name refs =
    if add
    then (if contains refs name then none else some (refs ++ name ∷ []))
    else (if not (contains refs name) then none else some (without name refs))

abbrev pub put_refs : Outside → Text → Bool → Text → Entry → Op (Unit {0})
put_refs out name add target e = elim (new_refs add name e.value.ref_by_instances) [
  | none ↦ pure tt
  | some refs ↦
      write_instance out target (record e.value { ref_by_instances = refs }) e.version none >>= λ v.
      pure tt
]

-- One round of `updateDependencyReverseRefs`, for the instance `target`.
unfoldable pub update_ref : Outside → Text → Bool → Text → Op (Unit {0})
unfolding new_refs write_instance
update_ref out name add target = do
  found ← read out (λ s. lookup target s.instances)
  elim found [ none ↦ pure tt | some e ↦ put_refs out name add target e ]

unfoldable pub update_all : Outside → Text → Bool → List Text → Op (Unit {0})
unfolding update_ref
update_all out name add [] = pure tt
update_all out name add (target ∷ rest) =
    update_ref out name add target >> update_all out name add rest

-- The previous names that are not among the next.
unfoldable pub dropped_names : List Text → List Text → List Text
dropped_names prev next = keep_if (λ n. not (contains next n)) prev

-- `updateDependencyReverseRefs`. The Go map of additions and removals is gone through in the order of
-- the names, additions first.
unfoldable pub update_reverse_refs : Outside → Text → List Text → List Text → Op (Unit {0})
unfolding update_all dropped_names
update_reverse_refs out name prev next =
    update_all out name true next >> update_all out name false (dropped_names prev next)
