-- ===== src/Loading/Tests.antt =====
-- registry/dependencies.py: examples. Here a version satisfies a hint that it is equal to.
use apcore_python.Prelude.{◌≡◌, refl, Bool, false, Option, none, some, [], ◌∷◌, String, str_eq}
use apcore_python.Loading.{
  DependencyInfo, Modules, load_order, load_error, not_all_loaded, dependency_not_found,
  resolve_dependencies,
}
use apcore_python.Loading.Order.{Loads, resolve_dependencies-Loads}

abbrev equal_version : String → String → Option Bool
equal_version actual hint = some (str_eq actual hint)

abbrev on : String → DependencyInfo
on id = record { module_id = id; version = none; optional = false }

abbrev chain : Modules
chain = ("c", on "a" ∷ on "b" ∷ []) ∷ ("b", on "a" ∷ []) ∷ ("a", []) ∷ []

resolve_dependencies-Loads_example :
    Loads chain (resolve_dependencies equal_version chain none none)
resolve_dependencies-Loads_example = resolve_dependencies-Loads equal_version chain none none

in_order : resolve_dependencies equal_version chain none none ≡ load_order ("a" ∷ "b" ∷ "c" ∷ [])
unfolding resolve_dependencies
in_order = refl

cycle :
    resolve_dependencies equal_version (("a", on "b" ∷ []) ∷ ("b", on "a" ∷ []) ∷ []) none none
    ≡ load_error not_all_loaded
unfolding resolve_dependencies
cycle = refl

unknown :
    resolve_dependencies equal_version (("a", on "x" ∷ []) ∷ []) none none
    ≡ load_error dependency_not_found
unfolding resolve_dependencies
unknown = refl

-- A dependency that is listed twice counts twice in the in-degree and once in the graph.
listed_twice :
    resolve_dependencies equal_version (("a", []) ∷ ("b", on "a" ∷ on "a" ∷ []) ∷ []) none none
    ≡ load_error not_all_loaded
unfolding resolve_dependencies
listed_twice = refl
