-- ===== src/Intel/Baseline.antt =====
-- crates/secureops-intel/src/baseline.rs: `compare_baseline`. The order of the lists is the order in
-- which the maps are read.
pub mod Compared
use secureops.Prelude.{
  Bool, true, false, Option, none, some, List, [], ◌∷◌, String, str_eq, if◌then◌else◌,
}
use secureops.Prelude.Map
use secureops.Prelude.Map.{String-Key}
use secureops.Core.Runtime.{HashBaseline, BaselineComparison}

-- A path of the baseline, with what is found at it now.
abbrev pub is_removed : Option String → Bool
is_removed none = true
is_removed (some c) = false

abbrev pub is_modified : String → Option String → Bool
is_modified hash none = false
is_modified hash (some c) = if str_eq c hash then false else true

-- The first loop.
pub removed_of : List (String × String) → List (String × String) → List String
removed_of current [] = []
removed_of current ((path, hash) ∷ files) =
    let rest = removed_of current files in
    if is_removed (Map.get path current) then path ∷ rest else rest

pub modified_of : List (String × String) → List (String × String) → List String
modified_of current [] = []
modified_of current ((path, hash) ∷ files) =
    let rest = modified_of current files in
    if is_modified hash (Map.get path current) then path ∷ rest else rest

-- The second loop.
pub added_of : List (String × String) → List (String × String) → List String
added_of files [] = []
added_of files ((path, hash) ∷ current) =
    let rest = added_of files current in
    if is_removed (Map.get path files) then path ∷ rest else rest

unfoldable pub compare_baseline : HashBaseline → List (String × String) → BaselineComparison
unfolding removed_of modified_of added_of
compare_baseline baseline current = record {
  added = added_of baseline.files current;
  modified = modified_of current baseline.files;
  removed = removed_of current baseline.files;
}
