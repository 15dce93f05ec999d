-- ===== src/Projects/Names.antt =====
-- Workspace names and paths of src/core/project_manager.cpp.
use tribios_vfs.Common.{
  ℕ, Bool, true, false, [], ◌∷◌, ◌++◌, Bytes, codes, bytes_eq, is_empty, length, ltb, leb, ◌==◌,
  ◌&&◌, ◌||◌, if◌then◌else◌,
}
use tribios_vfs.Paths.{slash, has_slash}
use tribios_vfs.Engine.Inode.{fnv}

-- `std::isalnum` in the C locale.
unfoldable pub is_alnum : ℕ → Bool
is_alnum c = (leb b'0' c && leb c b'9') || (leb b'A' c && leb c b'Z') || (leb b'a' c && leb c b'z')

unfoldable pub is_allowed : ℕ → Bool
unfolding is_alnum
is_allowed c = is_alnum c || (c == b'-') || (c == b'_') || (c == b'.')

unfoldable pub all_allowed : Bytes → Bool
unfolding is_allowed
all_allowed [] = true
all_allowed (c ∷ name) = is_allowed c && all_allowed name

unfoldable pub is_valid_workspace_name : Bytes → Bool
unfolding all_allowed bytes_eq
is_valid_workspace_name name =
    if is_empty name
      || ltb 64 (length name)
      || bytes_eq name (codes ".")
      || bytes_eq name (codes "..")
    then false
    else all_allowed name

-- The test of a stored name in `validate_project_storage_invariants`.
unfoldable pub is_unsafe_name : Bytes → Bool
unfolding has_slash bytes_eq
is_unsafe_name name =
    is_empty name || has_slash name || bytes_eq name (codes ".") || bytes_eq name (codes "..")

-- The operator `/` of std::filesystem::path.
ends_with_slash : Bytes → Bool
ends_with_slash [] = false
ends_with_slash (c ∷ []) = c == slash
ends_with_slash (c ∷ d ∷ s) = ends_with_slash (d ∷ s)

is_absolute : Bytes → Bool
is_absolute [] = false
is_absolute (c ∷ s) = c == slash

unfoldable pub path_join : Bytes → Bytes → Bytes
unfolding is_absolute ends_with_slash
path_join directory name =
    if is_absolute name
    then name
    else if is_empty directory || ends_with_slash directory
    then directory ++ name
    else directory ++ slash ∷ name

unfoldable pub stable_project_path_hash : Bytes → ℕ
unfolding fnv
stable_project_path_hash path = fnv path 14695981039346656037
