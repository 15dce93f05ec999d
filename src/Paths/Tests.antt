-- ===== src/Paths/Tests.antt =====
-- Runs of src/core/paths.cpp, as in tests/unit/path_normalization_test.cpp, and the theorems at
-- concrete paths.
use tribios_vfs.Common.{◌∷◌, ◌++◌, codes, ◌≡◌, refl, ◌<◌, arith, length, ◌↔◌}
use tribios_vfs.Paths.{slash, normalize_relative, parent_of, join_relative}
use tribios_vfs.Paths.Normal.{IsNormal, normalize_relative-IsNormal, normalize_relative-eq_iff}
use tribios_vfs.Paths.Parent.{
  parent_of-join_relative, length-parent_of, normalize_relative-join_relative,
}

cannot_climb : normalize_relative (codes "../../etc/passwd") ≡ codes "etc/passwd"
unfolding normalize_relative
cannot_climb = refl

repeated_slashes : normalize_relative (codes "//src///main.cpp/") ≡ codes "src/main.cpp"
unfolding normalize_relative
repeated_slashes = refl

normalize_relative-IsNormal_example : IsNormal (normalize_relative (codes "/a/./../b//c/"))
normalize_relative-IsNormal_example = normalize_relative-IsNormal (codes "/a/./../b//c/")

normalize_relative-eq_iff_example :
    (normalize_relative (codes "a/../b") ≡ codes "a/../b") ↔ IsNormal (codes "a/../b")
normalize_relative-eq_iff_example = normalize_relative-eq_iff (codes "a/../b")

parent_of-join_relative_example : parent_of (join_relative (codes "a/b") (codes "c")) ≡ codes "a/b"
parent_of-join_relative_example = parent_of-join_relative (codes "a/b") (codes "c") (omega arith)

length-parent_of_example : length (parent_of (codes "a/b")) < length (codes "a/b")
length-parent_of_example = length-parent_of (codes "a/b") cc

normalize_relative-join_relative_example :
    normalize_relative (join_relative (normalize_relative (codes "a/..")) (codes "../b"))
    ≡ normalize_relative (codes "a/.." ++ slash ∷ codes "../b")
normalize_relative-join_relative_example =
    normalize_relative-join_relative (codes "a/..") (codes "../b")
