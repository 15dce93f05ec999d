-- ===== src/Recovery/Thinned.antt =====
-- A `remove_all` that a crash cuts short, in src/core/workspace_engine.cpp, and the one of
-- src/core/recovery.cpp that ends it.
use tribios_vfs.Common.{
  Bool, [], ◌∷◌, Bytes, bytes_eq, bytes_eq_iff, none, not, ◌&&◌, if◌then◌else◌, ◌≡◌, refl, arith,
}
use tribios_vfs.Engine.Host.{Tree, lstat, within, remove_all}

-- The top of what is removed goes last; of the entries beneath it, those that `keep` names are left.
unfoldable pub thinned : (Bytes → Bool) → Bytes → Tree → Tree
thinned keep top [] = []
thinned keep top ((k, n) ∷ t) =
    let rest = thinned keep top t in
    if within top k && (not (bytes_eq k top) && not (keep k)) then rest else (k, n) ∷ rest

pub remove_all-thinned :
    (keep : Bytes → Bool) (top : Bytes) (t : Tree)
    → remove_all top (thinned keep top t) ≡ remove_all top t
unfolding remove_all thinned
remove_all-thinned keep top [] = refl
remove_all-thinned keep top ((k, n) ∷ t) = ground (arith, remove_all-thinned keep top t)

pub lstat-thinned :
    (keep : Bytes → Bool) (top : Bytes) (t : Tree) (p : Bytes)
    → lstat (thinned keep top t) p
      ≡ (if within top p && (not (bytes_eq p top) && not (keep p)) then none else lstat t p)
unfolding lstat thinned
lstat-thinned keep top [] p = ground arith
lstat-thinned keep top ((k, n) ∷ t) p = ground (arith, lstat-thinned keep top t p, bytes_eq_iff k p)
