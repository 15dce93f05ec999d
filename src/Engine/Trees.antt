-- ===== src/Engine/Trees.antt =====
-- Laws of the host trees of `Engine.Host`: what a path shows after a removal or a rename.
use tribios_vfs.Common.{
  append_assoc, append-nil, ℕ, true, false, [], ◌∷◌, ◌++◌, Bytes, bytes_eq, bytes_eq_iff,
  starts_with, starts_with-append, none, some, if◌then◌else◌, ◌≡◌, ◌≢◌, refl, arith, sym,
}
use tribios_vfs.Paths.{slash, join_relative}
use tribios_vfs.Engine.Host.{Tree, lstat, within, remove_all, place, graft, renamed}

pub lstat-append :
    (s t : Tree) (p : Bytes)
    → lstat (s ++ t) p ≡ elim (lstat s p) [ none ↦ lstat t p | some n ↦ some n ]
unfolding lstat
lstat-append [] t p = refl
lstat-append ((k, n) ∷ s) t p = ground (arith, lstat-append s t p)

-- After a removal the path and all beneath it are gone, and nothing else is.
pub lstat-remove_all :
    (top : Bytes) (t : Tree) (p : Bytes)
    → lstat (remove_all top t) p ≡ (if within top p then none else lstat t p)
unfolding lstat remove_all
lstat-remove_all top [] p = ground arith
lstat-remove_all top ((k, n) ∷ t) p = ground (arith, lstat-remove_all top t p, bytes_eq_iff k p)

pub within_refl : (top : Bytes) → within top top ≡ true
unfolding within
within_refl top = ground (arith, (bytes_eq_iff top top).1 refl)

-- An entry behind its directory: what stands below the directory, with its slash.
below : Bytes → Bytes
below [] = []
below (c ∷ k) = slash ∷ c ∷ k

place-append : (top k : Bytes) → top ≢ [] → place top k ≡ top ++ below k
unfolding place join_relative below
place-append top [] h = sym (append-nil top)
place-append [] (c ∷ k) h = absurd (h refl)
place-append (b ∷ top) (c ∷ k) h = refl

bytes_eq-append_left : (s x y : Bytes) → bytes_eq (s ++ x) (s ++ y) ≡ bytes_eq x y
unfolding bytes_eq
bytes_eq-append_left [] x y = refl
bytes_eq-append_left (c ∷ s) x y = ground (arith, bytes_eq-append_left s x y)

bytes_eq-place : (top j k : Bytes) → top ≢ [] → bytes_eq (place top j) (place top k) ≡ bytes_eq j k
bytes_eq-place top j k h =
    rw (place-append top j h, place-append top k h, bytes_eq-append_left) (tails j k)
  where
    tails : (j k : Bytes) → bytes_eq (below j) (below k) ≡ bytes_eq j k
    tails [] [] = unfold bytes_eq below in refl
    tails [] (c ∷ k) = unfold bytes_eq below in refl
    tails (b ∷ j) [] = unfold bytes_eq below in refl
    tails (b ∷ j) (c ∷ k) = unfold bytes_eq below in ground arith

starts_with_below :
    (top : Bytes) (c : ℕ) (k : Bytes)
    → starts_with (top ++ slash ∷ []) (top ++ slash ∷ c ∷ k) ≡ true
starts_with_below top c k = rw append_assoc at (starts_with-append (top ++ slash ∷ []) (c ∷ k))

pub within-place : (top k : Bytes) → top ≢ [] → within top (place top k) ≡ true
within-place top k h = rw (place-append top k h) (go k)
  where
    go : (k : Bytes) → within top (top ++ below k) ≡ true
    go [] = unfold below in rw append-nil (within_refl top)
    go (c ∷ k) = unfold below within in ground (arith, starts_with_below top c k)

pub lstat-graft_outside :
    (top : Bytes) (s : Tree) (p : Bytes)
    → top ≢ []
    → within top p ≡ false
    → lstat (graft top s) p ≡ none
unfolding lstat graft
lstat-graft_outside top [] p h w = refl
lstat-graft_outside top ((k, n) ∷ s) p h w =
    ground
      (arith, lstat-graft_outside top s p h w, bytes_eq_iff (place top k) p, within-place top k h)

pub lstat-graft :
    (top : Bytes) (s : Tree) (k : Bytes) → top ≢ [] → lstat (graft top s) (place top k) ≡ lstat s k
unfolding lstat graft
lstat-graft top [] k h = refl
lstat-graft top ((j, n) ∷ s) k h = rw (bytes_eq-place top j k h, lstat-graft top s k h)

-- After a rename, a path outside the destination shows what it did.
pub lstat-renamed_outside :
    (s t : Tree) (to p : Bytes)
    → to ≢ []
    → within to p ≡ false
    → lstat (renamed s t to) p ≡ lstat t p
unfolding renamed
lstat-renamed_outside s t to p h w =
    rw (lstat-append, lstat-graft_outside to s p h w, lstat-remove_all, w)

-- After a rename, the destination and all beneath it show the staged tree and nothing else.
pub lstat-renamed :
    (s t : Tree) (to k : Bytes) → to ≢ [] → lstat (renamed s t to) (place to k) ≡ lstat s k
unfolding renamed
lstat-renamed s t to k h = ground (
  arith,
  lstat-append (graft to s) (remove_all to t) (place to k),
  lstat-graft to s k h,
  lstat-remove_all to t (place to k),
  within-place to k h,
)
