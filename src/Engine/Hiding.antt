-- ===== src/Engine/Hiding.antt =====
-- What a tombstone hides: `base_is_visible` of src/core/workspace_engine.cpp against a description
-- that does not walk the path.
use mathlib.Core.List.{cons-ne-nil}
use tribios_vfs.Common.{
  ◌⊎◌, ℕ, zero, suc, ◌≤◌, Bool, true, false, List, [], ◌∷◌, Bytes, bytes_eq, bytes_eq_iff,
  starts_with, is_empty, length, ◌&&◌, ◌||◌, not, ◌≡◌, refl, arith, Bool-cases, inl, inr, ◌∙◌,
}
use tribios_vfs.Paths.{has_slash, parent_of}
use tribios_vfs.Paths.Parent.{length-parent_of}
use tribios_vfs.Engine.Host.{within}
use tribios_vfs.Engine.Visible.{contains, no_tombstone, base_is_visible}

-- Some tombstone is the path itself or one of its ancestors.
unfoldable pub hides : List Bytes → Bytes → Bool
hides [] path = false
hides (t ∷ ts) path = not (is_empty t) && within t path || hides ts path

within-parent_of_slash :
    (t p : Bytes) → within t p ≡ (bytes_eq p t || has_slash p && within t (parent_of p))
unfolding within has_slash parent_of bytes_eq starts_with
within-parent_of_slash t [] = ground arith
within-parent_of_slash [] (c ∷ p) = ground arith
within-parent_of_slash (b ∷ t) (c ∷ p) = ground (arith, within-parent_of_slash t p)

bytes_eq_comm : (s t : Bytes) → bytes_eq s t ≡ bytes_eq t s
bytes_eq_comm s t = ground (arith, bytes_eq_iff s t, bytes_eq_iff t s)

no_slash : (c : ℕ) (p : Bytes) → has_slash (c ∷ p) ≡ false → parent_of (c ∷ p) ≡ []
unfolding has_slash parent_of
no_slash c p h = ground arith

within_parent :
    (b : ℕ) (t : Bytes) (c : ℕ) (p : Bytes)
    → within (b ∷ t) (c ∷ p) ≡ (bytes_eq (b ∷ t) (c ∷ p) || within (b ∷ t) (parent_of (c ∷ p)))
within_parent b t c p =
    within-parent_of_slash (b ∷ t) (c ∷ p) ∙ unslash (Bool-cases (has_slash (c ∷ p)))
  where
    unslash :
        (has_slash (c ∷ p) ≡ true) ⊎ (has_slash (c ∷ p) ≡ false)
        → (bytes_eq (c ∷ p) (b ∷ t) || has_slash (c ∷ p) && within (b ∷ t) (parent_of (c ∷ p)))
          ≡ (bytes_eq (b ∷ t) (c ∷ p) || within (b ∷ t) (parent_of (c ∷ p)))
    unslash (inl e) = rw e (ground (arith, bytes_eq_comm (b ∷ t) (c ∷ p)))
    unslash (inr e) =
        rw (e, no_slash c p e)
          (unfold within bytes_eq starts_with in ground (arith, bytes_eq_comm p t))

hides_root : (ts : List Bytes) → hides ts [] ≡ false
unfolding hides within bytes_eq starts_with
hides_root [] = refl
hides_root ([] ∷ ts) = hides_root ts
hides_root ((b ∷ t) ∷ ts) = hides_root ts

hides_step :
    (ts : List Bytes) (c : ℕ) (p : Bytes)
    → hides ts (c ∷ p) ≡ (contains ts (c ∷ p) || hides ts (parent_of (c ∷ p)))
unfolding hides contains
hides_step [] c p = refl
hides_step ([] ∷ ts) c p = unfold bytes_eq in hides_step ts c p
hides_step ((b ∷ t) ∷ ts) c p = ground (arith, within_parent b t c p, hides_step ts c p)

no_tombstone_lem :
    (n : ℕ) (ts : List Bytes) (p : Bytes) → length p ≤ n → no_tombstone n ts p ≡ not (hides ts p)
unfolding no_tombstone
no_tombstone_lem zero ts [] h = rw hides_root
no_tombstone_lem zero ts (c ∷ p) h = absurd (omega arith)
no_tombstone_lem (suc n) ts [] h = rw hides_root
no_tombstone_lem (suc n) ts (c ∷ p) h =
    let shorter : length (parent_of (c ∷ p)) ≤ n =
      omega (arith, length-parent_of (c ∷ p) (cons-ne-nil c p)) in
    ground (arith, hides_step ts c p, no_tombstone_lem n ts (parent_of (c ∷ p)) shorter)

-- A path of the Base state is visible exactly if no tombstone is the path itself or the path of a
-- directory above it; a path whose name only begins like a tombstone is not hidden.
pub base_is_visible_lem :
    (ts : List Bytes) (path : Bytes) → base_is_visible ts path ≡ not (hides ts path)
unfolding base_is_visible
base_is_visible_lem ts path = no_tombstone_lem (length path) ts path (omega arith)
