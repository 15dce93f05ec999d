-- ===== src/Engine/Ancestry.antt =====
-- Ancestors and tombstones: how `within` and `hides` go together.
use tribios_vfs.Common.{
  true, List, [], ◌∷◌, ◌++◌, Bytes, bytes_eq, bytes_eq_iff, starts_with, starts_with_sound,
  starts_with-append, ◌||◌, ◌≡◌, ◌≢◌, refl, arith, Bool-cases, inl, inr, ◌⊎◌, ◌∙◌, append_assoc,
}
use tribios_vfs.Paths.{slash}
use tribios_vfs.Engine.Host.{within}
use tribios_vfs.Engine.Visible.{contains}
use tribios_vfs.Engine.Hiding.{hides}
use tribios_vfs.Engine.Trees.{within_refl}
use tribios_vfs.Engine.Publish.{insert_tombstone}

within_cases : (a b : Bytes) → within a b ≡ true → (b ≡ a) ⊎ ((r : Bytes) × (b ≡ a ++ slash ∷ r))
unfolding within
within_cases a b h = elim (Bool-cases (bytes_eq b a)) [
  | inl e ↦ inl ((bytes_eq_iff b a).0 e)
  | inr e ↦
      let (r, q) = starts_with_sound (a ++ slash ∷ []) b (ground arith) in
      inr (r, q ∙ append_assoc a (slash ∷ []) r)
]

pub within-slash : (a r : Bytes) → within a (a ++ slash ∷ r) ≡ true
unfolding within
within-slash a r =
    let s : starts_with (a ++ slash ∷ []) (a ++ slash ∷ r) ≡ true =
      rw append_assoc at (starts_with-append (a ++ slash ∷ []) r) in
    ground arith

pub within_trans : (a b c : Bytes) → within a b ≡ true → within b c ≡ true → within a c ≡ true
within_trans a b c h k = go (within_cases a b h) (within_cases b c k)
  where
    go :
        (b ≡ a) ⊎ ((r : Bytes) × (b ≡ a ++ slash ∷ r))
        → (c ≡ b) ⊎ ((r : Bytes) × (c ≡ b ++ slash ∷ r))
        → within a c ≡ true
    go (inl e) _ = rw (← e) k
    go (inr x) (inl f) = rw f h
    go (inr (r, e)) (inr (s, f)) = rw (f, e, append_assoc a (slash ∷ r)) (within-slash a _)

pub hides-within :
    (ts : List Bytes) (p q : Bytes) → hides ts p ≡ true → within p q ≡ true → hides ts q ≡ true
unfolding hides
hides-within [] p q h w = cc
hides-within (t ∷ ts) p q h w = elim (Bool-cases (within t p)) [
  | inl e ↦ ground (arith, within_trans t p q e w, hides-within ts p q)
  | inr e ↦ ground (arith, hides-within ts p q)
]

contains-hides : (ts : List Bytes) (p : Bytes) → p ≢ [] → contains ts p ≡ true → hides ts p ≡ true
unfolding hides contains
contains-hides [] p n h = cc
contains-hides (t ∷ ts) [] n h = absurd (n refl)
contains-hides ([] ∷ ts) (c ∷ p) n h =
    ground (arith, bytes_eq_iff [] (c ∷ p), contains-hides ts (c ∷ p) n)
contains-hides ((b ∷ t) ∷ ts) (c ∷ p) n h = elim (Bool-cases (bytes_eq (b ∷ t) (c ∷ p))) [
  | inl e ↦
      let f : b ∷ t ≡ c ∷ p = (bytes_eq_iff (b ∷ t) (c ∷ p)).0 e in
      rw f (ground (arith, within_refl (c ∷ p)))
  | inr e ↦ ground (arith, contains-hides ts (c ∷ p) n)
]

-- Inserting a tombstone hides its path and what lies beneath, besides what was hidden.
pub hides-insert_tombstone :
    (ts : List Bytes) (p q : Bytes)
    → p ≢ []
    → hides (insert_tombstone p ts) q ≡ (within p q || hides ts q)
unfolding insert_tombstone
hides-insert_tombstone ts [] q n = absurd (n refl)
hides-insert_tombstone ts (c ∷ p) q n = elim (Bool-cases (contains ts (c ∷ p))) [
  | inl old ↦ elim (Bool-cases (within (c ∷ p) q)) [
    | inl w ↦ rw (old, w) (hides-within ts (c ∷ p) q (contains-hides ts (c ∷ p) n old) w)
    | inr w ↦ rw (old, w)
  ]
  | inr new ↦ rw new (unfold hides in ground arith)
]
