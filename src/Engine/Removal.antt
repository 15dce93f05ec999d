-- ===== src/Engine/Removal.antt =====
-- What `unlink` and `rmdir` of src/core/workspace_engine.cpp leave visible.
use mathlib.Core.List.{cons-ne-nil}
use tribios_vfs.Common.{
  ℕ, Bool, true, false, List, [], ◌∷◌, Bytes, is_empty, Option, none, some, ◌==◌, ◌&&◌, ◌||◌, not,
  if◌then◌else◌, ◌≡◌, ◌≢◌, refl, arith, Bool-cases, inl, inr, ◌∙◌, ap,
}
use tribios_vfs.Paths.{normalize_relative}
use tribios_vfs.Store.Types.{Database, RecoveryOperation, publishing}
use tribios_vfs.Store.Sql.{Outcome}
use tribios_vfs.Engine.Host.{
  Node, Tree, Host, ok, fail, lstat, within, is_dir, is_lnk, upper_remove, upper_sync, eisdir,
  ebusy,
}
use tribios_vfs.Engine.State.{Engine, DirEntry}
use tribios_vfs.Engine.Listing.{forget_cached_directory_entries, merge_visible_directory_entries}
use tribios_vfs.Engine.Visible.{
  base_is_visible, missing, find_entry, find_visible_entry_layer, found_in, found_in_base,
}
use tribios_vfs.Engine.Hiding.{hides, base_is_visible_lem}
use tribios_vfs.Engine.Trees.{lstat-remove_all}
use tribios_vfs.Engine.Ancestry.{hides-within, hides-insert_tombstone}
use tribios_vfs.Engine.Stage.{visible_node}
use tribios_vfs.Engine.Publish.{
  Status, has_entry, exists, apply_tombstones, finish, finished, removal, remove_upper,
  remove_phased, remove_begun, remove_visible_entry_atomically,
}
use tribios_vfs.Engine.Mutations.{unlink, unlink_node, rmdir, rmdir_node}

-- Every entry of a tree stands in a directory of it: where there is no entry, none lies beneath.
abbrev pub IsClosed : Tree → Type 0
IsClosed t = (p q : Bytes) → within p q ≡ true → lstat t p ≡ none → lstat t q ≡ none

-- The removal took effect.
record IsRemoved (o : RecoveryOperation) (e e' : Engine) : Type 0 where
  upper : (q : Bytes) → lstat e'.upper q ≡ (if within o.path q then none else lstat e.upper q)
  tombstones : e'.tombstones ≡ apply_tombstones o e.tombstones
  base : e'.base ≡ e.base

abbrev RemovedEnding : RecoveryOperation → Engine → Status × Engine → Type 0
RemovedEnding o e (ok u, e') = IsRemoved o e e'
RemovedEnding o e (fail c, e') = Unit

finished-Removed :
    (o q : RecoveryOperation) (e s : Engine) (r : Outcome (Unit {0}) × Database)
    → IsRemoved o e (record s { tombstones = apply_tombstones q s.tombstones })
    → RemovedEnding o e (finished q r s)
unfolding finished
finished-Removed o q e s (Outcome.error m, db) p = tt
finished-Removed o q e s (Outcome.ok u, db) p = record {
  upper = p.upper;
  tombstones = p.tombstones;
  base = p.base;
}

pub no_entry : (t : Tree) (p : Bytes) → has_entry t p ≡ false → lstat t p ≡ none
unfolding has_entry exists
no_entry t p h = ground arith

remove_upper-Removed :
    (h : Host) (o : RecoveryOperation) (e : Engine) (id : ℕ) (d : Database)
    (c : List (Bytes × List DirEntry))
    → IsClosed e.upper
    → RemovedEnding o e
        (remove_upper h (record o { id = id; phase = publishing }) (record e { db = d; cache = c }))
unfolding remove_upper apply_tombstones finish
remove_upper-Removed h o e id d c closed = elim (Bool-cases (has_entry e.upper o.path)) [
  | inl there ↦ elim (Bool-cases (h.fault upper_remove == 0)) [
    | inr f ↦ rw (there, f) tt
    | inl f ↦ elim (Bool-cases (h.fault upper_sync == 0)) [
      | inr g ↦ rw (there, f, g) tt
      | inl g ↦
          rw (there, f, g)
            (finished-Removed o _ e _ _ (record {
              upper = λ q. lstat-remove_all o.path e.upper q;
              tombstones = refl;
              base = refl;
            }))
    ]
  ]
  | inr gone ↦
      rw gone (
        finished-Removed o _ e _ _
          (record { upper = nothing gone; tombstones = refl; base = refl }))
]
  where
    nothing :
        has_entry e.upper o.path ≡ false
        → (q : Bytes) → lstat e.upper q ≡ (if within o.path q then none else lstat e.upper q)
    nothing g q = elim (Bool-cases (within o.path q)) [
      | inl w ↦ rw w (closed o.path q w (no_entry e.upper o.path g))
      | inr w ↦ rw w
    ]

remove_phased-Removed :
    (h : Host) (o : RecoveryOperation) (e : Engine) (id : ℕ) (r : Outcome (Unit {0}) × Database)
    (d : Database) (c : List (Bytes × List DirEntry))
    → IsClosed e.upper
    → RemovedEnding o e (remove_phased h (record o { id = id }) r (record e { db = d; cache = c }))
unfolding remove_phased
remove_phased-Removed h o e id (Outcome.error m, d') d c closed = tt
remove_phased-Removed h o e id (Outcome.ok u, d') d c closed =
    remove_upper-Removed h o e id d' c closed

remove_begun-Removed :
    (h : Host) (o : RecoveryOperation) (e : Engine) (r : Outcome ℕ × Database)
    (c : List (Bytes × List DirEntry))
    → IsClosed e.upper
    → RemovedEnding o e (remove_begun h o r (record e { cache = c }))
unfolding remove_begun
remove_begun-Removed h o e (Outcome.error m, d) c closed = tt
remove_begun-Removed h o e (Outcome.ok id, d) c closed = remove_phased-Removed h o e id _ d c closed

remove-Removed :
    (h : Host) (kind relative : Bytes) (e : Engine)
    → IsClosed e.upper
    → RemovedEnding (removal kind relative e) e (remove_visible_entry_atomically h kind relative e)
unfolding remove_visible_entry_atomically forget_cached_directory_entries
remove-Removed h kind relative e closed =
    remove_begun-Removed h (removal kind relative e) e _ _ closed

-- What is seen at each path after a removal that succeeds.
abbrev Gone : Bytes → Engine → Status × Engine → Type 0
Gone relative e (ok u, e') =
    (q : Bytes)
    → find_visible_entry_layer e' q
      ≡ (if within relative q then missing else find_visible_entry_layer e q)
Gone relative e (fail c, e') = Unit

abbrev pub GoneAt : Bytes → Bytes → Engine → Status × Engine → Type 0
GoneAt relative q e (ok u, e') =
    find_visible_entry_layer e' q
    ≡ (if within relative q then missing else find_visible_entry_layer e q)
GoneAt relative q e (fail c, e') = Unit

at_path :
    (relative q : Bytes) (e : Engine) (r : Status × Engine)
    → Gone relative e r
    → GoneAt relative q e r
at_path relative q e (ok u, e') g = g q
at_path relative q e (fail c, e') g = tt

-- No entry above the path is a symlink.
abbrev pub HasNoLinkAbove : Tree → Bytes → Type 0
HasNoLinkAbove t path =
    (p : Bytes) (n : Node)
    → within p path ≡ true
    → p ≢ path
    → lstat t p ≡ some n
    → is_lnk n.kind ≡ false

-- The host finds the entry of the path under the path itself, in both trees.
pub record IsDirect (e : Engine) (path : Bytes) : Type 0 where
  pub upper : HasNoLinkAbove e.upper path
  pub base : HasNoLinkAbove e.base path

-- The tombstones after a removal hide what they did, and the removed Base entry.
hides-removal :
    (kind relative : Bytes) (e : Engine) (q : Bytes)
    → relative ≢ []
    → hides (apply_tombstones (removal kind relative e) e.tombstones) q ≡ (
        base_is_visible e.tombstones relative && has_entry e.base relative && within relative q
        || hides e.tombstones q)
unfolding removal apply_tombstones
hides-removal kind relative e q n =
    elim (Bool-cases (base_is_visible e.tombstones relative && has_entry e.base relative)) [
      | inl y ↦ rw y (hides-insert_tombstone e.tombstones relative q n)
      | inr y ↦ rw y
    ]

-- Beneath a removed path nothing of the Base state shows through.
nothing_below :
    (relative : Bytes) (e : Engine) (q : Bytes) (visible : Bool)
    → IsClosed e.base
    → within relative q ≡ true
    → visible
      ≡ not (
          base_is_visible e.tombstones relative && has_entry e.base relative && within relative q
          || hides e.tombstones q)
    → found_in none visible (lstat e.base q) ≡ missing
unfolding found_in found_in_base
nothing_below relative e q visible closed w v =
    elim (Bool-cases (base_is_visible e.tombstones relative)) [
      | inr hidden ↦
          let h : hides e.tombstones q ≡ true =
            hides-within e.tombstones relative q
              (ground (arith, base_is_visible_lem e.tombstones relative)) w in
          ground (arith, h)
      | inl shown ↦ elim (Bool-cases (has_entry e.base relative)) [
        | inl there ↦ ground arith
        | inr gone ↦
            let none_there : lstat e.base q ≡ none =
              closed relative q w (no_entry e.base relative gone) in
            ground (arith, none_there)
      ]
    ]

Removed-Gone :
    (kind relative : Bytes) (e : Engine) (r : Status × Engine)
    → relative ≢ []
    → IsClosed e.base
    → RemovedEnding (removal kind relative e) e r
    → Gone relative e r
Removed-Gone kind relative e (fail c, e') n closed p = tt
Removed-Gone kind relative e (ok u, e') n closed p = λ q.
    let shown : base_is_visible e'.tombstones q
        ≡ not (
            base_is_visible e.tombstones relative && has_entry e.base relative && within relative q
            || hides e.tombstones q) =
      base_is_visible_lem e'.tombstones q
      ∙ ap not (ap (λ ts. hides ts q) p.tombstones ∙ hides-removal kind relative e q n) in
    let up : lstat e'.upper q ≡ (if within relative q then none else lstat e.upper q) =
      unfold removal in p.upper q in
    unfold find_visible_entry_layer find_entry in
    elim (Bool-cases (within relative q)) [
      | inl w ↦
          let up' : lstat e'.upper q ≡ none =
            up ∙ ap (λ b. if b then none else lstat e.upper q) w in
          rw (w, up', p.base) (nothing_below relative e q _ closed w shown)
      | inr w ↦
          let up' : lstat e'.upper q ≡ lstat e.upper q =
            up ∙ ap (λ b. if b then none else lstat e.upper q) w in
          let shown' : base_is_visible e'.tombstones q ≡ base_is_visible e.tombstones q =
            ground (arith, shown, base_is_visible_lem e.tombstones q) in
          rw (w, up', p.base, shown')
    ]

remove-Gone :
    (h : Host) (kind relative : Bytes) (e : Engine)
    → relative ≢ []
    → IsClosed e.upper
    → IsClosed e.base
    → Gone relative e (remove_visible_entry_atomically h kind relative e)
remove-Gone h kind relative e n closed closed' =
    Removed-Gone kind relative e _ n closed' (remove-Removed h kind relative e closed)

unlink-everywhere :
    (h : Host) (path : Bytes) (e : Engine)
    → IsClosed e.upper
    → IsClosed e.base
    → Gone (normalize_relative path) e (unlink h path e)
unfolding unlink
unlink-everywhere h path e closed closed' = at (normalize_relative path)
  where
    node :
        (relative : Bytes) (o : Option Node)
        → relative ≢ []
        → Gone relative e (unlink_node h relative e o)
    node relative none n = unfold unlink_node in tt
    node relative (some m) n = elim (Bool-cases (is_dir m.kind)) [
      | inl d ↦ unfold unlink_node in rw d tt
      | inr d ↦ unfold unlink_node in rw d (remove-Gone h _ relative e n closed closed')
    ]

    at :
        (relative : Bytes)
        → Gone relative e (
            if is_empty relative
            then (fail eisdir, e)
            else unlink_node h relative e (visible_node e relative))
    at [] = tt
    at (c ∷ s) = node (c ∷ s) _ (cons-ne-nil c s)

rmdir-everywhere :
    (h : Host) (path : Bytes) (e : Engine)
    → IsClosed e.upper
    → IsClosed e.base
    → Gone (normalize_relative path) e (rmdir h path e)
unfolding rmdir
rmdir-everywhere h path e closed closed' = at (normalize_relative path)
  where
    node :
        (relative : Bytes) (o : Option Node)
        → relative ≢ []
        → Gone relative e (rmdir_node h relative e o)
    node relative none n = unfold rmdir_node in tt
    node relative (some m) n = elim (Bool-cases (is_dir m.kind)) [
      | inr d ↦ unfold rmdir_node in rw d tt
      | inl d ↦ elim (Bool-cases (is_empty (merge_visible_directory_entries h e relative))) [
        | inr x ↦ unfold rmdir_node in rw (d, x) tt
        | inl x ↦ unfold rmdir_node in rw (d, x) (remove-Gone h _ relative e n closed closed')
      ]
    ]

    at :
        (relative : Bytes)
        → Gone relative e (
            if is_empty relative
            then (fail ebusy, e)
            else rmdir_node h relative e (visible_node e relative))
    at [] = tt
    at (c ∷ s) = node (c ∷ s) _ (cons-ne-nil c s)

-- If every entry of the upper and the Base tree stands in a directory of its tree, an `unlink` of a path
-- that succeeds hides the path and all beneath it, and leaves every other path as it was, on its layer
-- and with its entry. Neither the path nor the one that is looked at leads through a symlink in the
-- upper or the Base tree.
pub unlink-Gone :
    (h : Host) (path q : Bytes) (e : Engine)
    → IsClosed e.upper
    → IsClosed e.base
    → IsDirect e (normalize_relative path)
    → IsDirect e q
    → GoneAt (normalize_relative path) q e (unlink h path e)
unlink-Gone h path q e closed closed' direct direct' =
    at_path (normalize_relative path) q e (unlink h path e)
      (unlink-everywhere h path e closed closed')

-- If every entry of the upper and the Base tree stands in a directory of its tree, an `rmdir` of a path
-- that succeeds hides the path and all beneath it, and leaves every other path as it was, on its layer
-- and with its entry. Neither the path nor the one that is looked at leads through a symlink in the
-- upper or the Base tree.
pub rmdir-Gone :
    (h : Host) (path q : Bytes) (e : Engine)
    → IsClosed e.upper
    → IsClosed e.base
    → IsDirect e (normalize_relative path)
    → IsDirect e q
    → GoneAt (normalize_relative path) q e (rmdir h path e)
rmdir-Gone h path q e closed closed' direct direct' =
    at_path (normalize_relative path) q e (rmdir h path e)
      (rmdir-everywhere h path e closed closed')
