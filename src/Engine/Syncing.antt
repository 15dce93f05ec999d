-- ===== src/Engine/Syncing.antt =====
-- Flushes on request: `fsync_handle` and `fsync_path` of src/core/workspace_engine.cpp, as Linux runs
-- them. What a flush makes durable is not part of the state, so only the replies differ.
use tribios_vfs.Common.{
  ℕ, Bool, true, false, Bytes, Option, none, some, ◌==◌, ◌&&◌, not, if◌then◌else◌,
}
use tribios_vfs.Paths.{normalize_relative}
use tribios_vfs.Engine.Host.{
  Node, Host, ok, fail, lstat, is_dir, enoent, eio, ebadf, enotdir, eisdir, upper_sync, parent_sync,
  host_reopen,
}
use tribios_vfs.Engine.State.{Engine, OpenHandle}
use tribios_vfs.Engine.Visible.{Found, missing, in_upper, in_base, find_visible_entry_layer}
use tribios_vfs.Engine.Publish.{Status}
use tribios_vfs.Engine.Handles.{find_handle}

-- The entry's directory is flushed with it where the entry stands in the upper tree.
unfoldable pub sync_handle_parent : Host → Bytes → Engine → Option Node → Status
sync_handle_parent h relative e none = ok tt
sync_handle_parent h relative e (some n) = if h.fault parent_sync == 0 then ok tt else fail eio

unfoldable pub sync_backing : Host → Engine → OpenHandle → Option Node → Status
sync_backing h e o none = fail ebadf
sync_backing h e o (some n) =
    if h.fault upper_sync == 0
    then sync_handle_parent h o.relative e (lstat e.upper o.relative)
    else fail (h.fault upper_sync)

unfoldable pub sync_open : Host → Engine → Option OpenHandle → Status
sync_open h e none = fail ebadf
sync_open h e (some o) = sync_backing h e o o.backing

unfoldable pub fsync_handle : Host → ℕ → Bool → Engine → Status
fsync_handle h fd data_only e = sync_open h e (find_handle fd e.handles)

unfoldable pub sync_entry : Host → Bool → Bool → Node → Status
sync_entry h directory is_upper n =
    if directory && not (is_dir n.kind)
    then fail enotdir
    else if not directory && is_dir n.kind
    then fail eisdir
    else if not directory && not (h.fault host_reopen == 0)
    then fail (h.fault host_reopen)
    else if not (h.fault upper_sync == 0)
    then fail (h.fault upper_sync)
    else if is_upper && not (h.fault parent_sync == 0)
    then fail eio
    else ok tt

unfoldable pub sync_found : Host → Bool → Found → Status
sync_found h directory missing = fail enoent
sync_found h directory (in_upper n) = sync_entry h directory true n
sync_found h directory (in_base n) = sync_entry h directory false n

unfoldable pub fsync_path : Host → Bytes → Bool → Bool → Engine → Status
fsync_path h path data_only directory e =
    sync_found h directory (find_visible_entry_layer e (normalize_relative path))
