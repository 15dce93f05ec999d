-- ===== src/Engine/Progress.antt =====
-- That `publish_staged_operation` of src/core/workspace_engine.cpp succeeds and takes effect where nothing fails.
use tribios_vfs.Common.{◌≡◌}
use tribios_vfs.Store.Types.{RecoveryOperation}
use tribios_vfs.Engine.Host.{Tree, Host, ok}
use tribios_vfs.Engine.State.{Engine}
use tribios_vfs.Engine.Publish.{Status, apply_tombstones}
use tribios_vfs.Engine.Outcomes.{published_tree}

-- An operation that succeeds and has taken effect.
abbrev pub TakesEffect : RecoveryOperation → Tree → Engine → Status × Engine → Type 0
TakesEffect o stage e r =
    (r.0 ≡ ok tt)
    × (r.1.upper ≡ published_tree o stage e.upper)
    × (r.1.tombstones ≡ apply_tombstones o e.tombstones)
    × (r.1.base ≡ e.base)
