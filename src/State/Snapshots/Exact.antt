-- ===== src/State/Snapshots/Exact.antt =====
-- What the difference of two snapshots lists.
use lite_checker.Prelude.{◌≡◌, String, List, ◌&&◌, not, contains, string_eq}
use lite_checker.Models.{TargetConfig}
use lite_checker.State.Snapshots.{SnapshotDiff, target_ids, differs}

-- The ids that one snapshot has and the other has not, and those that both have with different
-- fingerprints.
pub record IsExact (previous current : List TargetConfig) (d : SnapshotDiff) (i : String)
    : Type 0 where
  pub new_only :
      contains d.added i
      ≡ (contains (target_ids current) i && not (contains (target_ids previous) i))
  pub old_only :
      contains d.removed i
      ≡ (contains (target_ids previous) i && not (contains (target_ids current) i))
  pub both : contains d.changed i ≡ (
      contains (target_ids previous) i
      && (contains (target_ids current) i && differs previous current i))
