-- ===== src/State/Snapshots/Store.antt =====
-- `SnapshotStore` of state.py: the file that keeps the last snapshot. A value in the file that the
-- validation of `Snapshot` refuses is `misshapen`.
use lite_checker.Prelude.{ℕ, String, Option, none, some, List, [], ◌∷◌, if◌then◌else◌}
use lite_checker.Models.{TargetConfig}
use lite_checker.State.{
  Reply, ok, refused, malformed, unreadable, empty_targets, not_written, lock_unavailable, Host,
}
use lite_checker.State.Snapshots.{SnapshotDiff, sorted_targets, snapshot_diff}

pub record Snapshot : Type 0 where
  pub targets : List TargetConfig
  pub subscription_revision : String
  pub observed_at : ℕ

-- a decision always activates its snapshot
pub record SnapshotDecision : Type 0 where
  pub snapshot : Snapshot
  pub diff : SnapshotDiff
  pub reason : String

pub data SnapshotFile : Type 0 where
  no_snapshot broken_file misshapen : SnapshotFile
  kept : Snapshot → SnapshotFile

-- `_load_unlocked`
unfoldable pub load_snapshot : SnapshotFile → Reply (Option Snapshot)
load_snapshot no_snapshot = ok none
load_snapshot broken_file = refused unreadable
load_snapshot misshapen = refused malformed
load_snapshot (kept s) = ok (some s)

abbrev pub targets_of : Option Snapshot → List TargetConfig
targets_of none = []
targets_of (some s) = s.targets

abbrev pub reason_of : Option Snapshot → String
reason_of none = "initial"
reason_of (some s) = "accepted"

-- `revision` is `_subscription_revision`, the digest of the sorted ids
module _ (revision : List TargetConfig → String) (h : Host) where
  abbrev pub new_snapshot : List TargetConfig → ℕ → Snapshot
  new_snapshot candidate now = record {
    targets = candidate;
    subscription_revision = revision candidate;
    observed_at = now;
  }

  -- the write of the candidate, over what was loaded
  unfoldable pub consider_over :
      List TargetConfig
      → ℕ
      → Reply (Option Snapshot)
      → SnapshotFile
      → Reply SnapshotDecision × SnapshotFile
  consider_over candidate now (refused e) f = (refused e, f)
  consider_over candidate now (ok current) f =
      if h.writes
      then (
        ok (record {
          snapshot = new_snapshot candidate now;
          diff = snapshot_diff (targets_of current) candidate;
          reason = reason_of current;
        }),
        kept (new_snapshot candidate now),
      )
      else (refused not_written, f)

  unfoldable pub consider_sorted :
      Reply (List TargetConfig) → ℕ → SnapshotFile → Reply SnapshotDecision × SnapshotFile
  unfolding consider_over load_snapshot
  consider_sorted (refused e) now f = (refused e, f)
  consider_sorted (ok []) now f = (refused empty_targets, f)
  consider_sorted (ok (t ∷ ts)) now f =
      if h.acquires
      then (if h.releases
          then consider_over (t ∷ ts) now (load_snapshot f) f
          else (refused lock_unavailable, (consider_over (t ∷ ts) now (load_snapshot f) f).1))
      else (refused lock_unavailable, f)

  -- `SnapshotStore.consider`
  unfoldable pub consider :
      List TargetConfig → ℕ → SnapshotFile → Reply SnapshotDecision × SnapshotFile
  unfolding consider_sorted sorted_targets
  consider targets now f = consider_sorted (sorted_targets targets) now f
