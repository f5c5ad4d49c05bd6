-- ===== src/State/Snapshots/Chain.antt =====
-- What the decisions of `SnapshotStore` say, taken together.
use lite_checker.Prelude.{ℕ, ◌≡◌, ◌⊎◌, String, false, Option, some, List, [], ◌∷◌}
use lite_checker.Models.{TargetConfig}
use lite_checker.State.{Reply, StateError, ok, refused, Host}
use lite_checker.State.Snapshots.{sorted_targets}
use lite_checker.State.Snapshots.Exact.{IsExact}
use lite_checker.State.Snapshots.Store.{
  Snapshot, SnapshotDecision, SnapshotFile, kept, load_snapshot, targets_of, reason_of, consider,
}

pub record Consideration : Type 0 where
  pub host : Host
  pub targets : List TargetConfig
  pub now : ℕ

-- the decision of one call, after the snapshot that was read
pub record IsNext (revision : List TargetConfig → String) (c : Consideration)
    (before : Option Snapshot) (d : SnapshotDecision) : Type 0 where
  pub candidate : sorted_targets c.targets ≡ ok d.snapshot.targets
  pub observed : d.snapshot.observed_at ≡ c.now
  pub exact : (i : String) → IsExact (targets_of before) d.snapshot.targets d.diff i
  pub reason : d.reason ≡ reason_of before
  pub revised : d.snapshot.subscription_revision ≡ revision d.snapshot.targets

-- why a call raises
abbrev pub IsRefused : Consideration → StateError → Type 0
IsRefused c e =
    (sorted_targets c.targets ≡ refused e)
    ⊎ (sorted_targets c.targets ≡ ok [])
    ⊎ (c.host.acquires ≡ false)
    ⊎ (c.host.writes ≡ false)

module _ (revision : List TargetConfig → String) where
  -- what each call of a series returns, and the file that they leave
  unfoldable pub decisions : List Consideration → SnapshotFile → List (Reply SnapshotDecision)
  decisions [] f = []
  decisions (c ∷ cs) f =
      let (d, g) = consider revision c.host c.targets c.now f in d ∷ decisions cs g

  unfoldable pub consider_all : List Consideration → SnapshotFile → SnapshotFile
  consider_all [] f = f
  consider_all (c ∷ cs) f = consider_all cs (consider revision c.host c.targets c.now f).1

  -- Each decision follows the one before, and the last one is read at the end.
  abbrev pub Chain :
      Option Snapshot
      → List Consideration
      → List (Reply SnapshotDecision)
      → Reply (Option Snapshot)
      → Type 0
  Chain before (c ∷ cs) (refused e ∷ ds) last = IsRefused c e × Chain before cs ds last
  Chain before (c ∷ cs) (ok d ∷ ds) last =
      IsNext revision c before d × Chain (some d.snapshot) cs ds last
  Chain before [] [] last = last ≡ ok before
  Chain before cs ds last = ⊥

  -- one call: a refusal changes nothing
  abbrev Made : Consideration → Option Snapshot → Reply SnapshotDecision × SnapshotFile → Type 0
  Made c before (refused e, g) = IsRefused c e × (load_snapshot g ≡ ok before)
  Made c before (ok d, g) = IsNext revision c before d × (g ≡ kept d.snapshot)
