-- ===== src/State/Snapshots.antt =====
-- `_sorted_targets` and `_snapshot_diff` of state.py: two lists of targets, and what changed between
-- them.
pub mod Chain
pub mod Exact
pub mod Store
use Prim.Native.Nat.{Ordering}
use Prim.Native.String.{compare}
use lite_checker.Prelude.{
  String, Bool, true, false, Option, none, some, List, [], ◌∷◌, ◌&&◌, not, keep, contains,
  string_eq, ◌==◌, if◌then◌else◌,
}
use lite_checker.Models.{TargetConfig}
use lite_checker.Recheck.{find_target, distinct}
use lite_checker.State.{Reply, ok, refused, StateError, duplicate_targets}

pub record SnapshotDiff : Type 0 where
  pub added : List String
  pub removed : List String
  pub changed : List String

abbrev pub target_ids : List TargetConfig → List String
target_ids [] = []
target_ids (t ∷ ts) = t.target_id ∷ target_ids ts

-- the order of texts, by their code points
abbrev pub before : String → String → Bool
before i j = elim (compare i j) [ Ordering.lt ↦ true | _ ↦ false ]

unfoldable pub insert_target : TargetConfig → List TargetConfig → List TargetConfig
insert_target t [] = t ∷ []
insert_target t (u ∷ us) =
    let later = insert_target t us in
    if before u.target_id t.target_id then u ∷ later else t ∷ u ∷ us

unfoldable pub sort_targets : List TargetConfig → List TargetConfig
sort_targets [] = []
sort_targets (t ∷ ts) = insert_target t (sort_targets ts)

-- `_sorted_targets`: an id that stands twice is refused
unfoldable pub sorted_targets : List TargetConfig → Reply (List TargetConfig)
sorted_targets ts =
    if distinct (target_ids ts) then ok (sort_targets ts) else refused duplicate_targets

-- the place of an id in a sorted list without repetitions
unfoldable pub insert_id : String → List String → List String
insert_id i [] = i ∷ []
insert_id i (j ∷ js) =
    let later = insert_id i js in
    if i == j then j ∷ js else if before i j then i ∷ j ∷ js else j ∷ later

-- `sorted` of a set
unfoldable pub sort_ids : List String → List String
sort_ids [] = []
sort_ids (i ∷ is) = insert_id i (sort_ids is)

abbrev pub fingerprints_differ : Option TargetConfig → Option TargetConfig → Bool
fingerprints_differ (some t) (some u) = not (t.config_fingerprint == u.config_fingerprint)
fingerprints_differ _ _ = false

module _ (previous current : List TargetConfig) where
  unfoldable pub differs : String → Bool
  differs i = fingerprints_differ (find_target previous i) (find_target current i)

  unfoldable pub snapshot_diff : SnapshotDiff
  snapshot_diff =
      let old = target_ids previous in
      let new = target_ids current in
      record {
        added = sort_ids (keep (λ i. not (contains old i)) new);
        removed = sort_ids (keep (λ i. not (contains new i)) old);
        changed = sort_ids (keep (λ i. contains new i && differs i) old);
      }
