-- ===== src/State.antt =====
-- The local state files of state.py: the lock around a transition, the file that it reads, and the
-- atomic write that ends it.
pub mod Pending
pub mod Sequence
pub mod Snapshots
pub mod Acks
use lite_checker.Prelude.{Bool, true, false, if◌then◌else◌}
use lite_checker.Json.{Json, Fields, obj}

-- `StateError` with its message
pub data StateError : Type 0 where
  lock_unavailable unreadable malformed report_malformed sequence_conflict event_mismatch
        not_written duplicate_targets empty_targets not_released ack_malformed :
      StateError

pub data Reply {ℓ} (A : Type ℓ) : Type ℓ where
  ok : A → Reply A
  refused : StateError → Reply A

-- What stands at the path: nothing, bytes that are not JSON, or the value that `json.loads` gives.
pub data File : Type 0 where
  absent : File
  broken : File
  holds : Json → File

-- What the host does during a call: whether the lock is acquired in time, the new file replaces the
-- old one, and the lock is released.
pub record Host : Type 0 where
  pub acquires : Bool
  pub writes : Bool
  pub releases : Bool

abbrev pub Step : Type 0 → Type 0
Step A = File → Reply A × File

-- `with _state_lock(...)`: an error of the release stands in for the result of the body.
unfoldable pub locked : {A : Type 0} → Host → Step A → Step A
locked h body f =
    if h.acquires
    then (if h.releases then body f else (refused lock_unavailable, (body f).1))
    else (refused lock_unavailable, f)

-- `_read_json_object`
unfoldable pub read_object : File → Reply Fields
read_object absent = refused unreadable
read_object broken = refused unreadable
read_object (holds (obj d)) = ok d
read_object (holds _) = refused malformed

-- `_atomic_write_json`, and then the return of `a`. A failure leaves the old file in its place.
unfoldable pub write_object : {A : Type 0} → Host → Fields → A → Step A
write_object h d a f = if h.writes then (ok a, holds (obj d)) else (refused not_written, f)
