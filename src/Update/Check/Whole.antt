-- ===== src/Update/Check/Whole.antt =====
-- Whenever `check_for_update` is cut off, the host can be brought back.
use lite_checker.Prelude.{ℕ, ◌≡◌, ◌≢◌, some}
use lite_checker.Update.Manifest.{Formats}
use lite_checker.Update.Install.{InstallState}
use lite_checker.Update.Machine.{Environment, Machine, late}
use lite_checker.Update.Check.{ChannelFile, Start, ends, goes_on, breaks, load_channel}
use lite_checker.Update.Check.Sound.{Sound, Safe, Whole, AllWhole}
use lite_checker.Update.Check.Rising.{Rises}

module _ (e : Environment) (timely : (t : ℕ) → e.writes t ≢ late) (f : Formats) (file : ChannelFile)
    (b : InstallState) where
  abbrev SafeNow : Machine → Type 0
  SafeNow = Safe f e file b

  -- a call that goes on has the channel and the state of the file
  abbrev Started : Start → Type 0
  Started (ends r) = Unit
  Started breaks = Unit
  Started (goes_on c s) = (load_channel f e file ≡ some (some c)) × (s ≡ b)

  abbrev Ended : Machine → Type 0
  Ended v = AllWhole f e file b v.past × Whole f e file b v.install v.live × Rises v.past v.install
