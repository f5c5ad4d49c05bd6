-- ===== src/Update/Check.antt =====
-- `check_for_update` of updater.py: which release is looked at, and whether it may be installed.
pub mod Repaired
pub mod Whole
pub mod Rising
pub mod Marks
pub mod Raised
pub mod Kept
pub mod Judged
pub mod Installed
pub mod Switched
pub mod Steps
pub mod Ends
pub mod Sound
use lite_checker.Prelude.{
  ℕ, ◌+◌, String, Bool, true, false, ◌&&◌, not, Option, none, some, List, [], ◌∷◌, ltb, string_eq,
  option_beq, nat_eq, ◌==◌, Outcome, returned, raised, if◌then◌else◌, other_error,
}
use lite_checker.Update.Version.{parse_version, version_lt, version_le}
use lite_checker.Update.Manifest.{
  ReleaseMetadata, ChannelConfig, Formats, verify_release_metadata, parse_channel_config,
}
use lite_checker.Update.Install.{
  Failed, InstallState, InstallFile, read_install, default_install_state, failed, busy, disabled,
  not_due, current, unconfigured, option_absent,
}
use lite_checker.Update.Machine.{
  Environment, Machine, Turn, acquired, held, unsafe, crashed, finally_release, ◌>>=◌, ◌>>◌,
  attempt, give, ask, or_raise, lift, get_state, set_state, write_outcome, load_install,
}
use lite_checker.Update.Recovery.{Report, closed, closed_with, with_cleanup, recover}
use lite_checker.Update.Switch.{raise_mark}

-- what stands at the path of the channel: nothing, a file that cannot be read, or its bytes
pub data ChannelFile : Type 0 where
  absent : ChannelFile
  unreadable : ChannelFile
  document : List ℕ → ChannelFile

abbrev pub check_interval : ℕ
check_interval = 3600

-- the last second of `datetime`, 9999-12-31T23:59:59Z, in seconds of the epoch
abbrev pub last_second : ℕ
last_second = 253402300799

-- the answers to `check_for_update` that do not reach the transaction
pub data Start : Type 0 where
  ends : Report → Start
  goes_on : ChannelConfig → InstallState → Start
  -- the lock raised what the source does not catch
  breaks : Start

module _ (f : Formats) (e : Environment) where
  -- the second test of `_validate_channel_target`, and that of `_load_channel`
  unfoldable pub right_host : Option String → Bool
  right_host none = true
  right_host (some p) = elim e.host_platform [ returned h ↦ p == h | raised x ↦ false ]

  -- `_validate_channel_target`; false where it raises
  unfoldable pub valid_channel_target : ChannelConfig → Bool
  unfolding right_host
  valid_channel_target c = elim e.distribution [
    | returned d ↦ option_beq c.platform d && right_host d
    | raised x ↦ false
  ]

  abbrev pub targeted : Option ChannelConfig → Option (Option ChannelConfig)
  targeted none = none
  targeted (some c) = if valid_channel_target c then some (some c) else none

  abbrev pub read_channel : ChannelFile → Option (Option ChannelConfig)
  read_channel absent = some none
  read_channel unreadable = none
  read_channel (document bytes) = targeted (parse_channel_config f bytes)

  -- `_load_channel`; `none` stands for an exception
  unfoldable pub load_channel : ChannelFile → Option (Option ChannelConfig)
  unfolding right_host valid_channel_target
  load_channel file = elim e.distribution [
    | returned d ↦ if right_host d then read_channel file else none
    | raised x ↦ none
  ]

  -- one document of the channel; `none` stands for an exception
  abbrev pub usable : ChannelConfig → Option ReleaseMetadata → Option ReleaseMetadata
  usable c none = none
  usable c (some r) =
      if valid_channel_target c && option_beq r.platform c.platform then some r else none

  unfoldable pub authenticate : ChannelConfig → Option (List ℕ) → Option ReleaseMetadata
  unfolding valid_channel_target verify_release_metadata
  authenticate c none = none
  authenticate c (some bytes) = usable c (verify_release_metadata f bytes c.public_key)

  abbrev pub first_of :
      Option ReleaseMetadata → Turn (Option ReleaseMetadata) → Turn (Option ReleaseMetadata)
  first_of none rest = rest
  first_of (some r) rest = give (some r)

  -- the loop over `manifest_urls`
  unfoldable pub find_release : ChannelConfig → List String → Turn (Option ReleaseMetadata)
  unfolding authenticate
  find_release c [] = give none
  find_release c (url ∷ urls) = do
    bytes ← ask (λ t. e.metadata t url)
    let rest = find_release c urls
    first_of (authenticate c bytes) rest

  -- the marker of a release that failed names this one
  abbrev pub names : ReleaseMetadata → Option Failed → Bool
  names r none = false
  names r (some m) = m.sequence == r.sequence && m.digest == r.artifact.sha256

  unfoldable pub unless_failed : ReleaseMetadata → Turn Report
  unfolding closed_with raise_mark
  unless_failed r = do
    s ← get_state
    if names r s.failure
        then closed_with e failed "release previously failed local activation"
        else raise_mark e r

  -- whether the version stands behind what is installed; it raises where a version cannot be read
  unfoldable pub outdated : ReleaseMetadata → Option String → Turn Bool
  unfolding parse_version version_lt version_le
  outdated r (some v) = do
    theirs ← or_raise (parse_version r.version)
    ours ← or_raise (parse_version v)
    give (version_le theirs ours)
  outdated r none = do
    theirs ← or_raise (parse_version r.version)
    baseline ← ask e.baseline_version
    ours ← lift baseline
    give (version_lt theirs ours)

  abbrev pub outdated_text : Option String → String
  outdated_text (some v) = "release version does not advance installed state"
  outdated_text none = "release version is older than baseline"

  unfoldable pub compare_versions : ReleaseMetadata → Turn Report
  unfolding closed_with unless_failed outdated
  compare_versions r = do
    s ← get_state
    old ← outdated r s.active
    if old then closed_with e failed (outdated_text s.active) else unless_failed r

  abbrev pub is_installed : ReleaseMetadata → InstallState → Bool
  is_installed r s =
      r.sequence == s.highest_sequence
      && option_beq (some r.artifact.sha256) s.highest_digest
      && option_beq s.active (some r.version)

  abbrev pub conflicts : ReleaseMetadata → InstallState → Bool
  conflicts r s =
      r.sequence == s.highest_sequence && not (option_beq (some r.artifact.sha256) s.highest_digest)

  -- the tests on the sequence, in the order of the source
  unfoldable pub judge : ReleaseMetadata → Turn Report
  unfolding closed_with with_cleanup write_outcome compare_versions
  judge r = do
    s ← get_state
    if ltb r.sequence s.highest_sequence
        then closed_with e failed "release sequence is older than installed state"
        else if is_installed r s
        then write_outcome e current none >> with_cleanup e current none none
        else if conflicts r s
        then closed_with e failed "release sequence conflicts with installed state"
        else compare_versions r

  unfoldable pub with_release : Option ReleaseMetadata → Turn Report
  unfolding judge write_outcome with_cleanup
  with_release none =
      write_outcome e failed (some "release metadata is unavailable or invalid")
      >> with_cleanup e failed (some "release metadata is unavailable or invalid") none
  with_release (some r) = judge r

  unfoldable pub look_up : ChannelConfig → ℕ → Turn Report
  unfolding find_release with_release
  look_up c now = do
    release ← find_release c c.manifest_urls
    s ← get_state
    set_state (record s { last_checked_at = some now })
    with_release release

  -- a check within the interval from the last one
  abbrev pub too_early : ℕ → Option ℕ → Bool
  too_early now none = false
  too_early now (some last) = ltb now (last + check_interval)

  -- the end of the interval is a date that `datetime` does not have: adding it is an `OverflowError`
  abbrev pub past_calendar : Option ℕ → Bool
  past_calendar none = false
  past_calendar (some last) = ltb last_second (last + check_interval)

  unfoldable pub unless_recovered : Bool → ChannelConfig → ℕ → Option Report → Turn Report
  unfolding look_up
  unless_recovered force c now (some r) = give r
  unless_recovered force c now none = do
    s ← get_state
    if not c.enabled
        then give (closed disabled s none)
        else if not force && past_calendar s.last_checked_at
        then lift (raised other_error)
        else if not force && too_early now s.last_checked_at
        then give (closed not_due s none)
        else look_up c now

  -- the body of the transaction
  unfoldable pub transact : Bool → ChannelConfig → ℕ → Turn Report
  unfolding load_install recover unless_recovered
  transact force c now = do
    s ← load_install e
    set_state s
    recovered ← recover e
    unless_recovered force c now recovered

  -- its last handler
  unfoldable pub fail_safely : ℕ → Turn Report
  unfolding write_outcome
  fail_safely now = do
    s ← get_state
    set_state (record s { last_checked_at = some now })
    attempt (write_outcome e failed (some "update operation failed safely")) (give tt)
    w ← get_state
    give (closed failed w (some "update operation failed safely"))

  -- what is tested before the lock, on the file as it stands then
  abbrev pub start_with : ChannelConfig → Option InstallState → Start
  start_with c none =
      ends (closed failed default_install_state (some "local update state is invalid"))
  start_with c (some s) =
      if not c.enabled && option_absent s.pending
      then ends (closed disabled s none)
      else elim e.transaction [
        | acquired ↦ goes_on c s
        | held ↦ ends (closed busy s none)
        | unsafe ↦ ends (closed failed s (some "update storage is unavailable"))
        | crashed ↦ breaks
      ]

  abbrev pub begin : Option (Option ChannelConfig) → Option InstallState → Start
  begin none s =
      ends (closed failed default_install_state (some "local update configuration is invalid"))
  begin (some none) s = ends (closed unconfigured default_install_state none)
  begin (some (some c)) s = start_with c s

  unfoldable pub start : ChannelFile → Bool → InstallFile → Start
  unfolding load_channel read_install
  start file readable early =
      begin (load_channel file) (if readable then read_install early else none)

  abbrev pub run_from : Bool → ℕ → Start → Machine → Outcome Report × Machine
  run_from force now (ends r) w = (returned r, w)
  run_from force now (goes_on c s) w =
      finally_release e.transaction_releases (attempt (transact force c now) (fail_safely now))
        (record w { state = s })
  run_from force now breaks w = (raised other_error, w)

  -- `check_for_update`, of a task that is not cancelled. Another process may write the file between the first reading, of `early`,
  -- and the lock; from the lock on, the file is that of the machine.
  unfoldable pub check_for_update : ChannelFile → Bool → InstallFile → Bool → ℕ → Turn Report
  unfolding start transact fail_safely
  check_for_update file readable early force now w =
      run_from force now (start file readable early) w
