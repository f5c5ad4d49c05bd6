-- ===== src/Update/Machine.antt =====
-- The host of an update: the install file, the release that runs, the release directories, and what
-- each call to the outside gives. A call asks its answer of the environment at the next tick, so that
-- a run may meet any sequence of answers.
use lite_checker.Prelude.{
  ℕ, ◌+◌, String, Bool, true, false, Option, none, some, List, ◌∷◌, os_error, value_error,
  other_error, Outcome, returned, raised,
}
use lite_checker.Update.Version.{Version}
use lite_checker.Update.Manifest.{ReleaseMetadata}
use lite_checker.Update.Install.{
  Status, InstallState, InstallFile, stored, valid_install, read_install,
}

-- What `adapter.activate` last switched to: a release, or the baseline for `none`. It is unknown
-- after an activation that raised.
pub data Place : Type 0 where
  at : Option String → Place
  unknown : Place

-- `_atomic_json`: the file is replaced; the call raises and leaves the old file; or it raises after
-- the replacement, at the permissions or the sync of the directory.
pub data Written : Type 0 where
  replaced refused late : Written

-- `_try_lock` and `_maintenance_lock`: acquired; held by another; a `StoreError`, an `OSError` or a
-- `ValueError`; or another exception
pub data Lock : Type 0 where
  acquired held unsafe crashed : Lock

-- `_remove_owned`: it is deleted, it is left, it is left for a later try, or deleting raises
pub data Removal : Type 0 where
  deleted left deferred broken : Removal

pub record Environment : Type 0 where
  pub reads : ℕ → Bool
  pub writes : ℕ → Written
  -- the distribution marker of the root, and those of the releases
  pub distribution : Outcome (Option String)
  pub release_marker : ℕ → Option String → Outcome (Option String)
  pub baseline_version : ℕ → Outcome Version
  pub host_platform : Outcome String
  pub transaction : Lock
  pub maintenance : ℕ → Lock
  -- whether `release` of the lock returns
  pub transaction_releases : ℕ → Bool
  pub maintenance_releases : ℕ → Bool
  -- the adapter; `none` stands for a call that raises or times out
  pub activates : ℕ → Option String → Bool → Bool
  pub healthy : ℕ → Option String → Bool → Option Bool
  pub prepares : ℕ → String → Bool
  pub is_running : ℕ → Option Bool
  -- `_bounded_fetch` of metadata, and of an archive that `validate_source_zip` accepts
  pub metadata : ℕ → String → Option (List ℕ)
  pub archive : ℕ → String → ReleaseMetadata → Bool
  -- `UpdateStore.stage`
  pub stages : ℕ → String → Bool
  pub removes : ℕ → String → Removal
  pub live_versions : ℕ → List String
  -- the temporary directories that a cleanup removes and defers
  pub temporaries : ℕ → ℕ × ℕ

pub record Moment : Type 0 where
  pub install : InstallFile
  pub live : Place

pub record Machine : Type 0 where
  pub install : InstallFile
  pub live : Place
  pub releases : List String
  pub tick : ℕ
  -- every state of the file and of the host that a crash could have left, the last one first
  pub past : List Moment
  -- the variable `state` of the running call
  pub state : InstallState

abbrev pub Turn : Type 0 → Type 0
Turn A = Machine → Outcome A × Machine

abbrev pub after : {A B : Type 0} → Outcome A × Machine → (A → Turn B) → Outcome B × Machine
after (returned a, w) f = f a w
after (raised x, w) f = (raised x, w)

abbrev pub rescue : {A : Type 0} → Outcome A × Machine → Turn A → Outcome A × Machine
rescue (returned a, w) h = (returned a, w)
rescue (raised x, w) h = h w

infixl 5 ◌>>=◌ ◌>>◌
abbrev pub ◌>>=◌ : {A B : Type 0} → Turn A → (A → Turn B) → Turn B
◌>>=◌ m f w = after (m w) f

abbrev pub ◌>>◌ : {A B : Type 0} → Turn A → Turn B → Turn B
m >> k = m >>= λ _. k

-- `try: m except Exception: h`
abbrev pub attempt : {A : Type 0} → Turn A → Turn A → Turn A
attempt m h w = rescue (m w) h

abbrev pub give : {A : Type 0} → A → Turn A
give a w = (returned a, w)

-- the end of a call, after the lock was released or its release raised
abbrev pub release_as : {A : Type 0} → Bool → Outcome A → Machine → Outcome A × Machine
release_as true o w = (o, w)
release_as false o w = (raised other_error, w)

abbrev pub released : {A : Type 0} → (ℕ → Bool) → Outcome A × Machine → Outcome A × Machine
released releases (o, w) = release_as (releases w.tick) o w

-- `try: m finally: lock.release()`
abbrev pub finally_release : {A : Type 0} → (ℕ → Bool) → Turn A → Turn A
finally_release releases m w = released releases (m w)

-- whether the call returns
abbrev pub succeeds : {A : Type 0} → Turn A → Turn Bool
succeeds m = attempt (m >> give true) (give false)

abbrev pub ticked : Machine → Machine
ticked w = record w { tick = w.tick + 1 }

-- the answer of the environment at this tick
abbrev pub ask : {A : Type 0} → (ℕ → A) → Turn A
ask f w = (returned (f w.tick), ticked w)

abbrev pub or_raise : {A : Type 0} → Option A → Turn A
or_raise none w = (raised other_error, w)
or_raise (some a) w = (returned a, w)

abbrev pub check : Bool → Turn (Unit {0})
check true w = (returned tt, w)
check false w = (raised value_error, w)

abbrev pub lift : {A : Type 0} → Outcome A → Turn A
lift o w = (o, w)

abbrev pub get_state : Turn InstallState
get_state w = (returned w.state, w)

abbrev pub set_state : InstallState → Turn (Unit {0})
set_state s w = (returned tt, record w { state = s })

abbrev pub moment_of : InstallFile → Place → Moment
moment_of f p = record { install = f; live = p }

abbrev pub put_file : InstallState → Machine → Machine
put_file s w = record w { install = stored s; past = moment_of (stored s) w.live ∷ w.past }

abbrev pub go_live : Place → Machine → Machine
go_live p w = record w { live = p; past = moment_of w.install p ∷ w.past }

abbrev pub write_as : Written → InstallState → Turn (Unit {0})
write_as replaced s w = (returned tt, put_file s w)
write_as refused s w = (raised os_error, w)
write_as late s w = (raised os_error, put_file s w)

abbrev pub went_live : Bool → Option String → Turn (Unit {0})
went_live true v w = (returned tt, go_live (at v) w)
went_live false v w = (raised other_error, go_live unknown w)

module _ (e : Environment) where
  -- `UpdateStore.write_install`
  unfoldable pub write_install : InstallState → Turn (Unit {0})
  unfolding valid_install
  write_install s = do check (valid_install s); outcome ← ask e.writes; write_as outcome s

  abbrev read_file : Turn InstallState
  read_file w = or_raise (read_install w.install) w

  -- `UpdateStore.read_install`
  unfoldable pub load_install : Turn InstallState
  unfolding read_install
  load_install = do readable ← ask e.reads; check readable; read_file

  abbrev pub with_outcome : Status → Option String → InstallState → InstallState
  with_outcome status error s = record s { status = status; error = error }

  -- `_write_outcome` on the variable `state`
  unfoldable pub write_outcome : Status → Option String → Turn (Unit {0})
  unfolding write_install
  write_outcome status error = do
    s ← get_state
    set_state (with_outcome status error s)
    write_install (with_outcome status error s)

  -- `adapter.activate`
  unfoldable pub activate : Option String → Bool → Turn (Unit {0})
  activate v running = do done ← ask (λ t. e.activates t v running); went_live done v

  -- `adapter.healthy`
  unfoldable pub healthy : Option String → Bool → Turn Bool
  healthy v running = do answer ← ask (λ t. e.healthy t v running); or_raise answer

  -- switching to a release and asking for its health
  unfoldable pub restore : Option String → Bool → Turn Bool
  unfolding activate healthy
  restore v running = activate v running >> healthy v running
