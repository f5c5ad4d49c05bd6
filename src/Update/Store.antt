-- ===== src/Update/Store.antt =====
-- The release directories of update_store.py: `remove_release` and `_cleanup`.
use lite_checker.Prelude.{
  ℕ, ◌+◌, String, Bool, true, false, ◌||◌, not, Option, none, some, List, [], ◌∷◌, ◌++◌, contains,
  keep, string_eq, ◌==◌, os_error, value_error, returned, raised, if◌then◌else◌,
}
use lite_checker.Update.Install.{Pending, InstallState, is_version}
use lite_checker.Update.Machine.{
  Environment, Machine, Turn, Removal, deleted, left, deferred, broken, ◌>>=◌, ◌>>◌, give, ask,
  load_install,
}

-- the counts of a cleanup
pub record Counts : Type 0 where
  pub releases : ℕ
  pub temporary : ℕ
  pub deferred_count : ℕ

abbrev pub no_counts : Counts
no_counts = record { releases = 0; temporary = 0; deferred_count = 0 }

abbrev pub without : String → Machine → Machine
without v w = record w { releases = keep (λ r. not (r == v)) w.releases }

-- a directory whose deletion raised is no longer whole
abbrev pub remove_as : Removal → String → Turn Bool
remove_as deleted v w = (returned true, without v w)
remove_as left v w = (returned false, w)
remove_as deferred v w = (returned false, w)
remove_as broken v w = (raised os_error, without v w)

abbrev pub listed : Option String → List String
listed none = []
listed (some v) = v ∷ []

abbrev pub versions_of : Option Pending → List String
versions_of none = []
versions_of (some p) = listed p.from_version ++ p.to_version ∷ []

-- the set `keep`, of the variable of the caller and the state in the file
abbrev pub kept_versions : InstallState → InstallState → List String → List String
kept_versions caller s in_use =
    listed caller.active
    ++ (listed caller.previous
        ++ (listed s.active ++ (listed s.previous ++ (versions_of s.pending ++ in_use))))

abbrev pub count_release : Removal → Counts → Counts
count_release deleted c = record c { releases = c.releases + 1 }
count_release deferred c = record c { deferred_count = c.deferred_count + 1 }
count_release _ c = c

-- a staged release has its directory from then on
abbrev pub stage_as : Bool → String → Turn (Unit {0})
stage_as false v w = (raised value_error, w)
stage_as true v w = (
  returned tt,
  record w { releases = if contains w.releases v then w.releases else v ∷ w.releases },
)

module _ (e : Environment) where
  -- `UpdateStore.stage`
  unfoldable pub stage : String → Turn (Unit {0})
  stage v = do done ← ask (λ t. e.stages t v); stage_as done v

  -- `UpdateStore.remove_release`
  unfoldable pub remove_release : String → Turn Bool
  remove_release v = do
    in_use ← ask e.live_versions
    removal ← ask (λ t. e.removes t v)
    if not (is_version v) || contains in_use v then give false else remove_as removal v

  -- the loop of `_cleanup` over the release directories
  unfoldable pub sweep : List String → List String → Counts → Turn Counts
  sweep kept [] c = give c
  sweep kept (v ∷ vs) c =
      let rest = λ (r : Removal). remove_as r v >> sweep kept vs (count_release r c) in
      let skip = sweep kept vs c in
      if contains kept v || not (is_version v) then skip else ask (λ t. e.removes t v) >>= rest

  -- the directories that `iterdir` lists
  abbrev list_releases : Turn (List String)
  list_releases w = (returned w.releases, w)

  -- `UpdateStore.cleanup` under the caller's selectors
  unfoldable pub cleanup : InstallState → Turn Counts
  unfolding sweep load_install
  cleanup caller = do
    in_use ← ask e.live_versions
    s ← load_install e
    names ← list_releases
    c ← sweep (kept_versions caller s in_use) names no_counts
    temporary ← ask e.temporaries
    give (record c { temporary = temporary.0; deferred_count = c.deferred_count + temporary.1 })
