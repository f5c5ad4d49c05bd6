-- ===== src/Update/Check/Steps.antt =====
-- The calls that `check_for_update` shares keep every moment sound.
use lite_checker.Prelude.{
  ℕ, ◌+◌, ◌≡◌, ◌≢◌, refl, inl, inr, String, Bool, true, false, not, ◌||◌, Option, none, some, List,
  [], ◌∷◌, contains, string_eq, returned, Bool-cases, Option-cases, Outcome-cases, option_beq,
}
use lite_checker.Update.Manifest.{Formats}
use lite_checker.Update.Install.{
  Status, InstallState, InstallFile, valid_install, is_version, read_install,
}
use lite_checker.Update.Machine.{
  Environment, Machine, Removal, deleted, left, deferred, broken, Lock, acquired, held, unsafe,
  crashed, Place, Moment, at, unknown, Written, replaced, refused, late, after, give, ticked,
  put_file, go_live, write_as, went_live, or_raise, with_outcome, write_install, write_outcome,
  activate, healthy, restore, load_install,
}
use lite_checker.Update.Store.{
  Counts, remove_as, remove_release, sweep, cleanup, count_release, kept_versions, no_counts,
}
use lite_checker.Update.Recovery.{
  Report, drop_release, try_cleanup, with_cleanup, release_path, maintenance_lock, won, closed_with,
}
use lite_checker.Update.Check.{ChannelFile}
use lite_checker.Update.Check.Sound.{Sound, Safe, after-Keeps, rescue-Keeps}
use lite_checker.Update.Check.Ends.{Ends, Ends-both, rescued-returns}

module _ (e : Environment) where
  -- two calls that change nothing but the tick
  pub release_path-Ends :
      (P : Machine → Type 0) (v : Option String) (w : Machine)
      → P (ticked w)
      → Ends (λ _. P) P (release_path e v w)
  unfolding release_path
  release_path-Ends P v w p = elim (Outcome-cases (e.release_marker w.tick v)) [
    | inr (x, bad) ↦ rw bad p
    | inl (theirs, good) ↦ rw good (elim (Outcome-cases e.distribution) [
      | inr (x, bad) ↦ rw bad p
      | inl (ours, found) ↦
          rw found (elim (Bool-cases (option_beq theirs ours)) [ inl t ↦ rw t p | inr t ↦ rw t p ])
    ])
  ]

  pub maintenance_lock-Ends :
      (P : Machine → Type 0) (w : Machine) → P (ticked w) → Ends (λ _. P) P (maintenance_lock e w)
  unfolding maintenance_lock
  maintenance_lock-Ends P w p = split (e.maintenance w.tick)
    where
      split : (l : Lock) → Ends (λ _. P) P (won e l (ticked w))
      split acquired = p
      split held = p
      split unsafe = p
      split crashed = p

module _ (e : Environment) where
  -- a reading of the file
  pub load_install-cases :
      (Q : InstallState → Machine → Type 0) (E : Machine → Type 0) (w : Machine)
      → ((s : InstallState) → read_install w.install ≡ some s → Q s (ticked w))
      → E (ticked w)
      → Ends Q E (load_install e w)
  unfolding load_install
  load_install-cases Q E w q k = elim (Bool-cases (e.reads w.tick)) [
    | inr t ↦ rw t k
    | inl t ↦ rw t (elim (Option-cases (read_install w.install)) [
      | inl no_state ↦ rw no_state k
      | inr (s, found) ↦ rw found (q s found)
    ])
  ]

-- What the release directories have no part in is kept by the calls that change those alone.
module _ (e : Environment) (K : List Moment → InstallFile → Place → InstallState → Type 0) where
  abbrev Holds : Machine → Type 0
  Holds w = K w.past w.install w.live w.state

  remove_as-Keeps : (r : Removal) (v : String) (w : Machine) → Holds w → Holds (remove_as r v w).1
  remove_as-Keeps deleted v w s = s
  remove_as-Keeps left v w s = s
  remove_as-Keeps deferred v w s = s
  remove_as-Keeps broken v w s = s

  pub remove_release-Keeps : (v : String) (w : Machine) → Holds w → Holds (remove_release e v w).1
  unfolding remove_release
  remove_release-Keeps v w s =
      elim (Bool-cases (not (is_version v) || contains (e.live_versions w.tick) v)) [
        | inl t ↦ rw t s
        | inr t ↦ rw t (remove_as-Keeps (e.removes (w.tick + 1) v) v _ s)
      ]

  sweep-Keeps :
      (kept vs : List String) (c : Counts) (w : Machine) → Holds w → Holds (sweep e kept vs c w).1
  unfolding sweep
  sweep-Keeps kept [] c w s = s
  sweep-Keeps kept (v ∷ vs) c w s = elim (Bool-cases (contains kept v || not (is_version v))) [
    | inl t ↦ rw t (sweep-Keeps kept vs c w s)
    | inr t ↦ rw t (
        let r = e.removes w.tick v in
        after-Keeps Holds (remove_as r v (ticked w)) (λ _. sweep e kept vs (count_release r c))
          (remove_as-Keeps r v (ticked w) s) (λ _ w'. sweep-Keeps kept vs (count_release r c) w'))
  ]

  load_install-Keeps : (w : Machine) → Holds w → Holds (load_install e w).1
  load_install-Keeps w s =
      Ends-both Holds (load_install e w) (load_install-cases e (λ _. Holds) Holds w (λ _ _. s) s)

  cleanup-Keeps : (caller : InstallState) (w : Machine) → Holds w → Holds (cleanup e caller w).1
  unfolding cleanup
  cleanup-Keeps caller w s =
      after-Keeps Holds (load_install e (ticked w)) _ (load_install-Keeps (ticked w) s) (λ t v sv.
        after-Keeps Holds
          (sweep e (kept_versions caller t (e.live_versions w.tick)) v.releases no_counts v) _
          (sweep-Keeps (kept_versions caller t (e.live_versions w.tick)) v.releases no_counts v sv)
          (λ _ u su. su))

  try_cleanup-Keeps :
      (caller : InstallState) (w : Machine) → Holds w → Holds (try_cleanup e caller w).1
  unfolding try_cleanup
  try_cleanup-Keeps caller w s =
      rescue-Keeps Holds _ _
        (after-Keeps Holds (cleanup e caller w) _ (cleanup-Keeps caller w s) (λ _ u su. su))
        (λ u su. su)

  drop_release-Keeps : (v : Option String) (w : Machine) → Holds w → Holds (drop_release e v w).1
  unfolding drop_release
  drop_release-Keeps none w s = s
  drop_release-Keeps (some v) w s =
      rescue-Keeps Holds _ _
        (after-Keeps Holds (remove_release e v w) _ (remove_release-Keeps v w s) (λ _ u su. su))
        (λ u su. su)

  pub with_cleanup-Keeps :
      (status : Status) (error remove : Option String) (w : Machine)
      → Holds w
      → Holds (with_cleanup e status error remove w).1
  unfolding with_cleanup
  with_cleanup-Keeps status error remove w s =
      after-Keeps Holds (drop_release e remove w) _ (drop_release-Keeps remove w s) (λ warning v sv.
        after-Keeps Holds (try_cleanup e v.state v) _ (try_cleanup-Keeps v.state v sv)
          (λ _ u su. su))

pub with_cleanup-returns :
    (e : Environment) (status : Status) (error : Option String) (v : String) (w : Machine)
    → (r : Report) × ((with_cleanup e status error (some v) w).0 ≡ returned r)
unfolding with_cleanup drop_release try_cleanup
with_cleanup-returns e status error v w =
    rescued-returns (after (remove_release e v w) (λ _. give none)) (some "update-cleanup-failed") _
      (λ warning u.
        rescued-returns (after (cleanup e u.state u) (λ c. give (true, c))) (false, no_counts) _
          (λ counts t. (_, refl)))

module _ (e : Environment) (timely : (t : ℕ) → e.writes t ≢ late) where
  -- a write ends with the state in the file, or changes nothing but the tick
  pub write_install-cases :
      (Q : Unit {0} → Machine → Type 0) (E : Machine → Type 0) (s : InstallState) (w : Machine)
      → Q tt (put_file s (ticked w))
      → E w
      → E (ticked w)
      → Ends Q E (write_install e s w)
  unfolding write_install
  write_install-cases Q E s w q k t = elim (Bool-cases (valid_install s)) [
    | inr bad ↦ simp bad k
    | inl good ↦ simp good (split (e.writes w.tick) (timely w.tick))
  ]
    where
      split : (o : Written) → o ≢ late → Ends Q E (write_as o s (ticked w))
      split replaced n = q
      split refused n = t
      split late n = absurd (n refl)

  -- an activation and the question for health
  pub restore-cases :
      (Q : Bool → Machine → Type 0) (E : Machine → Type 0) (v : Option String) (running : Bool)
      (w : Machine)
      → ((b : Bool) → Q b (ticked (go_live (at v) (ticked w))))
      → E (ticked (go_live (at v) (ticked w)))
      → E (go_live unknown (ticked w))
      → Ends Q E (restore e v running w)
  unfolding restore activate healthy
  restore-cases Q E v running w q k u = split (e.activates w.tick v running)
    where
      answer : (o : Option Bool) → Ends Q E (or_raise o (ticked (go_live (at v) (ticked w))))
      answer none = k
      answer (some b) = q b

      split :
          (done : Bool) → Ends Q E (after (went_live done v (ticked w)) (λ _. healthy e v running))
      split true = answer (e.healthy (w.tick + 1) v running)
      split false = u

  module _ (f : Formats) (file : ChannelFile) (b : InstallState) where
    abbrev SafeNow : Machine → Type 0
    SafeNow = Safe f e file b

    -- a state that is sound here may be written
    pub write_install-Safe :
        (s : InstallState) (w : Machine)
        → SafeNow w
        → Sound f e file b s w.live
        → SafeNow (write_install e s w).1
    write_install-Safe s w (past, whole, memory) sound = Ends-both SafeNow (write_install e s w) (
        write_install-cases (λ _. SafeNow) SafeNow s w ((sound, past), sound, memory)
          (past, whole, memory) (past, whole, memory))

    pub write_outcome-Safe :
        (status : Status) (error : Option String) (w : Machine)
        → SafeNow w
        → SafeNow (write_outcome e status error w).1
    unfolding write_outcome
    write_outcome-Safe status error w (past, whole, memory) =
        write_install-Safe (with_outcome e status error w.state)
          (record w { state = with_outcome e status error w.state }) (past, whole, memory) memory

    pub closed_with-Safe :
        (status : Status) (text : String) (w : Machine)
        → SafeNow w
        → SafeNow (closed_with e status text w).1
    unfolding closed_with
    closed_with-Safe status text w s =
        after-Keeps SafeNow (write_outcome e status (some text) w) _
          (write_outcome-Safe status (some text) w s) (λ _ u su. su)
