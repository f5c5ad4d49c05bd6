-- ===== src/Update/Check/Marks.antt =====
-- The mark of the install file through the whole of `check_for_update`.
use lite_checker.Prelude.{
  ℕ, ◌≤◌, ◌≡◌, ◌≢◌, refl, subst, inl, inr, String, Bool, true, false, not, ◌&&◌, Option, none, some,
  List, [], ◌∷◌, Bool-cases, Option-cases, Outcome, returned, raised, string_eq, nat_eq, ltb, arith,
  if◌then◌else◌,
}
use lite_checker.Update.Manifest.{Formats, ReleaseMetadata, ChannelConfig}
use lite_checker.Update.Install.{
  Status, InstallState, InstallFile, missing, unusable, stored, read_install, failed, current,
}
use lite_checker.Update.Machine.{
  Environment, Machine, late, ticked, after, rescue, give, write_install, write_outcome,
  load_install,
}
use lite_checker.Update.Recovery.{Report, closed_with, with_cleanup, recover, recover_pending}
use lite_checker.Update.Switch.{install_release, marked, after_mark, raise_from, raise_mark}
use lite_checker.Update.Check.{
  ChannelFile, authenticate, find_release, names, unless_failed, outdated, outdated_text,
  compare_versions, is_installed, conflicts, judge, with_release, look_up, too_early, past_calendar,
  unless_recovered, transact, fail_safely,
}
use lite_checker.Update.Check.Sound.{after-Keeps, rescue-Keeps}
use lite_checker.Update.Check.Steps.{load_install-cases}
use lite_checker.Update.Check.Ends.{after-Last}
use lite_checker.Update.Check.Judged.{Compared, outdated-Ends}
use lite_checker.Update.Check.Rising.{
  mark_of, Rises, Held, write_install-Held, write_outcome-Held, closed_with-Held, with_cleanup-Held,
  recover_pending-Held,
}
use lite_checker.Update.Check.Raised.{succeeds-Held, install_release-Held}

-- no moment has a mark above that of the variable, and none moves it back
abbrev pub Risen : Machine → Type 0
Risen w = Rises w.past w.install × (mark_of w.install ≤ w.state.highest_sequence)

pub read_install-mark :
    (i : InstallFile) (s : InstallState) → read_install i ≡ some s → mark_of i ≤ s.highest_sequence
unfolding read_install
read_install-mark missing s h = omega arith
read_install-mark unusable s h = omega arith
read_install-mark (stored t) s h =
    let same : t ≡ s = ground arith in
    subst (λ x. t.highest_sequence ≤ x.highest_sequence) same (omega arith)

module _ (e : Environment) where
  Held-Risen : (m : ℕ) (w : Machine) → Held e m w → Risen w
  Held-Risen m w (rises, below, held) = (rises, omega (arith, below, held))

  Risen-Held : (w : Machine) → Risen w → Held e w.state.highest_sequence w
  Risen-Held w (rises, below) = (rises, below, refl)

  write_outcome-Risen :
      (status : Status) (error : Option String) (w : Machine)
      → Risen w
      → Risen (write_outcome e status error w).1
  write_outcome-Risen status error w h =
      Held-Risen w.state.highest_sequence (write_outcome e status error w).1
        (write_outcome-Held e w.state.highest_sequence status error w (Risen-Held w h))

  closed_with-Risen :
      (status : Status) (text : String) (w : Machine)
      → Risen w
      → Risen (closed_with e status text w).1
  closed_with-Risen status text w h =
      Held-Risen w.state.highest_sequence (closed_with e status text w).1
        (closed_with-Held e w.state.highest_sequence status text w (Risen-Held w h))

  with_cleanup-Risen :
      (status : Status) (error remove : Option String) (w : Machine)
      → Risen w
      → Risen (with_cleanup e status error remove w).1
  with_cleanup-Risen status error remove w h =
      Held-Risen w.state.highest_sequence (with_cleanup e status error remove w).1
        (with_cleanup-Held e w.state.highest_sequence status error remove w (Risen-Held w h))

  recover-Risen : (w : Machine) → Risen w → Risen (recover e w).1
  unfolding recover
  recover-Risen w h =
      Held-Risen w.state.highest_sequence (recover_pending e w.state.pending w).1
        (recover_pending-Held e w.state.highest_sequence w.state.pending w (Risen-Held w h))

  -- the release is not behind the variable
  abbrev Ahead : ReleaseMetadata → Machine → Type 0
  Ahead r w = Risen w × (ltb r.sequence w.state.highest_sequence ≡ false)

  after_mark-Risen :
      (r : ReleaseMetadata) (s : InstallState) (done : Bool) (w : Machine)
      → Held e r.sequence w
      → Risen (after_mark e r s done w).1
  unfolding after_mark
  after_mark-Risen r s true w h =
      Held-Risen r.sequence (install_release e r w).1 (install_release-Held e r w h)
  after_mark-Risen r s false w h = Held-Risen r.sequence w h

  marked_then :
      (r : ReleaseMetadata) (s : InstallState) (x : Outcome Bool × Machine)
      → Held e r.sequence x.1
      → Risen (after x (after_mark e r s)).1
  marked_then r s (returned done, w) h = after_mark-Risen r s done w h
  marked_then r s (raised y, w) h = Held-Risen r.sequence w h

  raise_from-Risen :
      (r : ReleaseMetadata) (higher : Bool) (w : Machine)
      → ltb w.state.highest_sequence r.sequence ≡ higher
      → Ahead r w
      → Risen (raise_from e r w.state higher w).1
  unfolding raise_from
  raise_from-Risen r true w q ((rises, below), low) =
      let v : Machine = record w { state = marked e r w.state } in
      let held : Held e r.sequence v = (rises, ground (arith, q, below), refl) in
      marked_then r w.state _ (
        succeeds-Held e r (write_install e (marked e r w.state) v)
          (write_install-Held e r.sequence (marked e r w.state) v refl held))
  raise_from-Risen r false w q ((rises, below), low) =
      let same : w.state.highest_sequence ≡ r.sequence = ground (arith, q, low) in
      Held-Risen r.sequence (install_release e r w).1
        (install_release-Held e r w (rises, omega (arith, below, same), same))

  raise_mark-Risen : (r : ReleaseMetadata) (w : Machine) → Ahead r w → Risen (raise_mark e r w).1
  unfolding raise_mark
  raise_mark-Risen r w h = raise_from-Risen r (ltb w.state.highest_sequence r.sequence) w refl h

module _ (e : Environment) (timely : (t : ℕ) → e.writes t ≢ late) (f : Formats) (file : ChannelFile)
    (b : InstallState) where
  unless_failed-Risen :
      (r : ReleaseMetadata) (w : Machine) → Ahead e r w → Risen (unless_failed f e r w).1
  unfolding unless_failed
  unless_failed-Risen r w h = elim (Bool-cases (names f e r w.state.failure)) [
    | inl t ↦ rw t (closed_with-Risen e failed "release previously failed local activation" w h.0)
    | inr t ↦ rw t (raise_mark-Risen e r w h)
  ]

  compare_versions-Risen :
      (r : ReleaseMetadata) (w : Machine) → Ahead e r w → Risen (compare_versions f e r w).1
  unfolding compare_versions
  compare_versions-Risen r w h =
      after-Last (λ old v. Ahead e r v × Compared e timely f file b r w.state.active old)
        (Ahead e r) Risen (outdated f e r w.state.active w) _
        (outdated-Ends e timely f file b (Ahead e r) r w.state.active w h h) (λ v k. k.0) split
    where
      split :
          (old : Bool) (v : Machine)
          → Ahead e r v × Compared e timely f file b r w.state.active old
          → Risen
              ((if old
                  then closed_with e failed (outdated_text f e w.state.active)
                  else unless_failed f e r)
                v).1
      split true v (k, _) = closed_with-Risen e failed (outdated_text f e w.state.active) v k.0
      split false v (k, _) = unless_failed-Risen r v k

  judge-Risen : (r : ReleaseMetadata) (w : Machine) → Risen w → Risen (judge f e r w).1
  unfolding judge
  judge-Risen r w h = elim (Bool-cases (ltb r.sequence w.state.highest_sequence)) [
    | inl low ↦
        rw low (closed_with-Risen e failed "release sequence is older than installed state" w h)
    | inr low ↦ rw low (elim (Bool-cases (is_installed f e r w.state)) [
      | inl t ↦ rw t (
          after-Keeps Risen (write_outcome e current none w) (λ _. with_cleanup e current none none)
            (write_outcome-Risen e current none w h)
            (λ _ v. with_cleanup-Risen e current none none v))
      | inr t ↦ rw t (elim (Bool-cases (conflicts f e r w.state)) [
        | inl c ↦
            rw c (closed_with-Risen e failed "release sequence conflicts with installed state" w h)
        | inr c ↦ rw c (compare_versions-Risen r w (h, low))
      ])
    ])
  ]

  find_release-Risen :
      (c : ChannelConfig) (urls : List String) (w : Machine)
      → Risen w
      → Risen (find_release f e c urls w).1
  unfolding find_release
  find_release-Risen c [] w h = h
  find_release-Risen c (url ∷ urls) w h =
      elim (Option-cases (authenticate f e c (e.metadata w.tick url))) [
        | inl bad ↦ rw bad (find_release-Risen c urls (ticked w) h)
        | inr (r, good) ↦ rw good h
      ]

  with_release-Risen :
      (found : Option ReleaseMetadata) (w : Machine) → Risen w → Risen (with_release f e found w).1
  unfolding with_release
  with_release-Risen (some r) w h = judge-Risen r w h
  with_release-Risen none w h =
      after-Keeps Risen
        (write_outcome e failed (some "release metadata is unavailable or invalid") w)
        (λ _. with_cleanup e failed (some "release metadata is unavailable or invalid") none)
        (write_outcome-Risen e failed (some "release metadata is unavailable or invalid") w h)
        (λ _ v.
          with_cleanup-Risen e failed (some "release metadata is unavailable or invalid") none v)

  look_up-Risen :
      (c : ChannelConfig) (now : ℕ) (w : Machine) → Risen w → Risen (look_up f e c now w).1
  unfolding look_up
  look_up-Risen c now w h =
      after-Keeps Risen (find_release f e c c.manifest_urls w) _
        (find_release-Risen c c.manifest_urls w h)
        (λ found v.
          with_release-Risen found
            (record v { state = record v.state { last_checked_at = some now } }))

  unless_recovered-Risen :
      (force : Bool) (c : ChannelConfig) (now : ℕ) (r : Option Report) (w : Machine)
      → Risen w
      → Risen (unless_recovered f e force c now r w).1
  unfolding unless_recovered
  unless_recovered-Risen force c now (some r) w h = h
  unless_recovered-Risen force c now none w h = elim (Bool-cases (not c.enabled)) [
    | inl off ↦ rw off h
    | inr on ↦ rw on (elim (Bool-cases (not force && past_calendar f e w.state.last_checked_at)) [
      | inl t ↦ rw t h
      | inr t ↦ rw t (elim (Bool-cases (not force && too_early f e now w.state.last_checked_at)) [
        | inl u ↦ rw u h
        | inr u ↦ rw u (look_up-Risen c now w h)
      ])
    ])
  ]

  pub transact-Risen :
      (force : Bool) (c : ChannelConfig) (now : ℕ) (w : Machine)
      → Risen w
      → Risen (transact f e force c now w).1
  unfolding transact
  transact-Risen force c now w h =
      after-Last (λ s v. Risen (record v { state = s })) Risen Risen (load_install e w) _
        (load_install-cases e (λ s v. Risen (record v { state = s })) Risen w
          (λ s found. (h.0, read_install-mark w.install s found)) h)
        (λ v k. k)
        (λ s v k.
          after-Keeps Risen (recover e (record v { state = s })) (unless_recovered f e force c now)
            (recover-Risen e (record v { state = s }) k) (unless_recovered-Risen force c now))

  pub fail_safely-Risen : (now : ℕ) (w : Machine) → Risen w → Risen (fail_safely f e now w).1
  unfolding fail_safely
  fail_safely-Risen now w h =
      let v : Machine = record w { state = record w.state { last_checked_at = some now } } in
      after-Keeps Risen
        (rescue (write_outcome e failed (some "update operation failed safely") v) (give tt)) _
        (rescue-Keeps Risen (write_outcome e failed (some "update operation failed safely") v)
          (give tt) (write_outcome-Risen e failed (some "update operation failed safely") v h)
          (λ _ k. k))
        (λ _ _ k. k)
