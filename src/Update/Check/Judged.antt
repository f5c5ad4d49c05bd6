-- ===== src/Update/Check/Judged.antt =====
-- A release is installed only if it was offered: the metadata, the sequence and the version.
use lite_checker.Prelude.{
  ℕ, ◌≡◌, ◌≢◌, subst, inl, inr, String, Bool, true, false, not, ◌&&◌, Option, none, some, List, [],
  ◌∷◌, Bool-cases, Option-cases, Outcome-cases, option_beq, string_eq, nat_eq, ◌==◌, ltb, arith,
  eq_iff, if◌then◌else◌,
}
use lite_checker.Update.Version.{parse_version, version_lt, version_le, version_le-total}
use lite_checker.Update.Manifest.{Formats, ReleaseMetadata, ChannelConfig}
use lite_checker.Update.Install.{InstallState, failed, current}
use lite_checker.Update.Machine.{Environment, Machine, late, ticked, write_outcome}
use lite_checker.Update.Recovery.{closed_with, with_cleanup}
use lite_checker.Update.Check.{
  ChannelFile, load_channel, authenticate, find_release, names, unless_failed, outdated,
  outdated_text, compare_versions, is_installed, conflicts, judge, with_release, look_up,
}
use lite_checker.Update.Check.Sound.{SafeAt, Safe, MarkKept, Newer, IsOffered, after-Keeps}
use lite_checker.Update.Check.Steps.{write_outcome-Safe, with_cleanup-Keeps, closed_with-Safe}
use lite_checker.Update.Check.Ends.{Ends, after-Last}
use lite_checker.Update.Check.Installed.{Fresh, raise_mark-Safe}

module _ (e : Environment) (timely : (t : ℕ) → e.writes t ≢ late) (f : Formats) (file : ChannelFile)
    (b : InstallState) where
  abbrev SafeNow : Machine → Type 0
  SafeNow = Safe f e file b

  -- fresh, with the mark of the start
  abbrev pub Unmarked : Machine → Type 0
  Unmarked w =
      Fresh e timely f file b w
      × (w.state.highest_sequence ≡ b.highest_sequence)
      × (w.state.highest_digest ≡ b.highest_digest)

  -- signed metadata of the channel
  abbrev Signed : ReleaseMetadata → Type 0
  Signed r =
      (c : ChannelConfig) × (bytes : Option (List ℕ)) × (load_channel f e file ≡ some (some c))
      × (authenticate f e c bytes ≡ some r)

  abbrev Marked : ReleaseMetadata → Type 0
  Marked r = MarkKept b.highest_sequence b.highest_digest r.sequence (some r.artifact.sha256)

  unless_failed-Safe :
      (r : ReleaseMetadata) (w : Machine)
      → IsOffered f e file b.active r
      → Marked r
      → Fresh e timely f file b w
      → SafeNow (unless_failed f e r w).1
  unfolding unless_failed
  unless_failed-Safe r w offered kept fresh = elim (Bool-cases (names f e r w.state.failure)) [
    | inl t ↦ rw t (
        closed_with-Safe e timely f file b failed "release previously failed local activation" w
          fresh.0)
    | inr t ↦ rw t (raise_mark-Safe e timely f file b r offered kept w fresh)
  ]

  -- a version that is not outdated is newer
  abbrev pub Compared : ReleaseMetadata → Option String → Bool → Type 0
  Compared r active true = Unit
  Compared r active false = Newer f e file active r.version

  pub outdated-Ends :
      (P : Machine → Type 0) (r : ReleaseMetadata) (active : Option String) (w : Machine)
      → P w
      → P (ticked w)
      → Ends (λ old v. P v × Compared r active old) P (outdated f e r active w)
  unfolding outdated
  outdated-Ends P r (some v) w p q = elim (Option-cases (parse_version r.version)) [
    | inl bad ↦ rw bad p
    | inr (n, theirs) ↦ rw theirs (elim (Option-cases (parse_version v)) [
      | inl bad ↦ rw bad p
      | inr (m, ours) ↦ rw ours (elim (Bool-cases (version_le n m)) [
        | inl t ↦ rw t (p, tt)
        | inr t ↦ rw t (p, (m, n, ours, theirs, version_le-total n m t))
      ])
    ])
  ]
  outdated-Ends P r none w p q = elim (Option-cases (parse_version r.version)) [
    | inl bad ↦ rw bad p
    | inr (n, theirs) ↦ rw theirs (elim (Outcome-cases (e.baseline_version w.tick)) [
      | inr (x, bad) ↦ rw bad q
      | inl (m, ours) ↦ rw ours (elim (Bool-cases (version_lt n m)) [
        | inl t ↦ rw t (q, tt)
        | inr t ↦ rw t (q, (w.tick, n, m, theirs, ours, t))
      ])
    ])
  ]

  compare_versions-Safe :
      (r : ReleaseMetadata) (w : Machine)
      → Signed r
      → Marked r
      → Fresh e timely f file b w
      → SafeNow (compare_versions f e r w).1
  unfolding compare_versions
  compare_versions-Safe r w (c, bytes, loaded, signed) kept fresh =
      after-Last (λ old v. Fresh e timely f file b v × Compared r w.state.active old)
        (Fresh e timely f file b) SafeNow (outdated f e r w.state.active w) _
        (outdated-Ends (Fresh e timely f file b) r w.state.active w fresh fresh) (λ v k. k.0) split
    where
      split :
          (old : Bool) (v : Machine)
          → Fresh e timely f file b v × Compared r w.state.active old
          → SafeNow
              ((if old
                  then closed_with e failed (outdated_text f e w.state.active)
                  else unless_failed f e r)
                v).1
      split true v (k, _) =
          closed_with-Safe e timely f file b failed (outdated_text f e w.state.active) v k.0
      split false v (k, newer) =
          unless_failed-Safe r v
            (c, bytes, loaded, signed, subst (λ a. Newer f e file a r.version) fresh.1 newer) kept k

  -- what the tests on the sequence leave
  marked-kept :
      (r : ReleaseMetadata) (n : ℕ) (d : Option String)
      → ltb r.sequence n ≡ false
      → (r.sequence == n && not (option_beq (some r.artifact.sha256) d)) ≡ false
      → MarkKept n d r.sequence (some r.artifact.sha256)
  marked-kept r n d low h = elim (Bool-cases (ltb n r.sequence)) [
    | inl t ↦ inl (ground arith)
    | inr t ↦ inr (ground arith, same d (ground arith))
  ]
    where
      same :
          (d : Option String)
          → not (option_beq (some r.artifact.sha256) d) ≡ false
          → d ≡ some r.artifact.sha256
      same none k = absurd (cc k)
      same (some x) k = ground (arith, eq_iff r.artifact.sha256 x)

  judge-Safe :
      (r : ReleaseMetadata) (w : Machine) → Signed r → Unmarked w → SafeNow (judge f e r w).1
  unfolding judge
  judge-Safe r w signed (fresh, sequence, digest) =
      elim (Bool-cases (ltb r.sequence w.state.highest_sequence)) [
        | inl low ↦ rw low (closed "release sequence is older than installed state")
        | inr low ↦ rw low (elim (Bool-cases (is_installed f e r w.state)) [
          | inl t ↦ rw t (
              after-Keeps SafeNow (write_outcome e current none w)
                (λ _. with_cleanup e current none none)
                (write_outcome-Safe e timely f file b current none w fresh.0)
                (λ _ v. with_cleanup-Keeps e (SafeAt f e file b) current none none v))
          | inr t ↦ rw t (elim (Bool-cases (conflicts f e r w.state)) [
            | inl c ↦ rw c (closed "release sequence conflicts with installed state")
            | inr c ↦ rw c (compare_versions-Safe r w signed (kept low c) fresh)
          ])
        ])
      ]
    where
      closed : (text : String) → SafeNow (closed_with e failed text w).1
      closed text = closed_with-Safe e timely f file b failed text w fresh.0

      kept :
          ltb r.sequence w.state.highest_sequence ≡ false
          → conflicts f e r w.state ≡ false
          → Marked r
      kept low agrees =
          subst (λ n. MarkKept n b.highest_digest r.sequence (some r.artifact.sha256)) sequence
            (subst (λ d. MarkKept w.state.highest_sequence d r.sequence (some r.artifact.sha256))
              digest (marked-kept r w.state.highest_sequence w.state.highest_digest low agrees))

  -- a release that was found is signed
  abbrev Found : Option ReleaseMetadata → Type 0
  Found none = Unit
  Found (some r) = Signed r

  find_release-Ends :
      (c : ChannelConfig) (urls : List String) (w : Machine)
      → load_channel f e file ≡ some (some c)
      → Unmarked w
      → Ends (λ found v. Unmarked v × Found found) Unmarked (find_release f e c urls w)
  unfolding find_release
  find_release-Ends c [] w loaded k = (k, tt)
  find_release-Ends c (url ∷ urls) w loaded k =
      elim (Option-cases (authenticate f e c (e.metadata w.tick url))) [
        | inl bad ↦ rw bad (find_release-Ends c urls (ticked w) loaded k)
        | inr (r, good) ↦ rw good (k, (c, e.metadata w.tick url, loaded, good))
      ]

  with_release-Safe :
      (found : Option ReleaseMetadata) (w : Machine)
      → Found found
      → Unmarked w
      → SafeNow (with_release f e found w).1
  unfolding with_release
  with_release-Safe (some r) w signed k = judge-Safe r w signed k
  with_release-Safe none w _ k =
      after-Keeps SafeNow
        (write_outcome e failed (some "release metadata is unavailable or invalid") w)
        (λ _. with_cleanup e failed (some "release metadata is unavailable or invalid") none)
        (write_outcome-Safe e timely f file b failed
          (some "release metadata is unavailable or invalid") w k.0.0)
        (λ _ v.
          with_cleanup-Keeps e (SafeAt f e file b) failed
            (some "release metadata is unavailable or invalid") none v)

  pub look_up-Safe :
      (c : ChannelConfig) (now : ℕ) (w : Machine)
      → load_channel f e file ≡ some (some c)
      → Unmarked w
      → SafeNow (look_up f e c now w).1
  unfolding look_up
  look_up-Safe c now w loaded k =
      after-Last (λ found v. Unmarked v × Found found) Unmarked SafeNow
        (find_release f e c c.manifest_urls w) _ (find_release-Ends c c.manifest_urls w loaded k)
        (λ v u. u.0.0)
        (λ found v u.
          with_release-Safe found
            (record v { state = record v.state { last_checked_at = some now } }) u.1 u.0)
