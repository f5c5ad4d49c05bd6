-- ===== src/Update/Check/Installed.antt =====
-- The installation of a release that was offered: the mark, the archive, the journal.
use lite_checker.Prelude.{
  ℕ, ◌≡◌, ◌≢◌, ◌∙◌, refl, sym, ap, subst, inl, inr, String, Bool, true, false, Option, none, some,
  List, [], ◌∷◌, Bool-cases, ltb,
}
use lite_checker.Update.Manifest.{Formats, ReleaseMetadata}
use lite_checker.Update.Install.{InstallState, failed}
use lite_checker.Update.Machine.{
  Environment, Machine, Place, at, late, ticked, write_install, check, or_raise,
}
use lite_checker.Update.Store.{remove_release, stage, stage_as}
use lite_checker.Update.Recovery.{maintenance_lock, release_path}
use lite_checker.Update.Switch.{
  switch_under, journal_of, after_journal, journal, obtain, get_ready, after_ready, after_obtain,
  install_release, marked, after_mark, raise_from, raise_mark,
}
use lite_checker.Update.Check.{ChannelFile}
use lite_checker.Update.Check.Sound.{
  SafeAt, Sound, Safe, Journalled, Journalled-Safe, MarkKept, Recoverable, IsOffered, after-Keeps,
}
use lite_checker.Update.Check.Steps.{
  write_install-cases, release_path-Ends, maintenance_lock-Ends, remove_release-Keeps,
  closed_with-Safe,
}
use lite_checker.Update.Check.Ends.{
  Ends, Either, Never, after-Ends, rescue-Ends, succeeds-Ends, after-Last,
}
use lite_checker.Update.Check.Switched.{switch_under-Safe}

module _ (e : Environment) (timely : (t : ℕ) → e.writes t ≢ late) (f : Formats) (file : ChannelFile)
    (b : InstallState) where
  abbrev SafeNow : Machine → Type 0
  SafeNow = Safe f e file b

  -- nothing has been journalled or committed
  abbrev pub Fresh : Machine → Type 0
  Fresh w =
      Safe f e file b w
      × (w.state.active ≡ b.active)
      × (w.state.previous ≡ b.previous)
      × (w.state.pending ≡ none)

  pub Fresh-live : (w : Machine) → Fresh w → w.live ≡ at b.active
  Fresh-live w ((past, whole, (idle, mark, moved)), active, previous, pending) =
      subst (λ p. Recoverable p w.state.active w.live) pending idle ∙ ap at active

  module _ (r : ReleaseMetadata) (offered : IsOffered f e file b.active r)
      (kept : MarkKept b.highest_sequence b.highest_digest r.sequence
        (some r.artifact.sha256)) where
    -- the journal is on disk, and the old release runs
    abbrev Ready : Machine → Type 0
    Ready w = Journalled f e file b w × (w.live ≡ at b.active)

    after_journal-Safe :
        (running : Bool) (s : InstallState) (done : Bool) (w : Machine)
        → s.active ≡ b.active
        → Either Ready SafeNow done w
        → SafeNow (after_journal e r running s done w).1
    unfolding after_journal
    after_journal-Safe running s false w same safe =
        after-Keeps SafeNow (remove_release e r.version w) _
          (remove_release-Keeps e (SafeAt f e file b) r.version w safe) (λ _ v sv. sv)
    after_journal-Safe running s true w same ready =
        after-Last (λ _. Ready) Ready SafeNow (release_path e s.active w) _
          (release_path-Ends e Ready s.active w ready) weaken
          (λ _ v ready_v.
            after-Last (λ _. Ready) Ready SafeNow (maintenance_lock e v) _
              (maintenance_lock-Ends e Ready v ready_v) weaken
              (λ lock u ready_u.
                subst (λ old. SafeNow (switch_under e r old running lock u).1) (sym same)
                  (switch_under-Safe e timely f file b r offered kept running lock u ready_u)))
      where
        weaken : (w : Machine) → Ready w → SafeNow w
        weaken w ready = Journalled-Safe f e file b w ready.0

    journal-Safe : (running : Bool) (w : Machine) → Fresh w → SafeNow (journal e r running w).1
    unfolding journal
    journal-Safe running w fresh =
        let (past, whole, memory) = fresh.0 in
        let any : (p : Place) → Sound f e file b (journal_of e r running w.state) p =
          λ p. (refl, memory.1, memory.2) in
        let safe : SafeNow (record w { state = journal_of e r running w.state }) =
          (past, whole, any w.live) in
        after-Last (Either Ready SafeNow) Never SafeNow _ _
          (succeeds-Ends Ready SafeNow
            (write_install e (journal_of e r running w.state)
              (record w { state = journal_of e r running w.state }))
            (write_install-cases e timely (λ _. Ready) SafeNow (journal_of e r running w.state)
              (record w { state = journal_of e r running w.state })
              (((any w.live, past), (λ p. (any p, any p)), fresh.1), Fresh-live w fresh) safe safe))
          (λ v n. absurd n) (λ done v k. after_journal-Safe running w.state done v fresh.1 k)

    obtain-Fresh :
        (urls : List String) (w : Machine) → Fresh w → Ends (λ _. Fresh) Fresh (obtain e r urls w)
    unfolding obtain
    obtain-Fresh [] w fresh = fresh
    obtain-Fresh (url ∷ urls) w fresh = elim (Bool-cases (e.archive w.tick url r)) [
      | inl t ↦ rw t fresh
      | inr t ↦ rw t (obtain-Fresh urls (ticked w) fresh)
    ]

    get_ready-Fresh : (w : Machine) → Fresh w → Ends (λ _. Fresh) Fresh (get_ready e r w)
    unfolding get_ready stage
    get_ready-Fresh w fresh =
        after-Ends (λ _. Fresh) (λ _. Fresh) Fresh (stage e r.version w) _
          (staged (e.stages w.tick r.version))
          (λ _ v k.
            after-Ends (λ _. Fresh) (λ _. Fresh) Fresh
              (check (e.prepares v.tick r.version) (ticked v)) _
              (checked (e.prepares v.tick r.version) (ticked v) k)
              (λ _ u ku. answered (e.is_running u.tick) (ticked u) ku))
      where
        staged : (done : Bool) → Ends (λ _. Fresh) Fresh (stage_as done r.version (ticked w))
        staged true = fresh
        staged false = fresh

        answered :
            (o : Option Bool) (v : Machine) → Fresh v → Ends (λ _. Fresh) Fresh (or_raise o v)
        answered none v k = k
        answered (some t) v k = k

        checked : (done : Bool) (v : Machine) → Fresh v → Ends (λ _. Fresh) Fresh (check done v)
        checked true v k = k
        checked false v k = k

    after_ready-Safe :
        (ready : Option Bool) (w : Machine) → Fresh w → SafeNow (after_ready e r ready w).1
    unfolding after_ready
    after_ready-Safe (some running) w fresh = journal-Safe running w fresh
    after_ready-Safe none w fresh =
        after-Keeps SafeNow (remove_release e r.version w) _
          (remove_release-Keeps e (SafeAt f e file b) r.version w fresh.0)
          (λ _ v. closed_with-Safe e timely f file b failed "release preparation failed" v)

    after_obtain-Safe :
        (found : Bool) (w : Machine) → Fresh w → SafeNow (after_obtain e r found w).1
    unfolding after_obtain
    after_obtain-Safe false w fresh =
        closed_with-Safe e timely f file b failed "release archive is unavailable or invalid" w
          fresh.0
    after_obtain-Safe true w fresh =
        after-Last (λ _. Fresh) Never SafeNow _ _
          (rescue-Ends (λ _. Fresh) Fresh Never _ _
            (after-Ends (λ _. Fresh) (λ _. Fresh) Fresh (get_ready e r w) _
              (get_ready-Fresh w fresh) (λ _ v k. k))
            (λ v k. k))
          (λ v n. absurd n) after_ready-Safe

    install_release-Safe : (w : Machine) → Fresh w → SafeNow (install_release e r w).1
    unfolding install_release
    install_release-Safe w fresh =
        after-Last (λ _. Fresh) Fresh SafeNow (obtain e r r.artifact.urls w) _
          (obtain-Fresh r.artifact.urls w fresh) (λ v k. k.0) after_obtain-Safe

    after_mark-Safe :
        (s : InstallState) (done : Bool) (w : Machine)
        → Fresh w
        → SafeNow (after_mark e r s done w).1
    unfolding after_mark
    after_mark-Safe s true w fresh = install_release-Safe w fresh
    after_mark-Safe s false w fresh = fresh.0

    raise_from-Safe :
        (higher : Bool) (w : Machine) → Fresh w → SafeNow (raise_from e r w.state higher w).1
    unfolding raise_from
    raise_from-Safe false w fresh = install_release-Safe w fresh
    raise_from-Safe true w fresh =
        let (past, whole, memory) = fresh.0 in
        let sound : Sound f e file b (marked e r w.state) w.live =
          (memory.0, kept, inl (fresh.1, fresh.2)) in
        let fresh' : Fresh (record w { state = marked e r w.state }) =
          ((past, whole, sound), fresh.1, fresh.2, fresh.3) in
        after-Last (Either Fresh Fresh) Never SafeNow _ _
          (succeeds-Ends Fresh Fresh
            (write_install e (marked e r w.state) (record w { state = marked e r w.state }))
            (write_install-cases e timely (λ _. Fresh) Fresh (marked e r w.state)
              (record w { state = marked e r w.state })
              (((sound, past), sound, sound), fresh.1, fresh.2, fresh.3) fresh' fresh'))
          (λ v n. absurd n) (λ done v k. after_mark-Safe w.state done v (either done v k))
      where
        either : (done : Bool) (v : Machine) → Either Fresh Fresh done v → Fresh v
        either true v k = k
        either false v k = k

    pub raise_mark-Safe : (w : Machine) → Fresh w → SafeNow (raise_mark e r w).1
    unfolding raise_mark
    raise_mark-Safe w = raise_from-Safe (ltb w.state.highest_sequence r.sequence) w
