-- ===== src/Update/Check/Sound.antt =====
-- What a crash may find at any moment of an update.
use lite_checker.Prelude.{
  ℕ, ◌<◌, ◌≡◌, refl, sym, subst, ◌⊎◌, inl, inr, String, true, false, Option, none, some, List, All,
  Outcome, returned, raised, arith,
}
use lite_checker.Update.Version.{Version, parse_version, version_lt}
use lite_checker.Update.Manifest.{ReleaseMetadata, ChannelConfig, Formats}
use lite_checker.Update.Install.{
  Pending, InstallState, InstallFile, missing, unusable, stored, default_install_state,
  read_install,
}
use lite_checker.Update.Machine.{Environment, Machine, Turn, Place, at, Moment, after, rescue}
use lite_checker.Update.Check.{ChannelFile, load_channel, authenticate}

-- A release runs that the state names, or the journal names the one that the state names, so that
-- the next run goes back to it.
abbrev pub Recoverable : Option Pending → Option String → Place → Type 0
Recoverable none active live = live ≡ at active
Recoverable (some p) active live = p.from_version ≡ active

-- The high-water mark is not below the old one, and one number stands for one digest.
abbrev pub MarkKept : ℕ → Option String → ℕ → Option String → Type 0
MarkKept m d n d' = (m < n) ⊎ ((m ≡ n) × (d ≡ d'))

-- A predicate that each call keeps, however it ends, is kept by a chain and by a handler.
pub after-Keeps :
    {A B : Type 0} (P : Machine → Type 0) (r : Outcome A × Machine) (k : A → Turn B)
    → P r.1
    → ((a : A) (w : Machine) → P w → P (k a w).1)
    → P (after r k).1
after-Keeps P (returned a, w) k s h = h a w s
after-Keeps P (raised x, w) k s h = s

pub rescue-Keeps :
    {A : Type 0} (P : Machine → Type 0) (r : Outcome A × Machine) (h : Turn A)
    → P r.1
    → ((w : Machine) → P w → P (h w).1)
    → P (rescue r h).1
rescue-Keeps P (returned a, w) h s k = s
rescue-Keeps P (raised x, w) h s k = k w s

module _ (f : Formats) (e : Environment) (file : ChannelFile) where
  -- the version stands ahead of the active one, or not behind the baseline
  abbrev pub Newer : Option String → String → Type 0
  Newer none v =
      (t : ℕ) × (n : Version) × (base : Version) × (parse_version v ≡ some n)
      × (e.baseline_version t ≡ returned base)
      × (version_lt n base ≡ false)
  Newer (some old) v =
      (m : Version) × (n : Version) × (parse_version old ≡ some m)
      × (parse_version v ≡ some n)
      × (version_lt m n ≡ true)

  -- The metadata came from the channel, with its signature, its platform and its version ahead.
  abbrev pub IsOffered : Option String → ReleaseMetadata → Type 0
  IsOffered active r =
      (c : ChannelConfig) × (bytes : Option (List ℕ)) × (load_channel f e file ≡ some (some c))
      × (authenticate f e c bytes ≡ some r)
      × Newer active r.version

  -- the state names the same release as before, or the one that was offered, under its number
  abbrev pub Advanced :
      Option String → Option String → Option String → Option String → ℕ → Option String → Type 0
  Advanced active previous active' previous' sequence digest =
      ((active' ≡ active) × (previous' ≡ previous))
      ⊎ ((r : ReleaseMetadata) × IsOffered active r
          × (active' ≡ some r.version)
          × (previous' ≡ active)
          × (sequence ≡ r.sequence)
          × (digest ≡ some r.artifact.sha256))

  abbrev pub Sound : InstallState → InstallState → Place → Type 0
  Sound b s live =
      Recoverable s.pending s.active live
      × MarkKept b.highest_sequence b.highest_digest s.highest_sequence s.highest_digest
      × Advanced b.active b.previous s.active s.previous s.highest_sequence s.highest_digest

  abbrev pub Whole : InstallState → InstallFile → Place → Type 0
  Whole b missing live = Sound b default_install_state live
  Whole b unusable live = ⊥
  Whole b (stored s) live = Sound b s live

  abbrev pub AllWhole : InstallState → List Moment → Type 0
  AllWhole b = All (λ m. Whole b m.install m.live)

  module _ (b : InstallState) where
    abbrev pub SafeAt : List Moment → InstallFile → Place → InstallState → Type 0
    SafeAt past install live s = AllWhole b past × Whole b install live × Sound b s live

    abbrev pub Safe : Machine → Type 0
    Safe w = SafeAt w.past w.install w.live w.state

    -- the journal is in the file and in the variable, so that any release may run
    abbrev pub Journalled : Machine → Type 0
    Journalled w =
        AllWhole b w.past
        × ((p : Place) → Whole b w.install p × Sound b w.state p)
        × (w.state.active ≡ b.active)

    pub Journalled-Safe : (w : Machine) → Journalled w → Safe w
    Journalled-Safe w (past, any, same) = (past, (any w.live).0, (any w.live).1)

    -- a file from which the state is read
    pub Whole-read :
        (i : InstallFile) (live : Place)
        → read_install i ≡ some b
        → Recoverable b.pending b.active live
        → Whole b i live × Sound b b live
    unfolding read_install
    Whole-read missing live h k =
        let same : default_install_state ≡ b = cc in
        let sound : Sound b b live = (k, inr (refl, refl), inl (refl, refl)) in
        (subst (λ s. Sound b s live) (sym same) sound, sound)
    Whole-read unusable live h k = absurd (cc)
    Whole-read (stored s) live h k =
        let same : s ≡ b = ground arith in
        let sound : Sound b b live = (k, inr (refl, refl), inl (refl, refl)) in
        (subst (λ t. Sound b t live) (sym same) sound, sound)
