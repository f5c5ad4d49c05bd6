-- ===== src/Tests/Updates.antt =====
-- The updater on one host: a channel with one signed release, and a host on which all works.
use lite_checker.Prelude.{
  ℕ, zero, suc, ◌≡◌, refl, String, true, false, none, some, List, [], ◌∷◌, length, nat_eq,
  string_eq, ◌==◌, returned, if◌then◌else◌,
}
use lite_checker.Json.{Json, text, int, pos, boolean, arr, obj, nil, cons, end, field}
use lite_checker.Update.Version.{is_digest, match_version}
use lite_checker.Update.Manifest.{
  Formats, ReleaseMetadata, ChannelConfig, parse_channel_config, verify_release_metadata,
}
use lite_checker.Update.Manifest.Signed.{IsSigned, verify_release_metadata-IsSigned}
use lite_checker.Update.Store.{cleanup}
use lite_checker.Update.Install.{
  InstallState, Pending, stored, missing, default_install_state, read_install, valid_install,
}
use lite_checker.Update.Machine.{restore, Environment, Machine, at, acquired, deleted, replaced}
use lite_checker.Update.Check.{ChannelFile, document, load_channel, check_for_update}
use lite_checker.Update.Check.Sound.{Whole}
use lite_checker.Update.Check.Repaired.{Works, repaired, check_for_update-Repaired}

abbrev zeros : ℕ → List ℕ
zeros zero = []
zeros (suc n) = 0 ∷ zeros n

abbrev sample_digest : String
sample_digest = "0123456789abcdef0123456789abcdef0123456789abcdef0123456789abcdef"

abbrev artifact_json : Json
artifact_json = obj (
    field "urls" (arr (cons (text "https://u/a") nil))
      (field "sha256" (text sample_digest) (field "size" (int (pos 9)) end)))

abbrev envelope_json : Json
envelope_json = obj (
    field "schema" (int (pos 1)) (
      field "payload"
        (obj (
          field "version" (text "1.1.0") (
            field "sequence" (int (pos 7))
              (field "published_at" (text "t") (field "artifact" artifact_json end)))))
        (field "signature" (text "sig") end)))

abbrev channel_json : Json
channel_json = obj (
    field "schema" (int (pos 1)) (
      field "enabled" (boolean true) (
        field "public_key" (text "key")
          (field "manifest_urls" (arr (cons (text "https://u/m") nil)) end))))

abbrev sample_formats : Formats
sample_formats = record {
  read_json = λ bytes. if length bytes == 1 then some channel_json else some envelope_json;
  split_url = λ s. some (record {
    scheme = "https";
    hostname = some "u";
    username = none;
    password = none;
    port = none;
    path = "/";
    fragment = "";
  });
  decode_b64 = λ s. if s == "key" then some (zeros 32) else some (zeros 64);
  read_time = λ s. some 0;
  signed_by = λ key signature payload. true;
}

abbrev sample_host : Environment
sample_host = record {
  reads = λ t. true;
  writes = λ t. replaced;
  distribution = returned none;
  release_marker = λ t v. returned none;
  baseline_version = λ t. returned (record { major = 1; minor = 0; patch = 0 });
  host_platform = returned "linux";
  transaction = acquired;
  maintenance = λ t. acquired;
  transaction_releases = λ t. true;
  maintenance_releases = λ t. true;
  activates = λ t v running. true;
  healthy = λ t v running. some true;
  prepares = λ t v. true;
  is_running = λ t. some true;
  metadata = λ t url. some (zeros 2);
  archive = λ t url r. true;
  stages = λ t v. true;
  removes = λ t v. deleted;
  live_versions = λ t. [];
  temporaries = λ t. (0, 0);
}

abbrev sample_machine : Machine
sample_machine = record {
  install = missing;
  live = at none;
  releases = [];
  tick = 0;
  past = [];
  state = default_install_state;
}

abbrev sample_channel : ChannelFile
sample_channel = document (zeros 1)

-- the run installs the release
sample_run :
    (check_for_update sample_formats sample_host sample_channel true missing false 100
      sample_machine).1.live
    ≡ at (some "1.1.0")
unfolding check_for_update parse_channel_config restore cleanup
sample_run = refl

abbrev sample_pending : Pending
sample_pending = record {
  from_version = none;
  to_version = "1.1.0";
  sequence = 7;
  digest = sample_digest;
  was_running = true;
}

-- what a crash left during the switch to a release
abbrev crashed : InstallState
crashed = record default_install_state {
  highest_sequence = 7;
  highest_digest = some sample_digest;
  pending = some sample_pending;
}

abbrev crashed_machine : Machine
crashed_machine = record sample_machine { install = stored crashed; live = at (some "1.1.0") }

sample-Works : Works sample_host
sample-Works = record {
  reads = λ t. refl;
  writes = λ t. refl;
  platform = none;
  root = refl;
  markers = λ t v. refl;
  transaction = refl;
  maintenance = λ t. refl;
  transaction_releases = λ t. refl;
  maintenance_releases = λ t. refl;
  activates = λ t v running. refl;
  healthy = λ t v running. refl;
}

sample_loaded :
    (c : ChannelConfig) × (load_channel sample_formats sample_host sample_channel ≡ some (some c))
unfolding load_channel parse_channel_config
sample_loaded = (_, refl)

check_for_update-Repaired_example :
    ((check_for_update sample_formats sample_host sample_channel true
        (stored crashed)
        false
        100
        crashed_machine).1.install
      ≡ stored (repaired sample_pending crashed))
    × ((check_for_update sample_formats sample_host sample_channel true
          (stored crashed)
          false
          100
          crashed_machine).1.live
        ≡ at none)
unfolding valid_install is_digest match_version read_install
check_for_update-Repaired_example =
    check_for_update-Repaired sample_formats sample_host sample-Works sample_pending crashed refl
      refl sample_channel sample_loaded.0 false 100 crashed_machine sample_loaded.1 refl

abbrev sample_release : ReleaseMetadata
sample_release = record {
  version = "1.1.0";
  sequence = 7;
  published_at = 0;
  artifact = record { urls = "https://u/a" ∷ []; sha256 = sample_digest; size = 9 };
  platform = none;
}

verify_release_metadata-IsSigned_example :
    IsSigned sample_formats (zeros 2) (zeros 32) sample_release
unfolding verify_release_metadata
verify_release_metadata-IsSigned_example =
    verify_release_metadata-IsSigned sample_formats (zeros 2) (zeros 32) sample_release refl
