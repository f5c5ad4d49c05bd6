-- ===== src/Update/Manifest/Payload.antt =====
-- What is read of a payload stands in it.
use lite_checker.Prelude.{
  ℕ, ◌≡◌, ◌≤◌, refl, String, Bool, true, false, ◌&&◌, Option, none, some, List, [], ◌∷◌, string_eq,
  nat_eq, length, leb, contains, count, ap, ◌∙◌, ◌==◌, if◌then◌else◌, arith,
}
use lite_checker.Json.{
  Json, null, boolean, int, real, text, arr, obj, Items, nil, cons, pos, Fields, get,
}
use lite_checker.Update.Version.{Version, parse_version, is_digest}
use lite_checker.Update.Manifest.{
  Formats, Artifact, ReleaseMetadata, ◌>>=◌, exact_dict, text_of, nat_of, all_urls, distinct,
  urls_of, https_url, platform_of, platform_under, read_artifact, read_payload,
}
use lite_checker.Update.Manifest.Gives.{
  Gives, bind-Gives, require-Gives, Gives-eq_some, text_of-eq, text_at, nat_at,
}

-- an array of texts
abbrev pub texts : List String → Items
texts [] = nil
texts (u ∷ us) = cons (text u) (texts us)

module _ (f : Formats) where
  -- the artifact that an object describes: a digest of 64 hexadecimal digits, and at most 32 MiB
  abbrev pub ArtifactIn : Json → Artifact → Type 0
  ArtifactIn j a =
      (d : Fields) × (j ≡ obj d)
      × (get d "sha256" ≡ some (text a.sha256))
      × (get d "size" ≡ some (int (pos a.size)))
      × (is_digest a.sha256 ≡ true)
      × (1 ≤ a.size)
      × (a.size ≤ 33554432)
      × (get d "urls" ≡ some (arr (texts a.urls)))
      × (1 ≤ length a.urls)
      × (length a.urls ≤ 3)

  -- schema 1 has no platform, and schema 2 one of three
  abbrev pub PlatformOf : ℕ → Fields → Option String → Type 0
  PlatformOf schema d none = (schema == 2) ≡ false
  PlatformOf schema d (some p) =
      ((schema == 2) ≡ true)
      × (get d "platform" ≡ some (text p))
      × (contains ("windows" ∷ "macos" ∷ "linux" ∷ []) p ≡ true)

  -- the payload that a release stands in
  abbrev pub PayloadOf : ℕ → Fields → ReleaseMetadata → Type 0
  PayloadOf schema d r =
      PlatformOf schema d r.platform
      × ((t : String) × (get d "published_at" ≡ some (text t))
          × (f.read_time t ≡ some r.published_at))
      × (get d "version" ≡ some (text r.version))
      × ((v : Version) × (parse_version r.version ≡ some v))
      × (get d "sequence" ≡ some (int (pos r.sequence)))
      × (1 ≤ r.sequence)
      × ((j : Json) × (get d "artifact" ≡ some j) × ArtifactIn j r.artifact)

  pub exact_dict-obj :
      (j : Json) (ks : List String) (d : Fields) → exact_dict j ks ≡ some d → j ≡ obj d
  unfolding exact_dict
  exact_dict-obj (obj e) ks d h = ground arith
  exact_dict-obj null ks d h = cc
  exact_dict-obj (boolean t) ks d h = cc
  exact_dict-obj (int n) ks d h = cc
  exact_dict-obj (real t) ks d h = cc
  exact_dict-obj (text t) ks d h = cc
  exact_dict-obj (arr js) ks d h = cc

  https_url-text : (j : Json) → Gives (λ s. j ≡ text s) (https_url f j)
  unfolding https_url
  https_url-text j = bind-Gives Is (text_of j) _ (λ s is.
      require-Gives Is (leb 1 (count s) && leb (count s) 2048) _ (λ _.
        bind-Gives Is (f.split_url s) _
          (λ u _. require-Gives Is _ (some s) (λ _. text_of-eq j s is))))
    where
      Is : String → Type 0
      Is s = j ≡ text s

  all_urls-texts : (js : Items) → Gives (λ us. js ≡ texts us) (all_urls f js)
  all_urls-texts nil = refl
  all_urls-texts (cons j js) =
      let Is : List String → Type 0 = λ us. cons j js ≡ texts us in
      bind-Gives Is (https_url f j) _ (λ u found. bind-Gives Is (all_urls f js) _ (λ us rest. cc (
        Gives-eq_some (λ s. j ≡ text s) (https_url f j) (https_url-text j) found,
        Gives-eq_some (λ us. js ≡ texts us) (all_urls f js) (all_urls-texts js) rest,
      )))

  abbrev UrlsIn : Json → List String → Type 0
  UrlsIn j us = (j ≡ arr (texts us)) × (1 ≤ length us) × (length us ≤ 3)

  urls_of-In : (j : Json) → Gives (UrlsIn j) (urls_of f j)
  unfolding urls_of
  urls_of-In (arr js) = bind-Gives (UrlsIn (arr js)) (all_urls f js) _ (λ us found.
      require-Gives (UrlsIn (arr js)) (leb 1 (length us) && leb (length us) 3) _ (λ sized.
        require-Gives (UrlsIn (arr js)) (distinct f us) _ (λ _. (
          ap arr (Gives-eq_some (λ us. js ≡ texts us) (all_urls f js) (all_urls-texts js) found),
          ground arith,
          ground arith,
        ))))
  urls_of-In null = tt
  urls_of-In (boolean t) = tt
  urls_of-In (int n) = tt
  urls_of-In (real t) = tt
  urls_of-In (text t) = tt
  urls_of-In (obj d) = tt

  abbrev UrlsAt : Fields → List String → Type 0
  UrlsAt d us = (get d "urls" ≡ some (arr (texts us))) × (1 ≤ length us) × (length us ≤ 3)

  urls_at : (d : Fields) (us : List String) → (get d "urls" >>= urls_of f) ≡ some us → UrlsAt d us
  urls_at d us = Gives-eq_some (UrlsAt d) (get d "urls" >>= urls_of f) (
      bind-Gives (UrlsAt d) (get d "urls") (urls_of f)
        (λ j at. named j at (urls_of f j) (urls_of-In j)))
    where
      named :
          (j : Json)
          → get d "urls" ≡ some j
          → (o : Option (List String)) → Gives (UrlsIn j) o
          → Gives (UrlsAt d) o
      named j at none g = tt
      named j at (some vs) (is, some_of, few) = (at ∙ ap some is, some_of, few)

  read_artifact-In : (j : Json) → Gives (ArtifactIn j) (read_artifact f j)
  unfolding read_artifact
  read_artifact-In j =
      bind-Gives (ArtifactIn j) (exact_dict j ("urls" ∷ "sha256" ∷ "size" ∷ [])) _ (λ d dict.
        bind-Gives (ArtifactIn j) (get d "urls" >>= urls_of f) _ (λ us urls.
          bind-Gives (ArtifactIn j) (get d "sha256" >>= text_of) _ (λ digest sha.
            require-Gives (ArtifactIn j) (is_digest digest) _ (λ hex.
              bind-Gives (ArtifactIn j) (get d "size" >>= nat_of) _ (λ n size.
                require-Gives (ArtifactIn j) (leb 1 n && leb n 33554432) _ (λ fits. (
                  d,
                  exact_dict-obj j ("urls" ∷ "sha256" ∷ "size" ∷ []) d dict,
                  text_at d "sha256" digest sha,
                  nat_at d "size" n size,
                  hex,
                  ground arith,
                  ground arith,
                  (urls_at d us urls).0,
                  (urls_at d us urls).1,
                  (urls_at d us urls).2,
                )))))))

  abbrev ArtifactAt : Fields → Artifact → Type 0
  ArtifactAt d a = (j : Json) × (get d "artifact" ≡ some j) × ArtifactIn j a

  artifact_at :
      (d : Fields) (a : Artifact) → (get d "artifact" >>= read_artifact f) ≡ some a → ArtifactAt d a
  artifact_at d a = Gives-eq_some (ArtifactAt d) (get d "artifact" >>= read_artifact f) (
      bind-Gives (ArtifactAt d) (get d "artifact") (read_artifact f)
        (λ j at. within j at (read_artifact f j) (read_artifact-In j)))
    where
      within :
          (j : Json)
          → get d "artifact" ≡ some j
          → (o : Option Artifact) → Gives (ArtifactIn j) o
          → Gives (ArtifactAt d) o
      within j at none g = tt
      within j at (some a) g = (j, at, g)

  abbrev KnownIn : Json → String → Type 0
  KnownIn j p = (j ≡ text p) × (contains ("windows" ∷ "macos" ∷ "linux" ∷ []) p ≡ true)

  platform_of-KnownIn : (j : Json) → Gives (KnownIn j) (platform_of f j)
  unfolding platform_of
  platform_of-KnownIn j = bind-Gives (KnownIn j) (text_of j) _ (λ s is.
      require-Gives (KnownIn j) (contains ("windows" ∷ "macos" ∷ "linux" ∷ []) s) _
        (λ known. (text_of-eq j s is, known)))

  -- the platform of schema 2
  named-PlatformOf :
      (schema : ℕ) (d : Fields)
      → (schema == 2) ≡ true
      → Gives
          (PlatformOf schema d)
          (get d "platform" >>= λ j. platform_of f j >>= λ p. some (some p))
  named-PlatformOf schema d second = bind-Gives (PlatformOf schema d) (get d "platform") _ (λ j at.
      bind-Gives (PlatformOf schema d) (platform_of f j) _ (λ p found.
        let (is, known) =
          Gives-eq_some (KnownIn j) (platform_of f j) (platform_of-KnownIn j) found in
        (second, at ∙ ap some is, known)))

  platform_under-Of :
      (schema : ℕ) (d : Fields) → Gives (PlatformOf schema d) (platform_under f schema d)
  unfolding platform_under
  platform_under-Of schema d = split (schema == 2) refl
    where
      split :
          (b : Bool)
          → (schema == 2) ≡ b
          → Gives (PlatformOf schema d) (
              if b
              then (get d "platform" >>= λ j. platform_of f j >>= λ p. some (some p))
              else some none)
      split true e = named-PlatformOf schema d e
      split false e = e

  pub read_payload-Of :
      (schema : ℕ) (d : Fields) → Gives (PayloadOf schema d) (read_payload f schema d)
  unfolding read_payload
  read_payload-Of schema d =
      bind-Gives (PayloadOf schema d) (platform_under f schema d) _ (λ platform ruled.
        bind-Gives (PayloadOf schema d) (get d "version" >>= text_of) _ (λ version named.
          bind-Gives (PayloadOf schema d) (parse_version version) _ (λ v parsed.
            bind-Gives (PayloadOf schema d) (get d "sequence" >>= nat_of) _ (λ sequence numbered.
              require-Gives (PayloadOf schema d) (leb 1 sequence) _ (λ positive.
                bind-Gives (PayloadOf schema d) (get d "published_at" >>= text_of) _
                  (λ published stated.
                    bind-Gives (PayloadOf schema d) (f.read_time published) _ (λ at read.
                      bind-Gives (PayloadOf schema d) (get d "artifact" >>= read_artifact f) _
                        (λ a found. (
                          Gives-eq_some (PlatformOf schema d) (platform_under f schema d)
                              (platform_under-Of schema d) ruled,
                          (published, text_at d "published_at" published stated, read),
                          text_at d "version" version named,
                          (v, parsed),
                          nat_at d "sequence" sequence numbered,
                          ground arith,
                          artifact_at d a found,
                        )))))))))
