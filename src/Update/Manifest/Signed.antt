-- ===== src/Update/Manifest/Signed.antt =====
-- What `verify_release_metadata` returns stands in the document, under a signature of the key.
use lite_checker.Prelude.{
  ℕ, ◌≡◌, ◌≤◌, refl, String, true, ◌&&◌, Option, none, some, List, [], ◌∷◌, string_eq, nat_eq, ◌==◌,
  length, leb, ◌||◌, nat_beq_iff, Bool-cases, inl, inr, arith,
}
use lite_checker.Json.{Json, text, int, pos, obj, Fields, get}
use lite_checker.Update.Manifest.{
  Formats, ReleaseMetadata, ◌>>=◌, exact_dict, text_of, nat_of, load_json, decode_sized,
  fields_under, read_payload, verify_release_metadata,
}
use lite_checker.Update.Manifest.Payload.{exact_dict-obj, PayloadOf, read_payload-Of}
use lite_checker.Update.Manifest.Gives.{
  Gives, nat_at, bind-Gives, require-Gives, Gives-eq_some, text_of-eq,
}

module _ (f : Formats) where
  -- the document, its payload, and a signature of 64 bytes that the key accepts
  abbrev pub IsSigned : List ℕ → List ℕ → ReleaseMetadata → Type 0
  IsSigned bytes public_key r =
      (envelope : Fields) × (payload : Fields) × (schema : ℕ) × (encoded : String)
      × (signature : List ℕ) × (length bytes ≤ 65536)
      × (f.read_json bytes ≡ some (obj envelope))
      × (get envelope "schema" ≡ some (int (pos schema)))
      × ((schema == 1 || schema == 2) ≡ true)
      × (get envelope "payload" ≡ some (obj payload))
      × (get envelope "signature" ≡ some (text encoded))
      × (f.decode_b64 encoded ≡ some signature)
      × (length signature ≡ 64)
      × (length public_key ≡ 32)
      × (f.signed_by public_key signature payload ≡ true)
      × PayloadOf f schema payload r

  -- a text that decodes to 64 bytes
  abbrev Decoded : Fields → List ℕ → Type 0
  Decoded d signature =
      (encoded : String) × (get d "signature" ≡ some (text encoded))
      × (f.decode_b64 encoded ≡ some signature)
      × (length signature ≡ 64)

  Decoded-at :
      (d : Fields) (signature : List ℕ)
      → (get d "signature" >>= λ s. decode_sized f s 64) ≡ some signature
      → Decoded d signature
  unfolding decode_sized
  Decoded-at d signature =
      Gives-eq_some (Decoded d) (get d "signature" >>= λ s. decode_sized f s 64) (
        bind-Gives (Decoded d) (get d "signature") (λ s. decode_sized f s 64)
          (λ j at. bind-Gives (Decoded d) (text_of j) _ (λ s is.
            bind-Gives (Decoded d) (f.decode_b64 s) _ (λ bytes found.
              require-Gives (Decoded d) (length bytes == 64) _
                (λ sized. (s, cc (at, text_of-eq j s is), found, ground arith))))))

  load_json-read :
      (bytes : List ℕ)
      → Gives (λ j. (length bytes ≤ 65536) × (f.read_json bytes ≡ some j)) (load_json f bytes)
  unfolding load_json
  load_json-read bytes = elim (Bool-cases (leb 1 (length bytes) && leb (length bytes) 65536)) [
    | inr t ↦ rw t tt
    | inl t ↦ rw t (sized (ground arith) (f.read_json bytes) refl)
  ]
    where
      sized :
          length bytes ≤ 65536
          → (o : Option Json) → f.read_json bytes ≡ o
          → Gives (λ j. (length bytes ≤ 65536) × (f.read_json bytes ≡ some j)) o
      sized small none e = tt
      sized small (some j) e = (small, e)

  abbrev payload_names : ℕ → List String
  payload_names schema =
      fields_under f schema ("version" ∷ "sequence" ∷ "published_at" ∷ "artifact" ∷ [])

  -- the steps of the reading, put together
  IsSigned-of :
      (bytes public_key signature : List ℕ) (j body : Json) (envelope payload : Fields) (schema : ℕ)
      (r : ReleaseMetadata)
      → load_json f bytes ≡ some j
      → exact_dict j ("schema" ∷ "payload" ∷ "signature" ∷ []) ≡ some envelope
      → (get envelope "schema" >>= nat_of) ≡ some schema
      → (schema == 1 || schema == 2) ≡ true
      → get envelope "payload" ≡ some body
      → exact_dict body (payload_names schema) ≡ some payload
      → read_payload f schema payload ≡ some r
      → (get envelope "signature" >>= λ s. decode_sized f s 64) ≡ some signature
      → length public_key ≡ 32
      → f.signed_by public_key signature payload ≡ true
      → IsSigned bytes public_key r
  IsSigned-of bytes public_key signature j body envelope payload schema r loaded dict numbered
        either at inner read decoded key signed =
      let (small, found) = Gives-eq_some _ (load_json f bytes) (load_json-read bytes) loaded in
      let (encoded, named, bare, sized) = Decoded-at envelope signature decoded in
      (
        envelope,
        payload,
        schema,
        encoded,
        signature,
        small,
        cc (found, exact_dict-obj f j ("schema" ∷ "payload" ∷ "signature" ∷ []) envelope dict),
        nat_at envelope "schema" schema numbered,
        either,
        cc (at, exact_dict-obj f body (payload_names schema) payload inner),
        named,
        bare,
        sized,
        key,
        signed,
        Gives-eq_some (PayloadOf f schema payload) (read_payload f schema payload)
            (read_payload-Of f schema payload) read,
      )

  -- Metadata that `verify_release_metadata` returns is that of the document: a text of at most 64 KiB,
  -- with a payload under a signature that the key accepts, whose version can be parsed, whose sequence
  -- is at least 1, and whose artifact has a digest, one to three URLs and a size of 1 byte to 32 MiB.
  -- Each field is that of the payload: the version, the sequence, the time of publication as it is
  -- read, the URLs, the digest, the size, and, in schema 2 alone, the platform.
  pub verify_release_metadata-IsSigned :
      (bytes public_key : List ℕ) (r : ReleaseMetadata)
      → verify_release_metadata f bytes public_key ≡ some r
      → IsSigned bytes public_key r
  unfolding verify_release_metadata
  verify_release_metadata-IsSigned bytes public_key r =
      Gives-eq_some Goal (verify_release_metadata f bytes public_key) (
        bind-Gives Goal (load_json f bytes) _ (λ j loaded.
          bind-Gives Goal (exact_dict j ("schema" ∷ "payload" ∷ "signature" ∷ [])) _
            (λ envelope dict.
              bind-Gives Goal (get envelope "schema" >>= nat_of) _ (λ schema numbered.
                require-Gives Goal (schema == 1 || schema == 2) _ (λ either.
                  bind-Gives Goal (get envelope "payload") _ (λ body at.
                    bind-Gives Goal (exact_dict body (payload_names schema)) _ (λ payload inner.
                      bind-Gives Goal (read_payload f schema payload) _ (λ r read.
                        bind-Gives Goal (signature_of envelope) _ (λ signature decoded.
                          require-Gives Goal (length public_key == 32) _ (λ key.
                            require-Gives Goal (f.signed_by public_key signature payload) _
                              (λ signed.
                                IsSigned-of bytes public_key signature j body envelope payload
                                  schema r loaded dict numbered either at inner read decoded
                                  ((nat_beq_iff (length public_key) 32).0 key) signed)))))))))))
    where
      Goal : ReleaseMetadata → Type 0
      Goal r = IsSigned bytes public_key r

      signature_of : Fields → Option (List ℕ)
      signature_of envelope = get envelope "signature" >>= λ s. decode_sized f s 64
