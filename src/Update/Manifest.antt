-- ===== src/Update/Manifest.antt =====
-- update_manifest.py: the signed metadata of a release and the channel, read strictly. `none` stands
-- for `ManifestError`.
pub mod Payload
pub mod Gives
pub mod Signed
use lite_checker.Prelude.{
  ℕ, String, Bool, true, false, ◌&&◌, ◌||◌, not, Option, none, some, List, [], ◌∷◌, count, leb,
  length, contains, string_eq, nat_eq, ◌==◌, if◌then◌else◌,
}
use lite_checker.Json.{
  Json, text, int, pos, boolean, arr, obj, Items, nil, cons, Fields, end, field, get, has_key,
}
use lite_checker.Update.Version.{parse_version, is_digest}

-- `urlsplit`'s parts of a URL whose port can be read
pub record Url : Type 0 where
  pub scheme : String
  pub hostname : Option String
  pub username : Option String
  pub password : Option String
  pub port : Option ℕ
  pub path : String
  pub fragment : String

-- What the libraries do: `json.loads` with the hooks that refuse a double key and a number that is
-- not finite, `urlsplit`, `b64decode`, `strptime`, and the Ed25519 check of a key and a signature
-- over the canonical text of the payload.
pub record Formats : Type 0 where
  pub read_json : List ℕ → Option Json
  pub split_url : String → Option Url
  pub decode_b64 : String → Option (List ℕ)
  pub read_time : String → Option ℕ
  pub signed_by : List ℕ → List ℕ → Fields → Bool

pub record Artifact : Type 0 where
  pub urls : List String
  pub sha256 : String
  pub size : ℕ

pub record ReleaseMetadata : Type 0 where
  pub version : String
  pub sequence : ℕ
  pub published_at : ℕ
  pub artifact : Artifact
  pub platform : Option String

pub record ChannelConfig : Type 0 where
  pub enabled : Bool
  pub public_key : List ℕ
  pub manifest_urls : List String
  pub platform : Option String

infixl 5 ◌>>=◌ ◌>>◌
abbrev ◌>>=◌ {ℓ κ} : {A : Type ℓ} {B : Type κ} → Option A → (A → Option B) → Option B
none >>= f = none
some a >>= f = f a

abbrev ◌>>◌ {ℓ} : {B : Type ℓ} → Option (Unit {0}) → Option B → Option B
m >> k = m >>= λ _. k

abbrev require : Bool → Option (Unit {0})
require true = some tt
require false = none

abbrev all_known : List String → Fields → Bool
all_known ks end = true
all_known ks (field k v d) = contains ks k && all_known ks d

abbrev all_there : List String → Fields → Bool
all_there [] d = true
all_there (k ∷ ks) d = has_key d k && all_there ks d

-- `_exact_dict`
unfoldable pub exact_dict : Json → List String → Option Fields
unfolding has_key
exact_dict (obj d) ks = if all_known ks d && all_there ks d then some d else none
exact_dict _ ks = none

abbrev text_of : Json → Option String
text_of (text s) = some s
text_of _ = none

-- an `int` that is not negative; each use asks for that
abbrev nat_of : Json → Option ℕ
nat_of (int (pos n)) = some n
nat_of _ = none

abbrev bool_of : Json → Option Bool
bool_of (boolean b) = some b
bool_of _ = none

abbrev pub url_port_fits : Option ℕ → Bool
url_port_fits none = true
url_port_fits (some p) = leb 1 p && leb p 65535

abbrev pub present : Option String → Bool
present none = false
present (some s) = true

module _ (f : Formats) where
  -- `_json`
  unfoldable pub load_json : List ℕ → Option Json
  load_json bytes =
      if leb 1 (length bytes) && leb (length bytes) 65536 then f.read_json bytes else none

  -- `_https_url`
  unfoldable pub https_url : Json → Option String
  https_url j = do
    s ← text_of j
    require (leb 1 (count s) && leb (count s) 2048)
    u ← f.split_url s
    require (
        u.scheme == "https"
        && present u.hostname
        && not (present u.username)
        && not (present u.password)
        && u.fragment == ""
        && not (u.path == "")
        && url_port_fits u.port)
    some s

  abbrev all_urls : Items → Option (List String)
  all_urls nil = some []
  all_urls (cons j js) = let rest = all_urls js in https_url j >>= λ u. rest >>= λ us. some (u ∷ us)

  abbrev distinct : List String → Bool
  distinct [] = true
  distinct (u ∷ us) = not (contains us u) && distinct us

  -- `_urls`
  unfoldable pub urls_of : Json → Option (List String)
  unfolding https_url
  urls_of (arr js) = do
    us ← all_urls js
    require (leb 1 (length us) && leb (length us) 3)
    require (distinct us)
    some us
  urls_of _ = none

  -- `_decode_b64`
  unfoldable pub decode_sized : Json → ℕ → Option (List ℕ)
  decode_sized j size = do
    s ← text_of j
    bytes ← f.decode_b64 s
    require (length bytes == size)
    some bytes

  -- `_platform`
  unfoldable pub platform_of : Json → Option String
  platform_of j = do
    s ← text_of j
    require (contains ("windows" ∷ "macos" ∷ "linux" ∷ []) s)
    some s

  -- the platform under schema 2, none under schema 1
  unfoldable pub platform_under : ℕ → Fields → Option (Option String)
  unfolding platform_of get
  platform_under schema d =
      if schema == 2
      then (get d "platform" >>= λ j. platform_of j >>= λ p. some (some p))
      else some none

  abbrev pub fields_under : ℕ → List String → List String
  fields_under schema ks = if schema == 2 then "platform" ∷ ks else ks

  -- the artifact within the payload
  unfoldable pub read_artifact : Json → Option Artifact
  unfolding exact_dict urls_of get is_digest
  read_artifact j = do
    d ← exact_dict j ("urls" ∷ "sha256" ∷ "size" ∷ [])
    urls ← get d "urls" >>= urls_of
    digest ← get d "sha256" >>= text_of
    require (is_digest digest)
    size ← get d "size" >>= nat_of
    require (leb 1 size && leb size 33554432)
    some (record { urls = urls; sha256 = digest; size = size })

  -- the payload of an envelope of this schema, before its signature is checked
  unfoldable pub read_payload : ℕ → Fields → Option ReleaseMetadata
  unfolding platform_under read_artifact parse_version get
  read_payload schema d = do
    platform ← platform_under schema d
    version ← get d "version" >>= text_of
    parsed ← parse_version version
    sequence ← get d "sequence" >>= nat_of
    require (leb 1 sequence)
    published ← get d "published_at" >>= text_of
    at ← f.read_time published
    artifact ← get d "artifact" >>= read_artifact
    some (record {
      version = version;
      sequence = sequence;
      published_at = at;
      artifact = artifact;
      platform = platform;
    })

  -- `verify_release_metadata`
  unfoldable pub verify_release_metadata : List ℕ → List ℕ → Option ReleaseMetadata
  unfolding load_json exact_dict read_payload decode_sized get
  verify_release_metadata bytes public_key = do
    j ← load_json bytes
    envelope ← exact_dict j ("schema" ∷ "payload" ∷ "signature" ∷ [])
    schema ← get envelope "schema" >>= nat_of
    require (schema == 1 || schema == 2)
    body ← get envelope "payload"
    payload ←
        exact_dict body
          (fields_under schema ("version" ∷ "sequence" ∷ "published_at" ∷ "artifact" ∷ []))
    release ← read_payload schema payload
    signature ← get envelope "signature" >>= λ s. decode_sized s 64
    require (length public_key == 32)
    require (f.signed_by public_key signature payload)
    some release

  -- the schema of a channel's document
  unfoldable pub channel_schema : Json → Option ℕ
  unfolding get
  channel_schema (obj d) = do
    schema ← get d "schema" >>= nat_of
    require (schema == 1 || schema == 2)
    some schema
  channel_schema _ = none

  -- `parse_channel_config`
  unfoldable pub parse_channel_config : List ℕ → Option ChannelConfig
  unfolding load_json exact_dict platform_under decode_sized urls_of get channel_schema
  parse_channel_config bytes = do
    j ← load_json bytes
    schema ← channel_schema j
    d ←
        exact_dict j
          (fields_under schema ("schema" ∷ "enabled" ∷ "public_key" ∷ "manifest_urls" ∷ []))
    enabled ← get d "enabled" >>= bool_of
    key ← get d "public_key" >>= λ k. decode_sized k 32
    urls ← get d "manifest_urls" >>= urls_of
    platform ← platform_under schema d
    some (record { enabled = enabled; public_key = key; manifest_urls = urls; platform = platform })
