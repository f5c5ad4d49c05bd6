-- ===== src/Measure/Fetch.antt =====
-- `SubscriptionFetcher.fetch` of measurement.py: which answers of the server give a subscription.
pub mod Bounded
use Prim.Native.String.{◌++◌ as join_text}
use lite_checker.Prelude.{
  ℕ, ◌+◌, String, Bool, true, false, not, ◌&&◌, ◌||◌, Option, none, some, List, [], ◌∷◌, ◌++◌, ltb,
  leb, length, decimal, nat_eq, ◌==◌, if◌then◌else◌,
}
use lite_checker.Update.Version.{codes, is_digit, digits}

-- What the stream of the body gives next: bytes, a timeout, or another error of the transport.
pub data Chunk : Type 0 where
  bytes : List ℕ → Chunk
  slow cut_off : Chunk

-- The headers as `get_list` gives them.
pub record Response : Type 0 where
  pub status_code : ℕ
  pub content_encodings : List String
  pub ages : List String
  pub content_lengths : List String
  pub body : List Chunk

-- a response, or an exception before there is one
pub data Answer : Type 0 where
  responds : Response → Answer
  times_out fails : Answer

-- the bytes, or a `SubscriptionFetchError` with its code
pub data Fetched : Type 0 where
  fetched : List ℕ → Fetched
  fetch_error : String → Fetched

-- the characters that `strip` takes off, up to U+00FF
abbrev is_space : ℕ → Bool
is_space c = leb 9 c && leb c 13 || leb 28 c && leb c 32 || (nat_eq.same c 133 || nat_eq.same c 160)

unfoldable drop_spaces : List ℕ → List ℕ
drop_spaces [] = []
drop_spaces (c ∷ cs) = let rest = drop_spaces cs in if is_space c then rest else c ∷ cs

-- the text up to its last character that is no space
unfoldable trim_end : List ℕ → List ℕ
trim_end [] = []
trim_end (c ∷ cs) =
    let rest = trim_end cs in if nat_eq.same (length rest) 0 && is_space c then [] else c ∷ rest

-- `lower` of an ASCII letter; no other character becomes a letter of "identity"
abbrev lower_code : ℕ → ℕ
lower_code c = if leb b'A' c && leb c b'Z' then c + 32 else c

abbrev same_codes : List ℕ → List ℕ → Bool
same_codes [] [] = true
same_codes (c ∷ cs) (d ∷ ds) = nat_eq.same (lower_code c) d && same_codes cs ds
same_codes _ _ = false

-- `value.strip().lower() == "identity"`
unfoldable pub is_identity : String → Bool
unfolding drop_spaces trim_end
is_identity s = same_codes (trim_end (drop_spaces (codes s))) (codes "identity")

-- no encoding, or the identity alone
unfoldable pub plain : List String → Bool
unfolding is_identity
plain [] = true
plain (e ∷ []) = is_identity e
plain (e ∷ es) = false

-- a header of digits: none where it does not match, and where `int` refuses its length
pub data Number : Type 0 where
  number : ℕ → Number
  no_number too_long : Number

abbrev pub number_from : List ℕ → Option ℕ → Number
number_from cs none = no_number
number_from cs (some n) = if ltb 4300 (length cs) then too_long else number n

-- `re.fullmatch(r"[0-9]+", value)` and `int`
unfoldable pub read_number : String → Number
unfolding digits
read_number s =
    if nat_eq.same (length (codes s)) 0
    then no_number
    else number_from (codes s) (digits 0 (codes s))

abbrev pub stale_or : Number → Fetched → Fetched
stale_or no_number rest = fetch_error "subscription-response-invalid"
stale_or too_long rest = fetch_error "subscription-network"
stale_or (number n) rest = if ltb 0 n then fetch_error "subscription-response-stale" else rest

-- the tests of the Age header
unfoldable pub check_age : List String → Fetched → Fetched
unfolding read_number
check_age [] rest = rest
check_age (a ∷ []) rest = stale_or (read_number a) rest
check_age (a ∷ others) rest = fetch_error "subscription-response-invalid"

abbrev pub large_or : ℕ → Number → Fetched → Fetched
large_or max no_number rest = fetch_error "subscription-response-invalid"
large_or max too_long rest = fetch_error "subscription-network"
large_or max (number n) rest = if ltb max n then fetch_error "subscription-too-large" else rest

-- the tests of the Content-Length header
unfoldable pub check_length : ℕ → List String → Fetched → Fetched
unfolding read_number
check_length max [] rest = rest
check_length max (a ∷ []) rest = large_or max (read_number a) rest
check_length max (a ∷ others) rest = fetch_error "subscription-response-invalid"

-- the loop over the chunks, with the payload so far
unfoldable pub read_body : ℕ → List ℕ → List Chunk → Fetched
read_body max payload [] = fetched payload
read_body max payload (slow ∷ cs) = fetch_error "subscription-timeout"
read_body max payload (cut_off ∷ cs) = fetch_error "subscription-network"
read_body max payload (bytes c ∷ cs) =
    let rest = read_body max (payload ++ c) cs in
    if ltb max (length payload + length c) then fetch_error "subscription-too-large" else rest

-- `SubscriptionFetcher.fetch`
unfoldable pub fetch : ℕ → Answer → Fetched
unfolding plain check_age check_length read_body
fetch max times_out = fetch_error "subscription-timeout"
fetch max fails = fetch_error "subscription-network"
fetch max (responds r) =
    if not (nat_eq.same r.status_code 200)
    then fetch_error (join_text "subscription-http-" (decimal r.status_code))
    else if not (plain r.content_encodings)
    then fetch_error "subscription-content-encoding-invalid"
    else check_age r.ages (check_length max r.content_lengths (read_body max [] r.body))
