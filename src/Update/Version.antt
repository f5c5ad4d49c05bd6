-- ===== src/Update/Version.antt =====
-- `parse_version` of update_manifest.py, and the order of the tuples that it gives.
use Prim.Native.Char.{code}
use lite_checker.Prelude.{
  ℕ, ◌+◌, ◌-◌, ◌*◌, String, Bool, true, false, ◌&&◌, ◌||◌, Option, none, some, List, [], ◌∷◌, arith,
  ltb, leb, length, and_then, nat_eq, ◌==◌, ◌≡◌, if◌then◌else◌,
}

-- the code points of a text
abbrev pub codes : String → List ℕ
codes String.[] = []
codes (String.◌∷◌ c s) = code c ∷ codes s

-- the tuple of three integers
pub record Version : Type 0 where
  pub major : ℕ
  pub minor : ℕ
  pub patch : ℕ

abbrev pub put_first : ℕ → List (List ℕ) → List (List ℕ)
put_first c [] = (c ∷ []) ∷ []
put_first c (p ∷ ps) = (c ∷ p) ∷ ps

-- `version.split(".")`
unfoldable pub split_dots : List ℕ → List (List ℕ)
split_dots [] = [] ∷ []
split_dots (c ∷ cs) = let rest = split_dots cs in if c == b'.' then [] ∷ rest else put_first c rest

abbrev pub is_digit : ℕ → Bool
is_digit c = leb b'0' c && leb c b'9'

unfoldable pub digits : ℕ → List ℕ → Option ℕ
digits acc [] = some acc
digits acc (c ∷ cs) =
    let rest = digits (acc * 10 + (c - b'0')) cs in if is_digit c then rest else none

-- `0|[1-9][0-9]*`
unfoldable pub numeral : List ℕ → Option ℕ
unfolding digits
numeral [] = none
numeral (c ∷ cs) =
    if c == b'0'
    then (if length cs == 0 then some 0 else none)
    else if is_digit c
    then digits (c - b'0') cs
    else none

abbrev pub three : List (List ℕ) → Option Version
three (a ∷ b ∷ c ∷ []) = and_then (numeral a) λ major. and_then (numeral b) λ minor.
    and_then (numeral c) λ patch. some (record { major = major; minor = minor; patch = patch })
three _ = none

-- `VERSION_RE.fullmatch`, with the numbers that the groups spell
unfoldable pub match_version : List ℕ → Option Version
unfolding split_dots numeral
match_version cs = three (split_dots cs)

-- `int` of a text of more than 4300 digits raises
abbrev pub all_short : List (List ℕ) → Bool
all_short [] = true
all_short (p ∷ ps) = leb (length p) 4300 && all_short ps

-- `parse_version`; `none` stands for its `ManifestError` and for the `ValueError` of `int`
unfoldable pub parse_version : String → Option Version
unfolding match_version
parse_version s = if all_short (split_dots (codes s)) then match_version (codes s) else none

-- `left < right` on tuples
unfoldable pub version_lt : Version → Version → Bool
version_lt a b =
    ltb a.major b.major
    || a.major == b.major && (ltb a.minor b.minor || a.minor == b.minor && ltb a.patch b.patch)

-- `left <= right` on tuples
unfoldable pub version_le : Version → Version → Bool
version_le a b =
    ltb a.major b.major
    || a.major == b.major && (ltb a.minor b.minor || a.minor == b.minor && leb a.patch b.patch)

pub version_le-total : (a b : Version) → version_le a b ≡ false → version_lt b a ≡ true
unfolding version_lt version_le
version_le-total a b h = ground arith

-- `SHA256_RE.fullmatch`
abbrev pub all_hex : List ℕ → Bool
all_hex [] = true
all_hex (c ∷ cs) = (is_digit c || leb b'a' c && leb c b'f') && all_hex cs

unfoldable pub is_digest : String → Bool
is_digest s = length (codes s) == 64 && all_hex (codes s)
