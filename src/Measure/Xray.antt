-- ===== src/Measure/Xray.antt =====
-- `query_xray_version` of measurement.py: the version that the Xray binary prints.
pub mod Output
use lite_checker.Prelude.{
  ℕ, ◌-◌, String, Bool, true, false, ◌&&◌, ◌||◌, Option, none, some, List, [], ◌∷◌, ◌++◌, ltb,
  length, take, and_then, nat_eq, ◌==◌, if◌then◌else◌,
}
use lite_checker.Update.Version.{codes, is_digit}

-- `XrayVersionResult`; a version is the list of its characters
pub record XrayVersion : Type 0 where
  pub version : Option (List ℕ)
  pub compatible : Bool
  pub error_code : Option String

-- The process does not start, overruns the timeout, or ends with a code, having written chunks.
pub data XrayRun : Type 0 where
  not_started overran : XrayRun
  ended : ℕ → List (List ℕ) → XrayRun

-- the loop of `_bounded_version_output`
unfoldable pub bounded_version_output : ℕ → List ℕ → Bool → List (List ℕ) → List ℕ × Bool
bounded_version_output limit captured overflow [] = (captured, overflow)
bounded_version_output limit captured overflow (chunk ∷ chunks) =
    let remaining = limit - length captured in
    bounded_version_output limit (captured ++ take remaining chunk)
      (overflow || ltb remaining (length chunk)) chunks

-- the digits that a text begins with, and the rest
unfoldable pub span_digits : List ℕ → List ℕ × List ℕ
span_digits [] = ([], [])
span_digits (c ∷ cs) =
    let (ds, rest) = span_digits cs in if is_digit c then (c ∷ ds, rest) else ([], c ∷ cs)

abbrev nonempty : List ℕ × List ℕ → Option (List ℕ × List ℕ)
nonempty ([], rest) = none
nonempty (d ∷ ds, rest) = some (d ∷ ds, rest)

abbrev after_dot : List ℕ → Option (List ℕ)
after_dot [] = none
after_dot (c ∷ cs) = if c == b'.' then some cs else none

-- `(?=[ \t\r\n]|$)` with `$` at the end of a line
abbrev at_boundary : List ℕ → Bool
at_boundary [] = true
at_boundary (c ∷ cs) = c == 32 || c == 9 || c == 13 || c == 10

-- `[0-9]+(?:\.[0-9]+){2}` up to a boundary
unfoldable pub version_at : List ℕ → Option (List ℕ)
unfolding span_digits
version_at cs = and_then (nonempty (span_digits cs)) λ major. and_then (after_dot major.1) λ rest.
    and_then (nonempty (span_digits rest)) λ minor. and_then (after_dot minor.1) λ last.
      and_then (nonempty (span_digits last)) λ patch.
        if at_boundary patch.1
        then some (major.0 ++ (b'.' ∷ (minor.0 ++ (b'.' ∷ patch.0))))
        else none

abbrev is_blank : ℕ → Bool
is_blank c = c == 32 || c == 9

unfoldable pub drop_blanks : List ℕ → List ℕ
drop_blanks [] = []
drop_blanks (c ∷ cs) = let rest = drop_blanks cs in if is_blank c then rest else c ∷ cs

-- `Xray[ \t]+` and a version
unfoldable pub match_line : List ℕ → Option (List ℕ)
unfolding version_at drop_blanks
match_line (x ∷ r ∷ a ∷ y ∷ blank ∷ cs) =
    if x == b'X' && r == b'r' && a == b'a' && y == b'y' && is_blank blank
    then version_at (drop_blanks cs)
    else none
match_line _ = none

abbrev or_else : Option (List ℕ) → Option (List ℕ) → Option (List ℕ)
or_else none o = o
or_else (some v) o = some v

-- `re.search` with `^` at the start of a line
unfoldable pub search_version : Bool → List ℕ → Option (List ℕ)
unfolding match_line
search_version start [] = none
search_version start (c ∷ cs) =
    let rest = search_version (c == 10) cs in
    if start then or_else (match_line (c ∷ cs)) rest else rest

abbrev pub unavailable : XrayVersion
unavailable = record {
  version = none;
  compatible = false;
  error_code = some "xray-version-unavailable";
}

abbrev pub same_text : List ℕ → List ℕ → Bool
same_text [] [] = true
same_text (c ∷ cs) (d ∷ ds) = c == d && same_text cs ds
same_text _ _ = false

abbrev pub judge_version : String → Option (List ℕ) → XrayVersion
judge_version expected none = unavailable
judge_version expected (some v) =
    if same_text v (codes expected)
    then record { version = some v; compatible = true; error_code = none }
    else record { version = some v; compatible = false; error_code = some "xray-version-mismatch" }

abbrev pub judge_output : String → List ℕ × Bool → XrayVersion
judge_output expected (body, true) = unavailable
judge_output expected (body, false) = judge_version expected (search_version true body)

-- `query_xray_version`
unfoldable pub query_xray_version : String → ℕ → XrayRun → XrayVersion
unfolding bounded_version_output search_version
query_xray_version expected limit not_started = unavailable
query_xray_version expected limit overran = unavailable
query_xray_version expected limit (ended code chunks) =
    if code == 0
    then judge_output expected (bounded_version_output limit [] false chunks)
    else unavailable
