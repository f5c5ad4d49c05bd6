-- ===== src/Collector/Names.antt =====
-- `_SAFE_BOOT_RE`, the grammar of boot ids and of lease owners, and that of error codes.
use Prim.Native.Char.{code}
use lite_checker.Prelude.{ℕ, String, Bool, true, false, ◌&&◌, ◌||◌, leb, nat_beq, count}

abbrev lower : ℕ → Bool
lower c = leb b'a' c && leb c b'z'

abbrev digit : ℕ → Bool
digit c = leb b'0' c && leb c b'9'

-- `[A-Za-z0-9]`
abbrev alnum : ℕ → Bool
alnum c = leb b'A' c && leb c b'Z' || lower c || digit c

-- `[A-Za-z0-9._-]`
abbrev boot_char : ℕ → Bool
boot_char c = alnum c || nat_beq c b'.' || nat_beq c b'_' || nat_beq c b'-'

every : (ℕ → Bool) → String → Bool
every p String.[] = true
every p (String.◌∷◌ c s) = p (code c) && every p s

-- `[A-Za-z0-9][A-Za-z0-9._-]{0,127}\Z`
unfoldable pub safe_name : String → Bool
unfolding every
safe_name String.[] = false
safe_name (String.◌∷◌ c s) = alnum (code c) && every boot_char s && leb (count s) 127

-- `[a-z][a-z0-9-]{0,63}`
unfoldable pub safe_error_code : String → Bool
unfolding every
safe_error_code String.[] = false
safe_error_code (String.◌∷◌ c s) =
    lower (code c) && every (λ d. lower d || digit d || nat_beq d b'-') s && leb (count s) 63
