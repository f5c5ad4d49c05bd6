-- ===== src/State/Sequence.antt =====
-- `SequenceStore` of state.py.
pub mod Increasing
use lite_checker.Prelude.{ℕ, ◌+◌, Option, none, some, List, [], ◌∷◌}
use lite_checker.Json.{ℤ, pos, Json, int, Fields, end, field, get}
use lite_checker.State.{
  Reply, ok, refused, File, absent, Host, Step, locked, read_object, write_object, malformed,
}

-- the number under "next"
unfoldable pub next_of : Option Json → Reply ℕ
next_of (some (int (pos n))) = ok n
next_of _ = refused malformed

unfoldable pub read_next : File → Reply ℕ
read_next absent = ok 0
read_next f = elim (read_object f) [ refused e ↦ refused e | ok d ↦ next_of (get d "next") ]

abbrev pub next_fields : ℕ → Fields
next_fields n = field "next" (int (pos n)) end

unfoldable pub next_body : Host → Reply ℕ → Step ℕ
next_body h (refused e) f = (refused e, f)
next_body h (ok n) f = write_object h (next_fields (n + 1)) n f

-- `SequenceStore.next`
unfoldable pub next : Host → Step ℕ
next h = locked h (λ f. next_body h (read_next f) f)

-- The numbers that a series of calls returns, by hosts that may fail each of them.
abbrev pub keep_number : Reply ℕ → List ℕ → List ℕ
keep_number (ok n) ns = n ∷ ns
keep_number (refused e) ns = ns

unfoldable pub numbers : List Host → File → List ℕ
numbers [] f = []
numbers (h ∷ hs) f = keep_number (next h f).0 (numbers hs (next h f).1)
