-- ===== src/Json.antt =====
-- JSON documents: what `json.loads` gives and `json.dumps` takes. A dictionary is the list of its
-- items in the order of insertion.
use lite_checker.Prelude.{
  ℕ, String, Bool, true, false, Option, none, some, ◌≡◌, ◌==◌, string_eq, arith, eq_iff,
  if◌then◌else◌,
}

-- A Python integer; `negsuc n` is -(n + 1).
pub data ℤ : Type 0 where
  pos : ℕ → ℤ
  negsuc : ℕ → ℤ

mutual
  pub data Json : Type 0 where
    null : Json
    boolean : Bool → Json
    int : ℤ → Json
    -- a float, by the text that stands for it
    real : String → Json
    text : String → Json
    arr : Items → Json
    obj : Fields → Json

  pub data Items : Type 0 where
    nil : Items
    cons : Json → Items → Items

  pub data Fields : Type 0 where
    end : Fields
    field : String → Json → Fields → Fields

-- `d.get(key)`; `none` stands for a key that is not there.
unfoldable pub get : Fields → String → Option Json
get end k = none
get (field j v d) k = if j == k then some v else get d k

-- `d[key] = value`
unfoldable pub put : Fields → String → Json → Fields
put end k v = field k v end
put (field j w d) k v = if j == k then field k v d else field j w (put d k v)

pub get-put :
    (d : Fields) (k j : String) (v : Json)
    → get (put d k v) j ≡ (if k == j then some v else get d j)
unfolding get put
get-put end k j v = ground (arith, eq_iff k j)
get-put (field i w d) k j v = ground (arith, eq_iff i k, eq_iff i j, eq_iff k j, get-put d k j v)

-- `key in d`
unfoldable pub has_key : Fields → String → Bool
unfolding get
has_key d k = elim (get d k) [ none ↦ false | some _ ↦ true ]
