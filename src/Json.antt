-- ===== src/Json.antt =====
-- The values that the JSON columns of backend/app/database/models.py hold: dictionaries with text
-- keys in insertion order, lists, texts, whole numbers, Booleans and `None`. Floats are left out.
use machine_deck.Base.{
  ℕ, String, Bool, Option, none, some, List, [], ◌∷◌, ◌≡◌, refl, arith, eq_iff, ◌==◌, string_eq,
  if◌then◌else◌,
}

mutual
  pub data Value : Type 0 where
    json_null : Value
    boolean : Bool → Value
    number : ℕ → Value
    string : String → Value
    sequence : Items → Value
    mapping : Fields → Value

  pub data Items : Type 0 where
    no_items : Items
    one_item : Value → Items → Items

  pub data Fields : Type 0 where
    no_fields : Fields
    field : String → Value → Fields → Fields

-- `d.get(key)`
unfoldable pub get : String → Fields → Option Value
get k no_fields = none
get k (field j v fs) = if j == k then some v else get k fs

-- `d[key] = value`: a new key goes to the end, a known one keeps its place.
unfoldable pub put : String → Value → Fields → Fields
put k v no_fields = field k v no_fields
put k v (field j w fs) = if j == k then field j v fs else field j w (put k v fs)

-- `{**d, **more}`
unfoldable pub merge : Fields → Fields → Fields
merge fs no_fields = fs
merge fs (field k v more) = merge (put k v fs) more

-- a text or `None`
unfoldable pub optional_str : Option String → Value
optional_str none = json_null
optional_str (some s) = string s

pub items : List Value → Items
items [] = no_items
items (v ∷ vs) = one_item v (items vs)

pub get-put :
    (k j : String) (v : Value) (fs : Fields)
    → get j (put k v fs) ≡ (if k == j then some v else get j fs)
unfolding get put
get-put k j v no_fields = refl
get-put k j v (field i w fs) = ground (arith, eq_iff k j, eq_iff i k, eq_iff i j, get-put k j v fs)
