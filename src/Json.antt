-- ===== src/Json.antt =====
-- The values that plans, payloads and results carry: Python's None, bool, int, float, str, list and
-- dict, as `json` reads and writes them. A finite float is an integer over a power of two.
use sth_boring.Base.{
  ℕ, suc, ◌^◌, String, Bool, true, false, ◌&&◌, ◌||◌, nat_eq, Option, none, some, List, [], ◌∷◌,
  if◌then◌else◌, ◌==◌,
}
use sth_boring.Base.Int.{ℤ, pos, scaled, int_lt, int_eq}

mutual
  pub data Value : Type 0 where
    obj : Fields → Value
    arr : Items → Value
    str : String → Value
    bool : Bool → Value
    int : ℤ → Value
    float : (mantissa : ℤ) (scale : ℕ) → Value
    null : Value

  pub data Fields : Type 0 where
    no_fields : Fields
    entry : String → Value → Fields → Fields

  pub data Items : Type 0 where
    no_items : Items
    item : Value → Items → Items

-- A number is an integer over a power of two.
pub record Number : Type 0 where
  pub mantissa : ℤ
  pub scale : ℕ

-- `d.get(k)`
unfoldable pub get : String → Fields → Option Value
get k no_fields = none
get k (entry j v fs) = if j == k then some v else get k fs

-- `d[k] = v`
unfoldable pub put : String → Value → Fields → Fields
put k v no_fields = entry k v no_fields
put k v (entry j w fs) = if j == k then entry k v fs else entry j w (put k v fs)

-- `d.update(e)`
unfoldable pub update : Fields → Fields → Fields
unfolding put
update d no_fields = d
update d (entry k v fs) = update (put k v d) fs

-- `list(d)`
unfoldable pub keys : Fields → List String
keys no_fields = []
keys (entry k v fs) = k ∷ keys fs

-- A list of texts, as a value.
unfoldable pub texts : List String → Items
texts [] = no_items
texts (x ∷ xs) = item (str x) (texts xs)

-- A text or None, as a value.
unfoldable pub optional : Option String → Value
optional none = null
optional (some s) = str s

-- The number that a value is: `isinstance(v, (int, float))` holds of a bool too, which counts as 0
-- or 1.
abbrev pub number_of : Value → Option Number
number_of (bool false) = some (record { mantissa = pos 0; scale = 0 })
number_of (bool true) = some (record { mantissa = pos 1; scale = 0 })
number_of (int n) = some (record { mantissa = n; scale = 0 })
number_of (float m k) = some (record { mantissa = m; scale = k })
number_of _ = none

abbrev pub number_lt : Number → Number → Bool
number_lt a b = int_lt (scaled a.mantissa (2 ^ b.scale)) (scaled b.mantissa (2 ^ a.scale))

abbrev pub number_eq : Number → Number → Bool
number_eq a b = int_eq (scaled a.mantissa (2 ^ b.scale)) (scaled b.mantissa (2 ^ a.scale))

abbrev same_number : Option Number → Option Number → Bool
same_number (some a) (some b) = number_eq a b
same_number _ _ = false

-- `len(d)` and `len(l)`
unfoldable pub size : Fields → ℕ
size no_fields = 0
size (entry k v fs) = suc (size fs)

unfoldable pub count : Items → ℕ
count no_items = 0
count (item v vs) = suc (count vs)

abbrev pub as_text : Value → Option String
as_text (str s) = some s
as_text _ = none

abbrev same_text : String → Option String → Bool
same_text s none = false
same_text s (some t) = s == t

abbrev is_null : Value → Bool
is_null null = true
is_null _ = false

abbrev as_fields : Value → Option Fields
as_fields (obj fs) = some fs
as_fields _ = none

-- `v == w`: numbers and bools by their number, dicts with no regard to the order of their keys.
unfoldable mutual
  unfolding get size

  pub equals : Value → Value → Bool
  equals null w = is_null w
  equals (bool b) w = same_number (number_of (bool b)) (number_of w)
  equals (int n) w = same_number (number_of (int n)) (number_of w)
  equals (float m k) w = same_number (number_of (float m k)) (number_of w)
  equals (str s) w = same_text s (as_text w)
  equals (arr vs) null = false
  equals (arr vs) (arr ws) = items_equal vs ws
  equals (arr vs) _ = false
  equals (obj fs) null = false
  equals (obj fs) (obj gs) = nat_eq (size fs) (size gs) && fields_within fs gs
  equals (obj fs) _ = false

  pub items_equal : Items → Items → Bool
  items_equal no_items no_items = true
  items_equal (item v vs) (item w ws) = equals v w && items_equal vs ws
  items_equal _ _ = false

  pub fields_within : Fields → Fields → Bool
  fields_within no_fields gs = true
  fields_within (entry k v fs) gs =
      (elim (get k gs) [ none ↦ false | some w ↦ equals v w ]) && fields_within fs gs

-- `v in l`
unfoldable pub member : Value → Items → Bool
unfolding equals
member v no_items = false
member v (item w ws) = equals w v || member v ws
