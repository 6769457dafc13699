-- ===== src/Json.antt =====
-- The values of Python's `json`: what the sources keep in `dict[str, Any]`.
pub mod Laws
use ocsf_forge.Prelude.{
  ℕ, Bool, true, false, not, ◌||◌, Option, none, some, List, [], ◌∷◌, is_nil, ◌==◌, if◌then◌else◌,
}
use ocsf_forge.Text.{Text, codes, text_eq}

-- `int n` is n, `negative n` is -(n + 1), and `float` carries the text of the number.
mutual
  pub data Value : Type 0 where
    null : Value
    boolean : Bool → Value
    int : ℕ → Value
    negative : ℕ → Value
    float : Text → Value
    str : Text → Value
    arr : Items → Value
    obj : Fields → Value

  pub data Items : Type 0 where
    nil : Items
    item : Value → Items → Items

  pub data Fields : Type 0 where
    end : Fields
    field : Text → Value → Fields → Fields

-- A dict literal.
abbrev pub fields : List (Text × Value) → Fields
fields [] = end
fields ((k, v) ∷ rest) = field k v (fields rest)

-- A list of texts.
abbrev pub texts : List Text → Items
texts [] = nil
texts (t ∷ ts) = item (str t) (texts ts)

-- `d.get(k)`.
abbrev pub get : Fields → Text → Option Value
get end key = none
get (field k v rest) key = if text_eq key k then some v else get rest key

-- `d[k] = v`: an entry keeps its place, a new one comes last.
abbrev pub put : Fields → Text → Value → Fields
put end key value = field key value end
put (field k v rest) key value =
    if text_eq key k then field k value rest else field k v (put rest key value)

-- `d.pop(k, None)`.
abbrev pub remove : Fields → Text → Fields
remove end key = end
remove (field k v rest) key =
    let kept = remove rest key in if text_eq key k then kept else field k v kept

-- `{**d, **e}`.
abbrev pub merge : Fields → Fields → Fields
merge d end = d
merge d (field k v rest) = merge (put d k v) rest

-- The truth of a value; the text of a float is that of `repr`.
abbrev pub truthy : Value → Bool
truthy null = false
truthy (boolean b) = b
truthy (int n) = not (n == 0)
truthy (negative n) = true
truthy (float t) = not (text_eq t (codes "0.0") || text_eq t (codes "-0.0"))
truthy (str t) = not (is_nil t)
truthy (arr nil) = false
truthy (arr (item v vs)) = true
truthy (obj end) = false
truthy (obj (field k v fs)) = true
