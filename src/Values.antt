-- ===== src/Values.antt =====
-- Values of the dynamic part of the program: what a `dict[str, Any]` holds, and what JSON carries.
use velpos.Prelude.{
  ℕ, zero, suc, String, Bool, true, false, Option, none, some, List, [], ◌∷◌, is_empty,
  if◌then◌else◌, not, ◌≡◌,
}
use velpos.Prelude.Dict.{Dict}

-- `negsuc n` is -(n + 1).
pub data ℤ : Type 0 where
  pos : ℕ → ℤ
  negsuc : ℕ → ℤ

-- A float is kept as its printed text, since the modelled code only tests its type.
mutual
  pub data Value : Type 0 where
    null : Value
    bool : Bool → Value
    int : ℤ → Value
    float : String → Value
    str : String → Value
    arr : Items → Value
    obj : Fields → Value

  pub data Items : Type 0 where
    no_items : Items
    item : Value → Items → Items

  pub data Fields : Type 0 where
    end : Fields
    field : String → Value → Fields → Fields

abbrev pub to_list : Items → List Value
to_list no_items = []
to_list (item v r) = v ∷ to_list r

abbrev pub of_list : List Value → Items
of_list [] = no_items
of_list (v ∷ r) = item v (of_list r)

abbrev pub to_dict : Fields → Dict Value
to_dict end = []
to_dict (field k v r) = (k, v) ∷ to_dict r

abbrev pub of_dict : Dict Value → Fields
of_dict [] = end
of_dict ((k, v) ∷ r) = field k v (of_dict r)

-- What the standard library gives: `str(v)`, `bool` of a float, `json.dumps` and `json.loads`
-- (which may raise).
pub record Runtime : Type 0 where
  pub str_of : Value → String
  pub float_truthy : String → Bool
  pub dumps : Value → String
  pub loads : String → Option Value

-- Documented behaviour: `str` of a text is the text, and `loads` reads what `dumps` writes, which
-- is never the empty text.
pub record IsRuntime (py : Runtime) : Type 0 where
  pub str_of_str : (s : String) → py.str_of (str s) ≡ s
  pub loads_dumps : (v : Value) → py.loads (py.dumps v) ≡ some v
  pub dumps_nonempty : (v : Value) → is_empty (py.dumps v) ≡ false

-- Python's `bool(v)`
unfoldable pub truthy : Runtime → Value → Bool
truthy py null = false
truthy py (bool b) = b
truthy py (int (pos zero)) = false
truthy py (int (pos (suc n))) = true
truthy py (int (negsuc n)) = true
truthy py (float t) = py.float_truthy t
truthy py (str s) = not (is_empty s)
truthy py (arr no_items) = false
truthy py (arr (item v r)) = true
truthy py (obj end) = false
truthy py (obj (field k v r)) = true

-- `safe_json_loads(s, default=d)` of domain/shared/utils.py
unfoldable pub safe_json_loads : Runtime → String → Value → Value
safe_json_loads py s d = if is_empty s then d else elim (py.loads s) [ none ↦ d | some v ↦ v ]
