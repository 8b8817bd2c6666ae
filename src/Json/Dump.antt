-- ===== src/Json/Dump.antt =====
-- The length of what `json.dumps(document, default=str)` writes, as `validate_payload` of
-- persistence/jobs.py measures it: every character outside ASCII is written as an escape, so the
-- UTF-8 length is the number of characters written.
use Prim.Native.Char.{code}
use mervio.Prelude.{
  ℕ, ◌+◌, String, Bool, true, false, ◌&&◌, ◌||◌, List, [], ◌∷◌, length, leb, ◌==◌, if◌then◌else◌,
}
use mervio.Json.{
  Value, null, boolean, number, string, array, object, Items, nil, cons, Fields, end, field,
}

-- The code points of a text.
abbrev pub codes : String → List ℕ
codes String.[] = []
codes (String.◌∷◌ c s) = code c ∷ codes s

-- `len(text)`
abbrev pub str_len : String → ℕ
str_len s = length (codes s)

char_width : ℕ → ℕ
char_width c =
    if c == 34 || c == 92 || c == 8 || c == 9 || c == 10 || c == 12 || c == 13
    then 2
    else if leb 32 c && leb c 126
    then 1
    else if leb c 0xffff
    then 6
    else 12

chars_width : List ℕ → ℕ
unfolding char_width
chars_width [] = 0
chars_width (c ∷ cs) = char_width c + chars_width cs

str_width : String → ℕ
unfolding chars_width
str_width s = 2 + chars_width (codes s)

-- `items_width first` counts the separator `, ` in front of every item but the first.
unfoldable mutual
  unfolding str_width

  pub value_width : Value → ℕ
  value_width null = 4
  value_width (boolean true) = 4
  value_width (boolean false) = 5
  value_width (number t) = str_len t
  value_width (string s) = str_width s
  value_width (array a) = 2 + items_width a true
  value_width (object f) = 2 + fields_width f true

  pub items_width : Items → Bool → ℕ
  items_width nil first = 0
  items_width (cons v a) first = (if first then 0 else 2) + value_width v + items_width a false

  pub fields_width : Fields → Bool → ℕ
  fields_width end first = 0
  fields_width (field k v f) first =
      (if first then 0 else 2) + str_width k + 2 + value_width v + fields_width f false
