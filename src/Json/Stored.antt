-- ===== src/Json/Stored.antt =====
-- Which documents a column of type jsonb takes, as `json.dumps` writes them for `Jsonb`: no number
-- that JSON has not, and no character U+0000 in a text or a key.
use mervio.Json.Dump.{codes}
use mervio.Error.{Result, guard, database, invalid_document}
use mervio.Json.{
  Value, null, boolean, number, string, array, object, Items, nil, cons, Fields, end, field,
}
use mervio.Prelude.{ℕ, String, Bool, true, not, ◌&&◌, ◌||◌, ◌==◌, List, [], ◌∷◌, str_eq}

abbrev no_nul : List ℕ → Bool
no_nul [] = true
no_nul (c ∷ cs) = not (c == 0) && no_nul cs

unfoldable pub storable_text : String → Bool
storable_text s = no_nul (codes s)

-- `json.dumps` writes the floats that are no numbers as NaN, Infinity and -Infinity.
unfoldable pub storable_number : String → Bool
storable_number t = not (str_eq t "NaN" || (str_eq t "Infinity" || str_eq t "-Infinity"))

unfoldable mutual
  unfolding storable_text storable_number

  pub storable_value : Value → Bool
  storable_value null = true
  storable_value (boolean b) = true
  storable_value (number t) = storable_number t
  storable_value (string s) = storable_text s
  storable_value (array a) = storable_items a
  storable_value (object f) = storable_fields f

  pub storable_items : Items → Bool
  storable_items nil = true
  storable_items (cons v a) = storable_value v && storable_items a

  pub storable_fields : Fields → Bool
  storable_fields end = true
  storable_fields (field k v f) = storable_text k && (storable_value v && storable_fields f)

-- A parameter of type jsonb that the server parses.
unfoldable pub check_jsonb : Fields → Result (Unit {0})
check_jsonb document = guard (storable_fields document) (database invalid_document)
