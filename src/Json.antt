-- ===== src/Json.antt =====
-- The JSON documents that a job carries (its payload and its result), as the decoded Python values.
pub mod Dump
pub mod Stored
use mervio.Prelude.{String, ◌≡◌, refl, Bool, true, false, ◌&&◌, arith, str_eq, str_eq_refl}

-- A number is kept by the text that `json.dumps` writes for it, which is all that is read of it.
mutual
  pub data Value : Type 0 where
    null : Value
    boolean : Bool → Value
    number : String → Value
    string : String → Value
    array : Items → Value
    object : Fields → Value

  pub data Items : Type 0 where
    nil : Items
    cons : Value → Items → Items

  pub data Fields : Type 0 where
    end : Fields
    field : String → Value → Fields → Fields

abbrev bool_eq : Bool → Bool → Bool
bool_eq true true = true
bool_eq false false = true
bool_eq _ _ = false

-- Equality of documents, for the trigger's `NEW.payload <> OLD.payload`.
unfoldable mutual
  pub value_eq : Value → Value → Bool
  value_eq null null = true
  value_eq (boolean a) (boolean b) = bool_eq a b
  value_eq (number a) (number b) = str_eq a b
  value_eq (string a) (string b) = str_eq a b
  value_eq (array a) (array b) = items_eq a b
  value_eq (object a) (object b) = fields_eq a b
  value_eq _ _ = false

  pub items_eq : Items → Items → Bool
  items_eq nil nil = true
  items_eq (cons v a) (cons w b) = value_eq v w && items_eq a b
  items_eq _ _ = false

  pub fields_eq : Fields → Fields → Bool
  fields_eq end end = true
  fields_eq (field k v a) (field j w b) = str_eq k j && (value_eq v w && fields_eq a b)
  fields_eq _ _ = false

mutual
  unfolding value_eq items_eq fields_eq

  value_refl : (v : Value) → value_eq v v ≡ true
  value_refl null = refl
  value_refl (boolean true) = refl
  value_refl (boolean false) = refl
  value_refl (number a) = str_eq_refl a
  value_refl (string a) = str_eq_refl a
  value_refl (array a) = items_refl a
  value_refl (object a) = fields_refl a

  items_refl : (a : Items) → items_eq a a ≡ true
  items_refl nil = refl
  items_refl (cons v a) = ground (arith, value_refl v, items_refl a)

  fields_refl : (a : Fields) → fields_eq a a ≡ true
  fields_refl end = refl
  fields_refl (field k v a) = ground (arith, str_eq_refl k, value_refl v, fields_refl a)

pub fields_eq_refl : (a : Fields) → fields_eq a a ≡ true
fields_eq_refl a = fields_refl a
