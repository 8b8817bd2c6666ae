-- ===== src/Jobs/Payload.antt =====
-- `validate_payload` of persistence/jobs.py.
use mervio.Json.Dump.{codes, str_len, fields_width}
use mervio.Error.{Result, ok, guard, payload_rejected, ◌>>◌}
use mervio.Prelude.{
  ℕ, List, String, ◌∷◌, Bool, if◌then◌else◌, [], leb, true, ◌++◌, false, ◌||◌, ◌&&◌, ◌==◌, ◌+◌, not,
}
use mervio.Json.{Value, null, boolean, number, string, array, object, Fields, end, field}

-- FORBIDDEN_PAYLOAD_KEY_FRAGMENTS
abbrev pub forbidden_fragments : List String
forbidden_fragments =
    "password" ∷ "passwd" ∷ "secret" ∷ "token" ∷ "credential" ∷ "authorization" ∷ "api_key"
    ∷ "apikey" ∷ "private_key" ∷ "cookie" ∷ "access_key" ∷ []

abbrev pub max_payload_value_length : ℕ
max_payload_value_length = 4096

abbrev pub max_payload_bytes : ℕ
max_payload_bytes = 16384

-- `str.lower` on one character. Outside ASCII only the two characters whose lower case holds an
-- ASCII letter are lowered, since a key is only searched for ASCII fragments.
lower_char : ℕ → List ℕ
lower_char c =
    if leb 65 c && leb c 90
    then (c + 32) ∷ []
    else if c == 0x212a
    then 107 ∷ []
    else if c == 0x130
    then 105 ∷ 0x307 ∷ []
    else c ∷ []

lower : List ℕ → List ℕ
unfolding lower_char
lower [] = []
lower (c ∷ cs) = lower_char c ++ lower cs

is_prefix : List ℕ → List ℕ → Bool
is_prefix [] text = true
is_prefix (a ∷ s) [] = false
is_prefix (a ∷ s) (b ∷ text) = a == b && is_prefix s text

-- `fragment in text`
occurs : List ℕ → List ℕ → Bool
unfolding is_prefix
occurs fragment [] = is_prefix fragment []
occurs fragment (c ∷ cs) = is_prefix fragment (c ∷ cs) || occurs fragment cs

any_occurs : List String → List ℕ → Bool
unfolding occurs
any_occurs [] text = false
any_occurs (f ∷ fs) text = occurs (codes f) text || any_occurs fs text

unfoldable pub forbidden_key : String → Bool
unfolding any_occurs lower
forbidden_key key = any_occurs forbidden_fragments (lower (codes key))

unfoldable mutual
  pub validate_value : Value → Result (Unit {0})
  validate_value null = ok tt
  validate_value (boolean b) = ok tt
  validate_value (number t) = ok tt
  validate_value (string s) = guard (leb (str_len s) max_payload_value_length) payload_rejected
  validate_value (array a) = ok tt
  validate_value (object f) = do
    validate_fields f
    guard (leb (fields_width f true + 2) max_payload_bytes) payload_rejected

  pub validate_fields : Fields → Result (Unit {0})
  validate_fields end = ok tt
  validate_fields (field key value rest) = do
    guard (not (forbidden_key key)) payload_rejected
    validate_value value
    validate_fields rest

unfoldable pub validate_payload : Fields → Result Fields
validate_payload payload = do
  validate_fields payload
  guard (leb (fields_width payload true + 2) max_payload_bytes) payload_rejected
  ok payload
