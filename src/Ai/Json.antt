-- ===== src/Ai/Json.antt =====
-- encoding/json, as internal/ai and internal/session use it: texts, values and fields.
pub mod Content
pub mod Messages
pub mod RoundTrip
use mixi.Base.{
  ℕ, ◌+◌, Bool, true, false, ◌&&◌, Option, none, some, List, [], ◌∷◌, map, leb, if◌then◌else◌,
}
use mixi.Base.Bytes.{Bytes, bytes_eq}

-- A value as encoding/json reads it, one level deep: what is nested is its text, as in a RawMessage.
-- `number` is a literal that an int holds; counts and times are not negative here.
pub data Json : Type 0 where
  null : Json
  boolean : Bool → Json
  number : ℕ → Json
  other_number : Json
  string : Bytes → Json
  array : List Bytes → Json
  object : List (Bytes × Bytes) → Json

-- The texts of encoding/json. Marshal of an array or an object is `none` where a nested text, which
-- may be a RawMessage from elsewhere, is not JSON; `parse` is `none` where the text is not.
pub record Codec : Type 0 where
  pub boolean_text : Bool → Bytes
  pub number_text : ℕ → Bytes
  pub string_text : Bytes → Bytes
  pub null_text : Bytes
  pub array_text : List Bytes → Option Bytes
  pub object_text : List (Bytes × Bytes) → Option Bytes
  pub parse : Bytes → Option Json

infixl 5 ◌>>=◌
abbrev pub ◌>>=◌ {ℓ κ} : {A : Type ℓ} {B : Type κ} → Option A → (A → Option B) → Option B
none >>= f = none
some a >>= f = f a

-- names are compared without their case
abbrev fold_byte : ℕ → ℕ
fold_byte c = if leb 65 c && leb c 90 then c + 32 else c

abbrev same_name : Bytes → Bytes → Bool
same_name a b = bytes_eq (map fold_byte a) (map fold_byte b)

abbrev or_text : Option Bytes → Bool → Bytes → Option Bytes
or_text (some u) same t = some u
or_text none same t = if same then some t else none

-- the text of a field; of a name that is repeated the last one counts
unfoldable pub get : Bytes → List (Bytes × Bytes) → Option Bytes
get name [] = none
get name ((k, t) ∷ ms) = or_text (get name ms) (same_name k name) t

abbrev pub as_fields : Option Json → Option (List (Bytes × Bytes))
as_fields (some (object ms)) = some ms
as_fields (some null) = some []
as_fields _ = none

abbrev pub as_string : Option Json → Option Bytes
as_string (some (string s)) = some s
as_string (some null) = some []
as_string _ = none

abbrev pub as_number : Option Json → Option ℕ
as_number (some (number n)) = some n
as_number (some null) = some 0
as_number _ = none

abbrev pub as_boolean : Option Json → Option Bool
as_boolean (some (boolean b)) = some b
as_boolean (some null) = some false
as_boolean _ = none

abbrev pub as_array : Option Json → Option (List Bytes)
as_array (some (array ts)) = some ts
as_array (some null) = some []
as_array _ = none

abbrev pub fields : Codec → Bytes → Option (List (Bytes × Bytes))
fields c data_text = as_fields (c.parse data_text)

-- a missing field keeps the zero value
abbrev pub field_or : {A : Type 0} → Codec → A → (Option Json → Option A) → Option Bytes → Option A
field_or c zero_value as_value none = some zero_value
field_or c zero_value as_value (some t) = as_value (c.parse t)

abbrev pub get_string : Codec → Bytes → List (Bytes × Bytes) → Option Bytes
get_string c name ms = field_or c [] as_string (get name ms)

abbrev pub get_number : Codec → Bytes → List (Bytes × Bytes) → Option ℕ
get_number c name ms = field_or c 0 as_number (get name ms)

abbrev pub get_boolean : Codec → Bytes → List (Bytes × Bytes) → Option Bool
get_boolean c name ms = field_or c false as_boolean (get name ms)

abbrev pub get_fields : Codec → Bytes → List (Bytes × Bytes) → Option (List (Bytes × Bytes))
get_fields c name ms = field_or c [] as_fields (get name ms)

abbrev raw_or : Option Bytes → Bytes
raw_or none = []
raw_or (some t) = t

-- a RawMessage takes the text, also that of null
abbrev pub get_raw : Bytes → List (Bytes × Bytes) → Bytes
get_raw name ms = raw_or (get name ms)

-- fields with omitempty
abbrev pub omit_string : Codec → Bytes → Bytes → List (Bytes × Bytes)
omit_string c name [] = []
omit_string c name (b ∷ s) = (name, c.string_text (b ∷ s)) ∷ []

abbrev pub omit_raw : Bytes → Bytes → List (Bytes × Bytes)
omit_raw name [] = []
omit_raw name (b ∷ s) = (name, b ∷ s) ∷ []

abbrev pub omit_boolean : Codec → Bytes → Bool → List (Bytes × Bytes)
omit_boolean c name false = []
omit_boolean c name true = (name, c.boolean_text true) ∷ []

-- a RawMessage field without omitempty; nil is written as null
abbrev pub raw_text : Codec → Bytes → Bytes
raw_text c [] = c.null_text
raw_text c (b ∷ s) = b ∷ s
