-- ===== src/Bson/Fits.antt =====
-- What BSON can hold: numbers of their widths, object ids of twelve bytes, and no zero byte in a key
-- or in a part of a regular expression. The types that `MarshalBinary` refuses have nothing.
use sap_hana_compatibility_l.Prelude.{◌^◌, ◌<◌, ◌≡◌, All, length}
use sap_hana_compatibility_l.GoStd.Laws.{NoZero}
use sap_hana_compatibility_l.Types.Value.{
  Value, Items, Fields, document, array, double, string, binary, object_id, bool, date_time, null,
  regex, int32, timestamp, int64, cstring, other, nil, cons, end, field,
}

unfoldable mutual
  pub Fits : Value → Type 0
  Fits (document m keys) = FitsFields m × All NoZero keys
  Fits (array xs) = FitsItems xs
  Fits (double n) = n < 2 ^ 64
  Fits (string s) = Unit
  Fits (binary t s) = Unit
  Fits (object_id s) = length s ≡ 12
  Fits (bool b) = Unit
  Fits (date_time t n) = t < 2 ^ 64
  Fits null = Unit
  Fits (regex p o) = NoZero p × NoZero o
  Fits (int32 n) = n < 2 ^ 32
  Fits (timestamp n) = Unit
  Fits (int64 n) = n < 2 ^ 64
  Fits (cstring s) = Unit
  Fits other = Unit

  pub FitsItems : Items → Type 0
  FitsItems nil = Unit
  FitsItems (cons v xs) = Fits v × FitsItems xs

  pub FitsFields : Fields → Type 0
  FitsFields end = Unit
  FitsFields (field k v m) = Fits v × FitsFields m
