-- ===== src/Types/Document.antt =====
-- internal/types/document.go and internal/types/path.go: the operations on documents. A method
-- with a pointer receiver returns the new document.
pub mod Valid
pub mod Keys
pub mod Shape
pub mod Set
pub mod Remove
pub mod Make
use sap_hana_compatibility_l.Prelude.{
  ℕ, List, [], ◌∷◌, ◌++◌, Bool, true, false, not, Option, none, some, if◌then◌else◌, Bytes,
  bytes_eq, Outcome, ok, err, panicked, stuck, ◌>>=◌, ◌>>◌, guard, key_present, invalid_key,
  key_not_found, odd_arguments, invalid_key_type,
}
use sap_hana_compatibility_l.Types.Value.{Value, string, Document, to_value, empty_document}
use sap_hana_compatibility_l.Types.Fields.{lookup, insert, delete, is_some}
use sap_hana_compatibility_l.Types.Validate.{is_valid_key, validate_value, validate}

-- `ConvertDocument`, at a document with the given map and keys (a nil map is empty).
unfoldable pub convert_document : Document → Outcome Document
unfolding validate
convert_document d = do validate d; ok d

-- `if err != nil { panic(err) }`
unfoldable pub must {ℓ} : {A : Type ℓ} → Outcome A → Outcome A
must (ok a) = ok a
must (err e) = panicked
must panicked = panicked
must stuck = stuck

-- `MustConvertDocument`
unfoldable pub must_convert_document : Document → Outcome Document
unfolding convert_document must
must_convert_document d = must (convert_document d)

-- `Document.add`
unfoldable pub add : Bytes → Value → Document → Outcome Document
add key value d = do
  guard (not (is_some (lookup key d.m))) key_present
  guard (is_valid_key key) invalid_key
  validate_value value
  ok (record { m = insert key value d.m; keys = d.keys ++ key ∷ [] })

-- `pairs[i].(string)`
unfoldable pub key_of : Value → Outcome Bytes
key_of (string s) = ok s
key_of _ = err invalid_key_type

-- The loop of `MakeDocument` over the pairs.
unfoldable pub add_pairs : List Value → Document → Outcome Document
unfolding key_of add
add_pairs [] d = ok d
add_pairs (k ∷ []) d = err odd_arguments
add_pairs (k ∷ v ∷ rest) d = key_of k >>= λ key. add key v d >>= λ e. add_pairs rest e

unfoldable pub is_even {ℓ} : {A : Type ℓ} → List A → Bool
is_even [] = true
is_even (a ∷ as₁) = not (is_even as₁)

-- `MakeDocument`
unfoldable pub make_document : List Value → Outcome Document
unfolding add_pairs is_even validate
make_document pairs = do
  guard (is_even pairs) odd_arguments
  d ← add_pairs pairs empty_document
  validate d
  ok d

-- `Document.Get`
unfoldable pub get : Bytes → Document → Outcome Value
get key d = elim (lookup key d.m) [ none ↦ err key_not_found | some v ↦ ok v ]

-- `Document.Set`
unfoldable pub set : Bytes → Value → Document → Outcome Document
set key value d = do
  guard (is_valid_key key) invalid_key
  validate_value value
  ok (record {
    m = insert key value d.m;
    keys = if is_some (lookup key d.m) then d.keys else d.keys ++ key ∷ [];
  })

-- The loop of `Remove`: the keys without the first that is `key`.
unfoldable pub remove_key : Bytes → List Bytes → Option (List Bytes)
remove_key key [] = none
remove_key key (k ∷ keys) =
    let rest = remove_key key keys in
    if bytes_eq k key then some keys else elim rest [ none ↦ none | some ks ↦ some (k ∷ ks) ]

-- `Document.Remove`
unfoldable pub remove : Bytes → Document → Outcome Document
unfolding remove_key
remove key d =
    if is_some (lookup key d.m)
    then elim (remove_key key d.keys) [
      | none ↦ panicked
      | some keys ↦ ok (record { m = delete key d.m; keys = keys })
    ]
    else ok d
