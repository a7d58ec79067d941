-- ===== src/Types/Value.antt =====
-- internal/types/types.go, document.go and array.go: the data. A Go `any` that can be stored is a
-- `Value`. A map from strings is an association list with distinct keys; the keys' order in a
-- document is the list beside it. A float64 is its bit pattern, an int32 and an int64 are their
-- two's-complement patterns, and an instant is its milliseconds since 1970 (an int64 pattern) with
-- the nanoseconds beyond them. `other` is a Go value of any type that the packages do not list.
use sap_hana_compatibility_l.Prelude.{ℕ, List, Bool, Bytes}

mutual
  pub data Value : Type 0 where
    document : Fields → List Bytes → Value
    array : Items → Value
    double : ℕ → Value
    string : Bytes → Value
    binary : ℕ → Bytes → Value
    object_id : Bytes → Value
    bool : Bool → Value
    date_time : ℕ → ℕ → Value
    null : Value
    regex : Bytes → Bytes → Value
    int32 : ℕ → Value
    timestamp : ℕ → Value
    int64 : ℕ → Value
    cstring : Bytes → Value
    other : Value

  pub data Items : Type 0 where
    nil : Items
    cons : Value → Items → Items

  pub data Fields : Type 0 where
    end : Fields
    field : Bytes → Value → Fields → Fields

-- `types.Document`; `bson.Document` has the same two fields.
pub record Document : Type 0 where
  pub m : Fields
  pub keys : List Bytes

-- `types.Array`, and `bson.Array`.
pub record Array : Type 0 where
  pub s : Items

-- A document as an `any`.
abbrev pub to_value : Document → Value
to_value d = document d.m d.keys

-- The zero `types.Document`, and an empty one.
abbrev pub empty_document : Document
empty_document = record { m = end; keys = List.[] }
