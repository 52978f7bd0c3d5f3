-- ===== src/Canonical/Data.antt =====
-- The Python values that canonical.py walks, and the values that it hands to `json.dumps`.
use execution_finality_for_a.Prelude.{ℕ, ℤ, Str, Bool, List, [], ◌∷◌}
use execution_finality_for_a.Platform.{Bytes}

-- A Python value, by the classes that `_normalize` tells apart. A float is its 64 bits; `other` is
-- any other object, by the name of its type. A str-valued Enum member is its text. A dataclass
-- instance is the names and values of its fields, in order.
mutual
  pub data Value : Type 0 where
    null : Value
    bool : Bool → Value
    int : ℤ → Value
    float : ℕ → Value
    text : Str → Value
    bytes : Bytes → Value
    list : Items → Value
    tuple : Items → Value
    dict : Entries → Value
    dataclass : Entries → Value
    other : Str → Value

  pub data Items : Type 0 where
    nil : Items
    cons : Value → Items → Items

  pub data Entries : Type 0 where
    end : Entries
    entry : Value → Value → Entries → Entries

-- What `_normalize` returns: no float, no bytes, and text for every key.
mutual
  pub data Json : Type 0 where
    null : Json
    bool : Bool → Json
    int : ℤ → Json
    text : Str → Json
    list : JsonItems → Json
    dict : Members → Json

  pub data JsonItems : Type 0 where
    nil : JsonItems
    cons : Json → JsonItems → JsonItems

  pub data Members : Type 0 where
    end : Members
    member : Str → Json → Members → Members

abbrev pub members : List (Str × Json) → Members
members [] = Members.end
members ((k, j) ∷ ms) = Members.member k j (members ms)

-- A dict literal of the source, and the fields of a dataclass.
abbrev pub fields : List (Str × Value) → Entries
fields [] = Entries.end
fields ((k, v) ∷ es) = Entries.entry (Value.text k) v (fields es)

-- `list(texts)` as a value
abbrev pub texts : List Str → Items
texts [] = Items.nil
texts (s ∷ ss) = Items.cons (Value.text s) (texts ss)
