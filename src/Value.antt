-- ===== src/Value.antt =====
-- Values of Go's `any` as the source's type switches tell them apart, and rows.
use dalgo2http.Prelude.{ℕ, Bool, String, Option, List, [], ◌∷◌, Dict}

-- `negsuc n` is -(n + 1)
pub data ℤ : Type 0 where
  pos negsuc : ℕ → ℤ

pub data IntKind : Type 0 where
  int int8 int16 int32 int64 uint uint8 uint16 uint32 uint64 : IntKind

-- A float is its bit pattern, and an instant of `time.Time` a number; what is computed from them is
-- left to the runtime. `stringer` is a value of another type with a method String and what that
-- returns, `none` where it panics (as on a nil pointer), `opaque` one without, and `slice` is any slice, read entry by entry.
mutual
  pub data Any : Type 0 where
    nil : Any
    bool : Bool → Any
    str : String → Any
    float64 float32 : ℕ → Any
    integer : IntKind → ℤ → Any
    time : ℕ → Any
    stringer : Option String → Any
    opaque : String → Any
    slice : Items → Any
    object : Fields → Any

  pub data Items : Type 0 where
    stop : Items
    item : Any → Items → Items

  pub data Fields : Type 0 where
    end : Fields
    field : String → Any → Fields → Fields

-- `map[string]any`
abbrev pub Row : Type 0
Row = Dict Any

abbrev pub items : Items → List Any
items stop = []
items (item v vs) = v ∷ items vs

abbrev pub entries : Fields → Row
entries end = []
entries (field k v fs) = (k, v) ∷ entries fs

-- a row as a value
abbrev pub to_fields : Row → Fields
to_fields [] = end
to_fields ((k, v) ∷ r) = field k v (to_fields r)
