-- ===== src/Reads/First.antt =====
-- The row that a lookup by key finds.
use dalgo2http.Prelude.{
  String, ◌≡◌, refl, ◌⊎◌, inl, inr, true, false, List, [], ◌∷◌, Option, none, some, Bool-cases,
}
use dalgo2http.Value.{Row}
use dalgo2http.Runtime.{Go}
use dalgo2http.Reads.{has_id, find_row}

-- The row is one of the list, its ID is the stated one, and no row before it has that ID.
abbrev pub IsFirst : Go → String → String → List Row → Row → Type 0
IsFirst g key_field id [] row = ⊥
IsFirst g key_field id (r ∷ rows) row =
    ((r ≡ row) × (has_id g key_field id r ≡ true))
    ⊎ ((has_id g key_field id r ≡ false) × IsFirst g key_field id rows row)

-- what is answered about a row that was looked for
abbrev pub IsFound : Go → String → String → List Row → Option Row → Type 0
IsFound g key_field id rows none = (row : Row) → ¬ (IsFirst g key_field id rows row)
IsFound g key_field id rows (some row) = IsFirst g key_field id rows row

not-IsFirst :
    (g : Go) (key_field id : String) (r row : Row) (rows : List Row)
    → has_id g key_field id r ≡ false
    → ¬ (IsFirst g key_field id rows row)
    → ¬ (IsFirst g key_field id (r ∷ rows) row)
not-IsFirst g key_field id r row rows other none_behind (inl (same, has)) = cc
not-IsFirst g key_field id r row rows other none_behind (inr (_, behind)) = none_behind behind

behind-IsFound :
    (g : Go) (key_field id : String) (r : Row) (rows : List Row) (o : Option Row)
    → has_id g key_field id r ≡ false
    → IsFound g key_field id rows o
    → IsFound g key_field id (r ∷ rows) o
behind-IsFound g key_field id r rows none other h =
    λ row. not-IsFirst g key_field id r row rows other (h row)
behind-IsFound g key_field id r rows (some row) other h = inr (other, h)

-- The lookup by key finds the first row whose key field, as text, is the ID; and if it finds none,
-- there is no such row.
pub find_row-IsFound :
    (g : Go) (key_field id : String) (rows : List Row)
    → IsFound g key_field id rows (find_row g key_field id rows)
unfolding find_row
find_row-IsFound g key_field id [] = λ row h. h
find_row-IsFound g key_field id (r ∷ rows) = elim (Bool-cases (has_id g key_field id r)) [
  | inl here ↦ rw (here, find_row) (inl (refl, here))
  | inr other ↦
      rw (other, find_row)
        (behind-IsFound g key_field id r rows (find_row g key_field id rows) other
          (find_row-IsFound g key_field id rows))
]
