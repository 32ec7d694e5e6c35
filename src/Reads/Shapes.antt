-- ===== src/Reads/Shapes.antt =====
-- How the rows of a planned query are restricted to columns, and how its records are limited.
use dalgo2http.Prelude.{
  ℕ, zero, suc, ◌≤◌, ◌≡◌, refl, ap, ◌⊎◌, inl, inr, List, [], ◌∷◌, ◌++◌, Option, none, some,
  if◌then◌else◌, ◌==◌, ◌||◌, among, length, take, map, lookup, ltb, arith, String, Bool-cases,
}
use dalgo2http.Value.{ℤ, pos, negsuc, Row}
use dalgo2http.Query.{Record}
use dalgo2http.Query.Shape.{apply_projection-lookup}
use dalgo2http.Reads.{limit_records, project}

-- The rows are the given ones, in order: as they are if no columns are asked for, and otherwise each
-- with the values of the asked columns and of the key field, and no other.
abbrev pub IsProjected : Option (List String) → String → List Row → List Row → Type 0
IsProjected none key_field rows projected = projected ≡ rows
IsProjected (some fields) key_field rows projected =
    (k : String)
    → map (lookup k) projected
      ≡ map (λ row. if key_field == k || among k fields then lookup k row else none) rows

-- The records are the first ones of all, up to a positive limit, and all of them otherwise.
abbrev pub IsLimited : ℤ → List Record → List Record → Type 0
IsLimited (pos (suc n)) all records =
    (rest : List Record) × (all ≡ records ++ rest)
    × ((length records ≡ suc n) ⊎ ((rest ≡ []) × (length records ≤ suc n)))
IsLimited _ all records = records ≡ all

pub project-IsProjected :
    (projection : Option (List String)) (key_field : String) (rows : List Row)
    → IsProjected projection key_field rows (project projection key_field rows)
unfolding project
project-IsProjected none key_field rows = refl
project-IsProjected (some fields) key_field rows =
    λ k. apply_projection-lookup rows fields key_field k

take_split :
    (n : ℕ) (records : List Record)
    → n ≤ length records
    → (rest : List Record) × (records ≡ take n records ++ rest) × (length (take n records) ≡ n)
take_split zero records h = (records, refl, refl)
take_split (suc n) [] h = absurd (omega arith)
take_split (suc n) (r ∷ records) h =
    let (rest, split, size) = take_split n records (omega (arith, h)) in
    (rest, ap (λ rs. r ∷ rs) split, ap suc size)

append_nil : (records : List Record) → records ≡ records ++ []
append_nil [] = refl
append_nil (r ∷ records) = ap (λ rs. r ∷ rs) (append_nil records)

pub limit_records-IsLimited :
    (limit : ℤ) (all : List Record) → IsLimited limit all (limit_records limit all)
unfolding limit_records
limit_records-IsLimited (pos zero) all = refl
limit_records-IsLimited (pos (suc n)) all = elim (Bool-cases (ltb (suc n) (length all))) [
  | inl more ↦
      let (rest, split, size) = take_split (suc n) all (ground (arith, more)) in
      rw (more, limit_records) (rest, split, inl size)
  | inr fits ↦ rw (fits, limit_records) ([], append_nil all, inr (refl, ground (arith, fits)))
]
limit_records-IsLimited (negsuc n) all = refl
