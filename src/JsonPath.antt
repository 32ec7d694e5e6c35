-- ===== src/JsonPath.antt =====
-- jsonpath.go: the rows of a JSON response.
pub mod Rows
pub mod Paths
pub mod Total
use Prim.Native.String
use dalgo2http.Prelude.{
  ℕ, Char, code, String, Bool, List, [], ◌∷◌, Option, none, some, nat_eq, if◌then◌else◌, ◌==◌,
  lookup,
}
use dalgo2http.Errors.{Error, foreign, errorf, Result, ok, err, ◌>>=◌, wrap_error}
use dalgo2http.Value.{Any, nil, slice, object, items, entries, Row}
use dalgo2http.Runtime.{Go, Bytes}

-- the first segment grows by a character
abbrev pub extend_first : Char → List String → List String
extend_first c [] = String.◌∷◌ c "" ∷ []
extend_first c (s ∷ segs) = String.◌∷◌ c s ∷ segs

-- `strings.Split(path, ".")`
unfoldable pub split_dots : String → List String
split_dots String.[] = "" ∷ []
split_dots (String.◌∷◌ c s) =
    let segs = split_dots s in if nat_eq (code c) b'.' then "" ∷ segs else extend_first c segs

-- the segments of `rowsPath`; an empty path has none
unfoldable pub segments : String → List String
unfolding split_dots
segments rows_path = if rows_path == "" then [] else split_dots rows_path

select_field : String → Any → Result Any
select_field seg (object fs) = elim (lookup seg (entries fs)) [
  | none ↦ err (foreign "dalgo2http: rowsPath %q: field %q not found in response")
  | some v ↦ ok v
]
select_field seg _ = err (foreign "dalgo2http: rowsPath %q: %q is not a JSON object")

unfoldable pub navigate : Any → List String → Result Any
unfolding select_field
navigate v [] = ok v
navigate v (seg ∷ segs) = do inner ← select_field seg v; navigate inner segs

objects : List Any → Result (List Row)
objects [] = ok []
objects (object fs ∷ vs) = do rows ← objects vs; ok (entries fs ∷ rows)
objects (_ ∷ vs) = err (foreign "dalgo2http: rowsPath %q: row %d is not a JSON object (got %T)")

unfoldable pub rows_of : Any → Result (List Row)
unfolding objects
rows_of (slice vs) = objects (items vs)
rows_of (object fs) = ok (entries fs ∷ [])
rows_of nil = ok []
rows_of _ =
    err
      (foreign "dalgo2http: rowsPath %q: value is neither a JSON array nor a JSON object (got %T)")

unfoldable pub extract_rows : Go → Bytes → String → Result (List Row)
extract_rows g body rows_path = do
  decoded ← wrap_error "dalgo2http: decode response JSON: %w" (g.json_unmarshal body)
  value ← navigate decoded (segments rows_path)
  rows_of value
