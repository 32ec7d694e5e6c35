-- ===== src/Query/Columns.antt =====
-- Which columns query.go takes: the names of fields.
use dalgo2http.Prelude.{String, ◌≡◌, refl, ◌↔◌, List, [], ◌∷◌, Option, none, some, All}
use dalgo2http.Errors.{ok, >>=-eq-ok}
use dalgo2http.Dal.{Expression, field_ref}
use dalgo2http.Query.{column_loop, column_field_names}

abbrev pub IsField : Expression → Type 0
IsField (field_ref name) = Unit
IsField _ = ⊥

column_loop-IsField :
    (columns : List Expression) (names : List String)
    → column_loop columns ≡ ok names
    → All IsField columns
unfolding column_loop
column_loop-IsField [] names e = tt
column_loop-IsField (field_ref name ∷ columns) names e =
    let (rest, later, _) = >>=-eq-ok (column_loop columns) _ e in
    (tt, column_loop-IsField columns rest later)
column_loop-IsField (_ ∷ columns) names e = cc

IsField-column_loop :
    (columns : List Expression)
    → All IsField columns
    → (names : List String) × (column_loop columns ≡ ok names)
unfolding column_loop
IsField-column_loop [] h = ([], refl)
IsField-column_loop (field_ref name ∷ columns) (_, h) =
    let (names, e) = IsField-column_loop columns h in (name ∷ names, rw e refl)
IsField-column_loop (_ ∷ columns) (p, h) = elim p [ ]

pub column_field_names_iff :
    (columns : List Expression)
    → ((names : Option (List String)) × (column_field_names columns ≡ ok names))
      ↔ All IsField columns
unfolding column_field_names
column_field_names_iff [] = (λ h. tt, λ h. (none, refl))
column_field_names_iff (c ∷ columns) = (
  λ (names, e).
      let (found, looped, _) = >>=-eq-ok (column_loop (c ∷ columns)) _ e in
      column_loop-IsField (c ∷ columns) found looped,
  λ h. let (names, e) = IsField-column_loop (c ∷ columns) h in (some names, rw e refl),
)
