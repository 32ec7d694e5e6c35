-- ===== src/JsonPath/Total.antt =====
-- Panics of taking rows out of JSON.
use dalgo2http.Prelude.{String, List, [], ◌∷◌, arith}
use dalgo2http.Errors.{wrap_error, Raises-bind, Raises-wrap_error, Returns}
use dalgo2http.Value.{Any, slice, object, items}
use dalgo2http.Runtime.{Go, Bytes}
use dalgo2http.JsonPath.{segments, select_field, navigate, objects, rows_of, extract_rows}

select_field-Returns : (seg : String) (v : Any) → Returns (select_field seg v)
unfolding select_field
select_field-Returns seg v = ground arith

navigate-Returns : (v : Any) (path : List String) → Returns (navigate v path)
unfolding navigate
navigate-Returns v [] = tt
navigate-Returns v (seg ∷ path) =
    Raises-bind _ (select_field seg v) _ (select_field-Returns seg v) (λ w. navigate-Returns w path)

objects-Returns : (vs : List Any) → Returns (objects vs)
unfolding objects
objects-Returns [] = tt
objects-Returns (object fs ∷ vs) = Raises-bind _ (objects vs) _ (objects-Returns vs) (λ rows. tt)
objects-Returns (_ ∷ vs) = tt

rows_of-Returns : (v : Any) → Returns (rows_of v)
unfolding rows_of
rows_of-Returns (slice vs) = objects-Returns (items vs)
rows_of-Returns (object fs) = tt
rows_of-Returns _ = tt

pub extract_rows-Returns :
    (g : Go) (body : Bytes) (rows_path : String)
    → Returns (g.json_unmarshal body)
    → Returns (extract_rows g body rows_path)
unfolding extract_rows
extract_rows-Returns g body rows_path h =
    Raises-bind _ (wrap_error _ (g.json_unmarshal body)) _
      (Raises-wrap_error _ _ _ (g.json_unmarshal body) (λ e x. tt) h)
      λ v.
        Raises-bind _ (navigate v (segments rows_path)) _ (navigate-Returns v (segments rows_path))
          rows_of-Returns
