-- ===== src/JsonPath/Paths.antt =====
-- How the path of a JSON response leads to its rows.
use Prim.Native.String
use package.text.Mathlib.TextLemmas.{nil-append, cons-append, append-nil}
use dalgo2http.Prelude.{
  String, ◌≡◌, refl, sym, ap, ◌≢◌, List, [], ◌∷◌, Bool-cases, inl, inr, All, ◌↔◌, ◌⊎◌, some, lookup,
  ◌==◌, eq_iff, Option-cases, ◌∙◌,
}
use dalgo2http.Errors.{ok, >>=-eq-ok, wrap_error, wrap_error-eq-ok, ok_inj}
use dalgo2http.Value.{Any, object, entries, Row}
use dalgo2http.Runtime.{Go, Bytes}
use dalgo2http.JsonPath.{split_dots, segments, select_field, navigate, extract_rows}
use dalgo2http.JsonPath.Rows.{
  AreRows, rows_of_iff, NoDot, dotted, join_dots, split_dots-ne-nil, split_dots-join,
  split_dots-NoDot,
}

split_dots-plain : (s : String) → NoDot s → split_dots s ≡ s ∷ []
unfolding split_dots
split_dots-plain String.[] h = refl
split_dots-plain (String.◌∷◌ c s) (here, h) = rw (here, split_dots-plain s h) refl

split_dots-prefix :
    (s t : String) → NoDot s → split_dots (String.◌++◌ s (String.◌++◌ "." t)) ≡ s ∷ split_dots t
unfolding split_dots
split_dots-prefix String.[] t h = rw (nil-append, cons-append, nil-append) refl
split_dots-prefix (String.◌∷◌ c s) t (here, h) =
    rw cons-append (rw (here, split_dots-prefix s t h) refl)

join_dots-split_dots :
    (segs : List String) → segs ≢ [] → All NoDot segs → split_dots (join_dots segs) ≡ segs
unfolding join_dots dotted
join_dots-split_dots [] n h = absurd (n refl)
join_dots-split_dots (s ∷ []) n (here, h) = ap split_dots (append-nil s) ∙ split_dots-plain s here
join_dots-split_dots (s ∷ t ∷ segs) n (here, h) =
    split_dots-prefix s (join_dots (t ∷ segs)) here
    ∙ ap (λ ss. s ∷ ss) (join_dots-split_dots (t ∷ segs) (λ e. cc) h)

-- The names spell the path: none, for an empty path; and otherwise names without a dot that are the
-- path when they are joined by dots.
abbrev pub Spells : List String → String → Type 0
Spells segs path =
    ((path ≡ "") × (segs ≡ []))
    ⊎ ((path ≢ "") × (segs ≢ []) × All NoDot segs × (join_dots segs ≡ path))

-- Following the names, one object's field after another, leads from the value to the other one.
abbrev pub Leads : Any → List String → Any → Type 0
Leads v [] target = v ≡ target
Leads (object fs) (seg ∷ segs) target =
    (inner : Any) × (lookup seg (entries fs) ≡ some inner) × Leads inner segs target
Leads _ (seg ∷ segs) target = ⊥

Spells-segments : (path : String) → Spells (segments path) path
unfolding segments
Spells-segments path = elim (Bool-cases (path == "")) [
  | inl empty ↦ rw empty (inl ((eq_iff path "").0 empty, refl))
  | inr other ↦ rw other (
      inr (
        λ e. cc ((eq_iff path "").1 e),
        split_dots-ne-nil path,
        split_dots-NoDot path,
        split_dots-join path,
      ))
]

segments-Spells : (segs : List String) (path : String) → Spells segs path → segments path ≡ segs
unfolding segments
segments-Spells segs path (inl (e, empty)) = rw (e, empty) refl
segments-Spells segs path (inr (named, n, plain, joined)) = elim (Bool-cases (path == "")) [
  | inl empty ↦ absurd (named ((eq_iff path "").0 empty))
  | inr other ↦ rw other (ap split_dots (sym joined) ∙ join_dots-split_dots segs n plain)
]

navigate-Leads :
    (v : Any) (segs : List String) (target : Any)
    → navigate v segs ≡ ok target
    → Leads v segs target
unfolding navigate select_field
navigate-Leads v [] target e = ok_inj v target e
navigate-Leads (object fs) (seg ∷ segs) target e = elim (Option-cases (lookup seg (entries fs))) [
  | inl missing ↦ absurd (cc (rw (missing, select_field) at e))
  | inr (inner, found) ↦
      (inner, found, navigate-Leads inner segs target (rw (found, select_field) at e))
]
navigate-Leads _ (seg ∷ segs) target e = cc

Leads-navigate :
    (v : Any) (segs : List String) (target : Any)
    → Leads v segs target
    → navigate v segs ≡ ok target
unfolding navigate select_field
Leads-navigate v [] target h = ap ok h
Leads-navigate (object fs) (seg ∷ segs) target (inner, found, h) =
    rw (found, select_field) (Leads-navigate inner segs target h)
Leads-navigate _ (seg ∷ segs) target h = elim h [ ]

-- A response has these rows exactly when it decodes as JSON, the names that the path spells lead from
-- the decoded value to some value, each through the field of that name of an object, and that value is
-- an array of objects with these fields, one object, or null with no row.
pub extract_rows_iff :
    (g : Go) (body : Bytes) (rows_path : String) (rows : List Row)
    → (extract_rows g body rows_path ≡ ok rows) ↔ (
        (decoded : Any) × (value : Any) × (segs : List String) × (g.json_unmarshal body
          ≡ ok decoded)
        × Spells segs rows_path
        × Leads decoded segs value
        × AreRows value rows)
unfolding extract_rows
extract_rows_iff g body rows_path rows = (
  λ e.
      let (decoded, unmarshalled, e₁) = >>=-eq-ok (wrap_error _ (g.json_unmarshal body)) _ e in
      let (value, reached, e₂) = >>=-eq-ok (navigate decoded (segments rows_path)) _ e₁ in
      (
        decoded,
        value,
        segments rows_path,
        wrap_error-eq-ok _ (g.json_unmarshal body) unmarshalled,
        Spells-segments rows_path,
        navigate-Leads decoded (segments rows_path) value reached,
        (rows_of_iff value rows).0 e₂,
      ),
  λ (decoded, value, segs, p, spelt, leads, h).
      rw (p, segments-Spells segs rows_path spelt, Leads-navigate decoded segs value leads)
        ((rows_of_iff value rows).1 h),
)
