-- ===== src/JsonPath/Rows.antt =====
-- Which rows a JSON response has, and how a path selects them.
use Prim.Native.String
use package.text.Mathlib.TextEquality.{Char-path}
use package.text.Mathlib.TextLemmas.{nil-append, cons-append}
use dalgo2http.Prelude.{
  Char, code, String, ◌≡◌, refl, sym, ap, subst, ◌≢◌, true, false, List, [], ◌∷◌, ◌++◌, nat_eq,
  nat_eq_iff, Bool-cases, inl, inr, All, ◌↔◌,
}
use dalgo2http.Errors.{Result, ok, err, panic, ◌>>=◌, >>=-eq-ok, ok_inj}
use dalgo2http.Value.{Any, nil, slice, object, items, entries, Row}
use dalgo2http.JsonPath.{extend_first, split_dots, select_field, navigate, objects, rows_of}

navigate_then :
    (r : Result Any) (p q : List String)
    → ((v : Any) → navigate v (p ++ q) ≡ (navigate v p >>= λ w. navigate w q))
    → (r >>= λ v. navigate v (p ++ q)) ≡ ((r >>= λ v. navigate v p) >>= λ w. navigate w q)
navigate_then (ok v) p q ih = ih v
navigate_then (err e) p q ih = refl
navigate_then panic p q ih = refl

-- Following one path and then another is following the two joined.
pub navigate-append :
    (v : Any) (p q : List String) → navigate v (p ++ q) ≡ (navigate v p >>= λ w. navigate w q)
unfolding navigate
navigate-append v [] q = refl
navigate-append v (seg ∷ p) q = navigate_then (select_field seg v) p q (λ w. navigate-append w p q)

-- The list holds objects, and their fields are the rows, in order.
abbrev pub AreObjects : List Any → List Row → Type 0
AreObjects [] [] = Unit
AreObjects (object fs ∷ vs) (row ∷ rows) = (row ≡ entries fs) × AreObjects vs rows
AreObjects _ _ = ⊥

-- The rows that a value stands for: an array of objects has them one by one, an object is one row,
-- and null is none.
abbrev pub AreRows : Any → List Row → Type 0
AreRows (slice vs) rows = AreObjects (items vs) rows
AreRows (object fs) rows = rows ≡ entries fs ∷ []
AreRows nil rows = rows ≡ []
AreRows _ rows = ⊥

objects-AreObjects : (vs : List Any) (rows : List Row) → objects vs ≡ ok rows → AreObjects vs rows
unfolding objects
objects-AreObjects [] [] e = tt
objects-AreObjects [] (r ∷ rows) e = cc
objects-AreObjects (object fs ∷ vs) rows e =
    let (rest, later, shape) = >>=-eq-ok (objects vs) _ e in
    subst (AreObjects (object fs ∷ vs)) (ok_inj _ rows shape)
      (refl, objects-AreObjects vs rest later)
objects-AreObjects (_ ∷ vs) rows e = cc

AreObjects-objects : (vs : List Any) (rows : List Row) → AreObjects vs rows → objects vs ≡ ok rows
unfolding objects
AreObjects-objects [] [] h = refl
AreObjects-objects [] (r ∷ rows) h = elim h [ ]
AreObjects-objects (object fs ∷ vs) [] h = elim h [ ]
AreObjects-objects (object fs ∷ vs) (row ∷ rows) h =
    rw (AreObjects-objects vs rows h.1) (ap (λ r. ok (r ∷ rows)) (sym h.0))
AreObjects-objects (_ ∷ vs) rows h = elim h [ ]

pub rows_of_iff : (v : Any) (rows : List Row) → (rows_of v ≡ ok rows) ↔ AreRows v rows
unfolding rows_of
rows_of_iff (slice vs) rows =
    (objects-AreObjects (items vs) rows, AreObjects-objects (items vs) rows)
rows_of_iff (object fs) rows = (λ e. sym (ok_inj _ rows e), λ h. ap ok (sym h))
rows_of_iff nil rows = (λ e. sym (ok_inj _ rows e), λ h. ap ok (sym h))
rows_of_iff _ rows = (λ e. cc, λ h. elim h [ ])

-- the segments, each behind a dot
unfoldable pub dotted : List String → String
dotted [] = ""
dotted (s ∷ segs) = String.◌++◌ "." (String.◌++◌ s (dotted segs))

-- segments joined by dots
unfoldable pub join_dots : List String → String
unfolding dotted
join_dots [] = ""
join_dots (s ∷ segs) = String.◌++◌ s (dotted segs)

extend_first-join :
    (c : Char) (s : String) (segs : List String)
    → segs ≢ []
    → join_dots segs ≡ s
    → join_dots (extend_first c segs) ≡ String.◌∷◌ c s
unfolding join_dots
extend_first-join c s [] n h = absurd (n refl)
extend_first-join c s (t ∷ segs) n h = rw cons-append (ap (String.◌∷◌ c) h)

extend_first-ne-nil : (c : Char) (segs : List String) → extend_first c segs ≢ []
extend_first-ne-nil c [] e = cc
extend_first-ne-nil c (s ∷ segs) e = cc

pub split_dots-ne-nil : (s : String) → split_dots s ≢ []
unfolding split_dots
split_dots-ne-nil String.[] e = cc
split_dots-ne-nil (String.◌∷◌ c s) e = elim (Bool-cases (nat_eq (code c) b'.')) [
  | inl dot ↦ cc (rw (dot, split_dots) at e)
  | inr other ↦ extend_first-ne-nil c (split_dots s) (rw (other, split_dots) at e)
]

dotted-join_dots : (segs : List String) → segs ≢ [] → dotted segs ≡ String.◌++◌ "." (join_dots segs)
unfolding join_dots
dotted-join_dots [] n = absurd (n refl)
dotted-join_dots (s ∷ segs) n = refl

dot_text : (c : Char) → nat_eq (code c) b'.' ≡ true → String.◌∷◌ c "" ≡ "."
dot_text c h = ap (λ x. String.◌∷◌ x "") (Char-path c _ ((nat_eq_iff (code c) b'.').0 h))

pub split_dots-join : (path : String) → join_dots (split_dots path) ≡ path
unfolding split_dots join_dots
split_dots-join String.[] = refl
split_dots-join (String.◌∷◌ c s) = elim (Bool-cases (nat_eq (code c) b'.')) [
  | inl dot ↦ rw dot (
      simp (
        nil-append,
        dotted-join_dots (split_dots s) (split_dots-ne-nil s),
        split_dots-join s,
        ← dot_text c dot,
        cons-append,
      ))
  | inr other ↦
      rw other (extend_first-join c s (split_dots s) (split_dots-ne-nil s) (split_dots-join s))
]

abbrev pub NoDot : String → Type 0
NoDot String.[] = Unit
NoDot (String.◌∷◌ c s) = (nat_eq (code c) b'.' ≡ false) × NoDot s

extend_first-NoDot :
    (c : Char) (segs : List String)
    → nat_eq (code c) b'.' ≡ false
    → All NoDot segs
    → All NoDot (extend_first c segs)
extend_first-NoDot c [] p h = ((p, tt), tt)
extend_first-NoDot c (s ∷ segs) p h = ((p, h.0), h.1)

pub split_dots-NoDot : (path : String) → All NoDot (split_dots path)
unfolding split_dots
split_dots-NoDot String.[] = (tt, tt)
split_dots-NoDot (String.◌∷◌ c s) = elim (Bool-cases (nat_eq (code c) b'.')) [
  | inl dot ↦ rw dot (tt, split_dots-NoDot s)
  | inr other ↦ rw other (extend_first-NoDot c (split_dots s) other (split_dots-NoDot s))
]

-- The segments of a path hold no dot, and joined by dots they spell the path.
pub split_dots-join_dots :
    (path : String) → (join_dots (split_dots path) ≡ path) × All NoDot (split_dots path)
split_dots-join_dots path = (split_dots-join path, split_dots-NoDot path)
