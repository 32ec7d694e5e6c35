-- ===== src/Snapshot/Order.antt =====
-- The order of texts that `sort.Strings` goes by.
use Prim.Native.Nat.{Ordering, compare as compare_ℕ}
use Prim.Native.Char.{Char, code}
use Prim.Native.String.compare
use Prim.Native.String.{String, compare, then}
use text.Mathlib.Text.{is_eq, is_le}
use text.Mathlib.TextEquality.{eq_iff}
use dalgo2http.Prelude.{◌≡◌, refl, ap, ◌∙◌, true, false, Bool, ◌&&◌, ◌||◌, ltb, nat_eq, arith, ◌==◌}

abbrev pub le : String → String → Bool
le s t = is_le (compare s t)

le-then :
    (a b : Ordering)
    → is_le (then a b) ≡ (
        elim a [ Ordering.lt ↦ true | _ ↦ false ]
        || (elim a [ Ordering.eq ↦ true | _ ↦ false ] && is_le b))
le-then Ordering.lt b = refl
le-then Ordering.eq b = refl
le-then Ordering.gt b = refl

le-cons :
    (c d : Char) (s t : String)
    → le (String.◌∷◌ c s) (String.◌∷◌ d t)
      ≡ (ltb (code c) (code d) || (nat_eq (code c) (code d) && le s t))
le-cons c d s t =
    ap is_le (compare.cons-cons c d s t) ∙ le-then (compare_ℕ (code c) (code d)) (compare s t)

eq-then : (a b : Ordering) → is_eq (then a b) ≡ (is_eq a && is_eq b)
eq-then Ordering.lt b = refl
eq-then Ordering.eq b = refl
eq-then Ordering.gt b = refl

eq-cons :
    (c d : Char) (s t : String)
    → (String.◌∷◌ c s == String.◌∷◌ d t) ≡ (nat_eq (code c) (code d) && (s == t))
eq-cons c d s t =
    ap is_eq (compare.cons-cons c d s t) ∙ eq-then (compare_ℕ (code c) (code d)) (compare s t)

-- the empty text comes first
le-nil : (s : String) → le String.[] s ≡ true
le-nil String.[] = refl
le-nil (String.◌∷◌ c s) = ap is_le (compare.nil-cons c s)

le-cons_nil : (c : Char) (s : String) → le (String.◌∷◌ c s) String.[] ≡ false
le-cons_nil c s = ap is_le (compare.cons-nil c s)

pub le_total : (s t : String) → le s t ≡ false → le t s ≡ true
le_total String.[] t h = cc (h, le-nil t)
le_total (String.◌∷◌ c s) String.[] h = le-nil (String.◌∷◌ c s)
le_total (String.◌∷◌ c s) (String.◌∷◌ d t) h =
    ground (arith, le_total s t, le-cons c d s t, le-cons d c t s)

-- texts that come before each other are equal
le_equal : (s t : String) → le s t ≡ true → le t s ≡ true → (s == t) ≡ true
le_equal String.[] String.[] h k = refl
le_equal String.[] (String.◌∷◌ d t) h k = cc (k, le-cons_nil d t)
le_equal (String.◌∷◌ c s) String.[] h k = cc (h, le-cons_nil c s)
le_equal (String.◌∷◌ c s) (String.◌∷◌ d t) h k =
    ground (arith, le_equal s t, le-cons c d s t, le-cons d c t s, eq-cons c d s t)

pub le_antisym : (s t : String) → le s t ≡ true → le t s ≡ true → s ≡ t
le_antisym s t h k = (eq_iff s t).0 (le_equal s t h k)

pub le_trans : (s t u : String) → le s t ≡ true → le t u ≡ true → le s u ≡ true
le_trans String.[] t u h k = le-nil u
le_trans (String.◌∷◌ c s) String.[] u h k = cc (h, le-cons_nil c s)
le_trans (String.◌∷◌ c s) (String.◌∷◌ d t) String.[] h k = cc (k, le-cons_nil d t)
le_trans (String.◌∷◌ c s) (String.◌∷◌ d t) (String.◌∷◌ e u) h k =
    ground (arith, le_trans s t u, le-cons c d s t, le-cons d e t u, le-cons c e s u)
