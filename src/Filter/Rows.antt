-- ===== src/Filter/Rows.antt =====
-- What `filterRows` keeps of a list of rows, and how it fails.
use dalgo2http.Prelude.{
  ◌≡◌, refl, ◌⊎◌, inl, inr, Bool, true, false, List, [], ◌∷◌, arith, keep, All, ap, ◌∙◌, Bool-cases,
  if◌then◌else◌,
}
use dalgo2http.Errors.{
  Raises-bind, Raises-Returns, Returns, IsUnsupported, Error, error_is, not_supported, Result,
  IsUnsupported, ok, err, panic, ◌>>=◌,
}
use dalgo2http.Value.{Row}
use dalgo2http.Runtime.{Go}
use dalgo2http.Dal.{Condition}
use dalgo2http.Filter.{eval_condition, is_absent, filter_loop, filter_rows}
use dalgo2http.Filter.Meaning.{eval_condition-IsAnswer}

-- the truth of an evaluated condition
abbrev pub passes : Result Bool → Bool
passes (ok b) = b
passes _ = false

abbrev pub IsOk : Result Bool → Type 0
IsOk r = (r ≡ ok true) ⊎ (r ≡ ok false)

filter_step :
    (r : Result Bool) (m : Result (List Row)) (row : Row) (out : List Row)
    → (r >>= λ holds. m >>= λ rest. if holds then ok (row ∷ rest) else ok rest) ≡ ok out
    → (rest : List Row) × IsOk r × (m ≡ ok rest) × (out ≡ (if passes r then row ∷ rest else rest))
filter_step (ok true) (ok rest) row out e = (rest, inl refl, refl, ground arith)
filter_step (ok false) (ok rest) row out e = (rest, inr refl, refl, ground arith)
filter_step (ok b) (err x) row out e = cc
filter_step (ok b) panic row out e = cc
filter_step (err x) m row out e = cc
filter_step panic m row out e = cc

filter_loop-keep :
    (g : Go) (cond : Condition) (rows out : List Row)
    → filter_loop g cond rows ≡ ok out
    → All (λ row. IsOk (eval_condition g row cond)) rows
      × (out ≡ keep (λ row. passes (eval_condition g row cond)) rows)
unfolding filter_loop
filter_loop-keep g cond [] out e = (tt, ground arith)
filter_loop-keep g cond (row ∷ rows) out e =
    let (rest, decided, later, shape) =
      filter_step (eval_condition g row cond) (filter_loop g cond rows) row out e in
    let (all, same) = filter_loop-keep g cond rows rest later in
    (
      (decided, all),
      shape ∙ ap (λ r. if passes (eval_condition g row cond) then row ∷ r else r) same,
    )

-- A filter by a condition that returns rows has evaluated the condition on every row without an
-- error, and returns exactly the rows on which it is true, in their order.
pub filter_rows-keep :
    (g : Go) (cond : Condition) (rows out : List Row)
    → is_absent cond ≡ false
    → filter_rows g rows cond ≡ ok out
    → All (λ row. IsOk (eval_condition g row cond)) rows
      × (out ≡ keep (λ row. passes (eval_condition g row cond)) rows)
unfolding filter_rows
filter_rows-keep g cond rows out p e = filter_loop-keep g cond rows out (rw p at e)

-- some row fails with the error, and every row before it is decided
abbrev pub FirstFailure : (Row → Result Bool) → List Row → Error → Type 0
FirstFailure eval [] e = ⊥
FirstFailure eval (row ∷ rows) e = (eval row ≡ err e) ⊎ (IsOk (eval row) × FirstFailure eval rows e)

filter_loop-FirstFailure :
    (g : Go) (cond : Condition) (rows : List Row) (e : Error)
    → filter_loop g cond rows ≡ err e
    → FirstFailure (λ row. eval_condition g row cond) rows e
unfolding filter_loop
filter_loop-FirstFailure g cond [] e h = cc
filter_loop-FirstFailure g cond (row ∷ rows) e h =
    go (eval_condition g row cond) (filter_loop g cond rows) refl h
      (filter_loop-FirstFailure g cond rows e)
  where
    go :
        (r : Result Bool) (m : Result (List Row))
        → eval_condition g row cond ≡ r
        → (r >>= λ holds. m >>= λ rest. if holds then ok (row ∷ rest) else ok rest) ≡ err e
        → (m ≡ err e → FirstFailure (λ row'. eval_condition g row' cond) rows e)
        → FirstFailure (λ row'. eval_condition g row' cond) (row ∷ rows) e
    go (ok true) (ok rest) same h' ih = cc
    go (ok false) (ok rest) same h' ih = cc
    go (ok true) (err x) same h' ih = inr (inl same, ih h')
    go (ok false) (err x) same h' ih = inr (inr same, ih h')
    go (ok b) panic same h' ih = cc
    go (err x) m same h' ih = let s : x ≡ e = ground arith in inl (same ∙ ap err s)
    go panic m same h' ih = cc

FirstFailure-not_supported :
    (g : Go) (cond : Condition) (rows : List Row) (e : Error)
    → FirstFailure (λ row. eval_condition g row cond) rows e
    → error_is e not_supported ≡ true
FirstFailure-not_supported g cond [] e h = elim h [ ]
FirstFailure-not_supported g cond (row ∷ rows) e (inl p) =
    rw p at (eval_condition-IsAnswer g row cond)
FirstFailure-not_supported g cond (row ∷ rows) e (inr (p, h)) =
    FirstFailure-not_supported g cond rows e h

-- A filter that fails has met a row on which the condition fails with that same error, which wraps
-- `dal.ErrNotSupported`, and has decided the condition on every row before it.
pub filter_rows-FirstFailure :
    (g : Go) (cond : Condition) (rows : List Row) (e : Error)
    → filter_rows g rows cond ≡ err e
    → FirstFailure (λ row. eval_condition g row cond) rows e × (error_is e not_supported ≡ true)
unfolding filter_rows
filter_rows-FirstFailure g cond rows e h =
    let first : FirstFailure (λ row. eval_condition g row cond) rows e =
      elim (Bool-cases (is_absent cond)) [
        | inl p ↦ absurd (cc (rw p at h))
        | inr p ↦ filter_loop-FirstFailure g cond rows e (rw p at h)
      ] in
    (first, FirstFailure-not_supported g cond rows e first)

filter_loop-Returns :
    (g : Go) (cond : Condition) (rows : List Row) → Returns (filter_loop g cond rows)
unfolding filter_loop
filter_loop-Returns g cond [] = tt
filter_loop-Returns g cond (row ∷ rows) =
    Raises-bind _ (eval_condition g row cond) _
      (Raises-Returns IsUnsupported _ (eval_condition-IsAnswer g row cond))
      λ holds.
        Raises-bind _ (filter_loop g cond rows) _ (filter_loop-Returns g cond rows)
          (λ rest. ground arith)

-- a filter never panics
pub filter_rows-Returns :
    (g : Go) (rows : List Row) (cond : Condition) → Returns (filter_rows g rows cond)
unfolding filter_rows
filter_rows-Returns g rows cond = elim (Bool-cases (is_absent cond)) [
  | inl p ↦ rw p tt
  | inr p ↦ rw p (filter_loop-Returns g cond rows)
]

filter_loop-decided :
    (g : Go) (cond : Condition) (rows : List Row)
    → All (λ row. IsOk (eval_condition g row cond)) rows
    → (out : List Row) × (filter_loop g cond rows ≡ ok out)
unfolding filter_loop
filter_loop-decided g cond [] h = ([], refl)
filter_loop-decided g cond (row ∷ rows) (inl holds, h) =
    let (out, e) = filter_loop-decided g cond rows h in (row ∷ out, rw (holds, e) refl)
filter_loop-decided g cond (row ∷ rows) (inr fails, h) =
    let (out, e) = filter_loop-decided g cond rows h in (out, rw (fails, e) refl)

-- a filter whose condition is evaluated on every row without an error returns rows
pub filter_rows-decided :
    (g : Go) (cond : Condition) (rows : List Row)
    → All (λ row. IsOk (eval_condition g row cond)) rows
    → (out : List Row) × (filter_rows g rows cond ≡ ok out)
unfolding filter_rows
filter_rows-decided g cond rows h = elim (Bool-cases (is_absent cond)) [
  | inl nothing ↦ (rows, rw nothing refl)
  | inr there ↦ let (out, e) = filter_loop-decided g cond rows h in (out, rw (there, e) refl)
]
