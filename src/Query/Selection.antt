-- ===== src/Query/Selection.antt =====
-- The meaning of a condition of query.go's queries as a selection of rows, beside its evaluation by
-- filter.go.
use dalgo2http.Prelude.{
  ◌≡◌, refl, ◌∙◌, ap, Bool, true, false, ◌&&◌, List, [], ◌∷◌, ◌++◌, arith, if◌then◌else◌,
}
use dalgo2http.Errors.{Result, ok, err, panic, >>=-eq-ok}
use dalgo2http.Value.{Row}
use dalgo2http.Runtime.{Go}
use dalgo2http.Dal.{and, Condition, Conditions, absent, group, none_left, both}
use dalgo2http.Filter.{eval_condition, eval_all}
use dalgo2http.Filter.Rows.{passes}
use dalgo2http.Query.Pushdown.{leaves, leaves_of}

-- is every condition of a list true on the row?
abbrev pub holds_all : Go → Row → List Condition → Bool
holds_all g row [] = true
holds_all g row (c ∷ cs) = passes (eval_condition g row c) && holds_all g row cs

-- A row is selected if every condition that the AND tree joins is true on it; a nil condition asks for
-- nothing.
abbrev pub selects : Go → Condition → Row → Bool
selects g cond row = holds_all g row (leaves cond)

holds_all-append :
    (g : Go) (row : Row) (cs ds : List Condition)
    → holds_all g row (cs ++ ds) ≡ (holds_all g row cs && holds_all g row ds)
holds_all-append g row [] ds = refl
holds_all-append g row (c ∷ cs) ds = ground (arith, holds_all-append g row cs ds)

leaf : (r : Result Bool) (b : Bool) → r ≡ ok b → (passes r && true) ≡ b
leaf (ok true) b e = ground arith
leaf (ok false) b e = ground arith
leaf (err x) b e = cc
leaf panic b e = cc

and_then :
    (holds : Bool) (r : Result Bool) (x b : Bool)
    → (if holds then r else ok false) ≡ ok b
    → (r ≡ ok b → x ≡ b)
    → (holds && x) ≡ b
and_then true r x b e h = h e
and_then false r x b e h = ground arith

mutual
  unfolding eval_condition leaves

  -- a condition that is evaluated is true exactly when the row is selected
  pub selects-eval_condition :
      (g : Go) (row : Row) (c : Condition) (b : Bool)
      → eval_condition g row c ≡ ok b
      → selects g c row ≡ b
  selects-eval_condition g row absent b e = cc
  selects-eval_condition g row (group and cs) b e = selects-eval_all g row cs b e
  selects-eval_condition g row c b e = leaf (eval_condition g row c) b e

  selects-eval_all :
      (g : Go) (row : Row) (cs : Conditions) (b : Bool)
      → eval_all g row cs ≡ ok b
      → holds_all g row (leaves_of cs) ≡ b
  selects-eval_all g row none_left b e = ground arith
  selects-eval_all g row (both c cs) b e =
      let (holds, here, later) = >>=-eq-ok (eval_condition g row c) _ e in
      holds_all-append g row (leaves c) (leaves_of cs)
      ∙ ap (λ x. x && holds_all g row (leaves_of cs)) (selects-eval_condition g row c holds here)
      ∙ and_then holds (eval_all g row cs) (holds_all g row (leaves_of cs)) b later
          (selects-eval_all g row cs b)
