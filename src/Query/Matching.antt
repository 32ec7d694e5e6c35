-- ===== src/Query/Matching.antt =====
-- What the equalities that query.go pushes into the URL select, at an endpoint whose parameters mean
-- equality.
use dalgo2http.Prelude.{
  String, ◌≡◌, refl, sym, ◌∙◌, ap, subst, Bool, true, false, ◌&&◌, ◌||◌, List, [], ◌∷◌, some, arith,
  All, All-split, All-insert, Bool-cases, inl, inr, ◌==◌, eq_iff, Dict, lookup, insert, has_key,
}
use dalgo2http.Errors.{Result, ok, >>=-eq-ok, ok_inj}
use dalgo2http.Value.{Row}
use dalgo2http.Runtime.{Go}
use dalgo2http.Descriptor.{Collection}
use dalgo2http.Dal.{
  Operator, and, equal, Expression, field_ref, constant, Condition, Conditions, absent, group,
  comparison, none_left, both,
}
use dalgo2http.Filter.{eval_condition}
use dalgo2http.Filter.Rows.{passes}
use dalgo2http.Query.{
  Collected, stringify_param, conflicts, push_equality, collect_comparison, collect_equalities,
  collect_group,
}
use dalgo2http.Query.Pushdown.{leaves, leaves_of, IsPushed}
use dalgo2http.Query.Selection.{holds_all, selects}

-- An endpoint's rows for parameters: those that agree with each of them.
abbrev pub matches : (String → String → Row → Bool) → Dict String → Row → Bool
matches agrees [] row = true
matches agrees ((name, text) ∷ eqs) row = agrees name text row && matches agrees eqs row

-- A row agrees with the text of a constant exactly when the equality with the constant is true on it.
abbrev pub AgreesOn : Go → Collection → (String → String → Row → Bool) → Row → Condition → Type 0
AgreesOn g coll agrees row (comparison (field_ref name) equal (constant v)) =
    (text : String)
    → has_key name coll.params ≡ true
    → stringify_param g v ≡ ok text
    → agrees name text row
      ≡ passes (eval_condition g row (comparison (field_ref name) equal (constant v)))
AgreesOn g coll agrees row _ = Unit

-- what an entry of the equalities has to satisfy, for a condition that is pushed
abbrev Sound : Go → Collection → (String × String → Type 0) → Condition → Type 0
Sound g coll P (comparison (field_ref name) equal (constant v)) =
    (text : String)
    → has_key name coll.params ≡ true
    → stringify_param g v ≡ ok text
    → P (name, text)
Sound g coll P _ = Unit

unchanged :
    (P : String × String → Type 0) (eqs eqs' : Dict String) (r b : Bool)
    → All P eqs
    → ◌≡◌ {A = Result Collected} (ok (r, eqs)) (ok (b, eqs'))
    → All P eqs'
unchanged P eqs eqs' r b h e = subst (All P) (ap (λ (x : Collected). x.1) (ok_inj _ _ e)) h

collect_comparison-All :
    (g : Go) (coll : Collection) (P : String × String → Type 0) (left : Expression) (op : Operator)
    (right : Expression) (eqs eqs' : Dict String) (b : Bool)
    → Sound g coll P (comparison left op right)
    → All P eqs
    → collect_comparison g coll left op right eqs ≡ ok (b, eqs')
    → All P eqs'
unfolding collect_comparison push_equality
collect_comparison-All g coll P (field_ref name) equal (constant v) eqs eqs' b sound h e =
    elim (Bool-cases (has_key name coll.params)) [
      | inr no_param ↦ unchanged P eqs eqs' true b h (rw no_param at e)
      | inl declared ↦
          let (text, shown, pushed) =
            >>=-eq-ok (stringify_param g v) (λ t. push_equality name t eqs) (rw declared at e) in
          elim (Bool-cases (conflicts (lookup name eqs) text)) [
            | inl clash ↦ absurd (cc (rw clash at pushed))
            | inr fresh ↦
                unchanged P (insert name text eqs) eqs' false b
                  (All-insert P name text eqs (sound text declared shown) h) (rw fresh at pushed)
          ]
    ]
collect_comparison-All g coll P left op right eqs eqs' b sound h e = unchanged P eqs eqs' true b h e

mutual
  unfolding collect_equalities leaves

  equalities-All :
      (g : Go) (coll : Collection) (P : String × String → Type 0) (c : Condition)
      (eqs eqs' : Dict String) (b : Bool)
      → All (Sound g coll P) (leaves c)
      → All P eqs
      → collect_equalities g coll c eqs ≡ ok (b, eqs')
      → All P eqs'
  equalities-All g coll P absent eqs eqs' b sound h e = unchanged P eqs eqs' false b h e
  equalities-All g coll P (group and cs) eqs eqs' b sound h e =
      group-All g coll P cs false eqs eqs' b sound h e
  equalities-All g coll P (comparison left op right) eqs eqs' b sound h e =
      collect_comparison-All g coll P left op right eqs eqs' b sound.0 h e
  equalities-All g coll P c eqs eqs' b sound h e = unchanged P eqs eqs' true b h e

  group-All :
      (g : Go) (coll : Collection) (P : String × String → Type 0) (cs : Conditions)
      (residual : Bool) (eqs eqs' : Dict String) (b : Bool)
      → All (Sound g coll P) (leaves_of cs)
      → All P eqs
      → collect_group g coll cs residual eqs ≡ ok (b, eqs')
      → All P eqs'
  group-All g coll P none_left residual eqs eqs' b sound h e = unchanged P eqs eqs' residual b h e
  group-All g coll P (both c cs) residual eqs eqs' b sound h e =
      let ((r, eqs₁), here, later) = >>=-eq-ok (collect_equalities g coll c eqs) _ e in
      let (first, others) = All-split (Sound g coll P) (leaves c) (leaves_of cs) sound in
      group-All g coll P cs (residual || r) eqs₁ eqs' b others
        (equalities-All g coll P c eqs eqs₁ r first h here) later

module _ (g : Go) (coll : Collection) (agrees : String → String → Row → Bool) (row : Row) where
  abbrev IsAgreed : String × String → Type 0
  IsAgreed (name, text) = agrees name text row ≡ true

  matches-All : (eqs : Dict String) → All IsAgreed eqs → matches agrees eqs row ≡ true
  matches-All [] h = refl
  matches-All ((name, text) ∷ eqs) (p, h) = ground (arith, p, matches-All eqs h)

  matches-lookup :
      (eqs : Dict String) (name text : String)
      → lookup name eqs ≡ some text
      → matches agrees eqs row ≡ true
      → agrees name text row ≡ true
  unfolding lookup
  matches-lookup [] name text found h = cc
  matches-lookup ((k, s) ∷ eqs) name text found h = elim (Bool-cases (k == name)) [
    | inl same ↦
        let first : s ≡ text = ground (arith, found, same) in
        subst (λ (x : String). agrees x text row ≡ true) ((eq_iff k name).0 same)
          (subst (λ (x : String). agrees k x row ≡ true) first (ground (arith, h)))
    | inr other ↦ matches-lookup eqs name text (rw other at found) (ground (arith, h))
  ]

  leaf-Sound :
      (c : Condition)
      → AgreesOn g coll agrees row c
      → passes (eval_condition g row c) ≡ true
      → Sound g coll IsAgreed c
  leaf-Sound (comparison (field_ref name) equal (constant v)) law h =
      λ text declared shown. law text declared shown ∙ h
  leaf-Sound c law h = tt

  leaves-Sound :
      (cs : List Condition)
      → All (AgreesOn g coll agrees row) cs
      → holds_all g row cs ≡ true
      → All (Sound g coll IsAgreed) cs
  leaves-Sound [] laws h = tt
  leaves-Sound (c ∷ cs) (law, laws) h =
      (leaf-Sound c law (ground (arith, h)), leaves-Sound cs laws (ground (arith, h)))

  leaf-holds :
      (eqs : Dict String) (c : Condition)
      → AgreesOn g coll agrees row c
      → IsPushed g coll eqs c
      → matches agrees eqs row ≡ true
      → passes (eval_condition g row c) ≡ true
  leaf-holds eqs (comparison (field_ref name) equal (constant v)) law (s, declared, shown, found)
        h =
      sym (law s declared shown) ∙ matches-lookup eqs name s found h
  leaf-holds eqs c law pushed h = elim pushed [ ]

  leaves-holds :
      (eqs : Dict String) (cs : List Condition)
      → All (AgreesOn g coll agrees row) cs
      → All (IsPushed g coll eqs) cs
      → matches agrees eqs row ≡ true
      → holds_all g row cs ≡ true
  leaves-holds eqs [] laws pushed h = refl
  leaves-holds eqs (c ∷ cs) (law, laws) (here, pushed) h =
      ground (arith, leaf-holds eqs c law here h, leaves-holds eqs cs laws pushed h)

  -- Where the endpoint's parameters mean what the conditions ask for, a selected row matches the
  -- equalities that were collected,
  pub selects-matches :
      (cond : Condition) (eqs : Dict String) (b : Bool)
      → All (AgreesOn g coll agrees row) (leaves cond)
      → collect_equalities g coll cond [] ≡ ok (b, eqs)
      → selects g cond row ≡ true
      → matches agrees eqs row ≡ true
  selects-matches cond eqs b laws e h =
      matches-All eqs
        (equalities-All g coll IsAgreed cond [] eqs b (leaves-Sound (leaves cond) laws h) tt e)

  -- and a row that matches them is selected if every condition was pushed.
  pub matches-selects :
      (cond : Condition) (eqs : Dict String)
      → All (AgreesOn g coll agrees row) (leaves cond)
      → All (IsPushed g coll eqs) (leaves cond)
      → matches agrees eqs row ≡ true
      → selects g cond row ≡ true
  matches-selects cond eqs laws pushed h = leaves-holds eqs (leaves cond) laws pushed h
