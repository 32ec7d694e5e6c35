-- ===== src/Query/Pushdown.antt =====
-- What `collectEqualities` pushes into the URL.
use dalgo2http.Prelude.{
  String, ◌≡◌, sym, ap, ◌⊎◌, inl, inr, Bool, true, false, List, [], ◌∷◌, ◌++◌, some, ◌==◌, eq_iff,
  eq_refl, arith, Bool-cases, if◌then◌else◌, Dict, lookup, insert, has_key, lookup-insert,
}
use dalgo2http.Errors.{ok}
use dalgo2http.Runtime.{Go}
use dalgo2http.Descriptor.{Collection}
use dalgo2http.Dal.{
  and, equal, field_ref, constant, Condition, Conditions, absent, group, comparison, none_left,
  both,
}
use dalgo2http.Query.{stringify_param, conflicts, push_equality}

-- The conditions that an AND tree joins; a nil condition asks for nothing.
unfoldable mutual
  pub leaves : Condition → List Condition
  leaves absent = []
  leaves (group and cs) = leaves_of cs
  leaves c = c ∷ []

  pub leaves_of : Conditions → List Condition
  leaves_of none_left = []
  leaves_of (both c cs) = leaves c ++ leaves_of cs

-- The condition is an equality of a declared parameter with a constant, and the equalities hold
-- the constant's text for it.
abbrev pub IsPushed : Go → Collection → Dict String → Condition → Type 0
IsPushed g coll eqs (comparison (field_ref n) equal (constant v)) =
    (s : String) × (has_key n coll.params ≡ true)
    × (stringify_param g v ≡ ok s)
    × (lookup n eqs ≡ some s)
IsPushed g coll eqs _ = ⊥

abbrev pub Extends : Dict String → Dict String → Type 0
Extends eqs eqs' = (k s : String) → lookup k eqs ≡ some s → lookup k eqs' ≡ some s

not-conflicts : (s v : String) → conflicts (some s) v ≡ false → s ≡ v
unfolding conflicts
not-conflicts s v f = ground (arith, eq_iff s v)

pub push_equality-Extends :
    (name v : String) (eqs eqs' : Dict String) (b : Bool)
    → push_equality name v eqs ≡ ok (b, eqs')
    → Extends eqs eqs' × (lookup name eqs' ≡ some v)
unfolding push_equality
push_equality-Extends name v eqs eqs' b e =
    let (fresh, shape) = kept (Bool-cases (conflicts (lookup name eqs) v)) in
    (
      λ k s h. rw (← shape, lookup-insert) (extended k s h fresh),
      rw (← shape, lookup-insert, eq_refl),
    )
  where
    kept :
        (conflicts (lookup name eqs) v ≡ true) ⊎ (conflicts (lookup name eqs) v ≡ false)
        → (conflicts (lookup name eqs) v ≡ false) × (insert name v eqs ≡ eqs')
    kept (inl p) = absurd (cc (rw p at e))
    kept (inr p) = (p, ground arith)

    extended :
        (k s : String)
        → lookup k eqs ≡ some s
        → conflicts (lookup name eqs) v ≡ false
        → (if name == k then some v else lookup k eqs) ≡ some s
    extended k s h f = elim (Bool-cases (name == k)) [
      | inl p ↦
          let q : name ≡ k = (eq_iff name k).0 p in
          rw p (ap some (sym (not-conflicts s v (rw (q, h) at f))))
      | inr p ↦ rw p h
    ]
