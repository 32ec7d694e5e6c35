-- ===== src/Query/Walks.antt =====
-- What `collectEqualities` of query.go hands back: the flag, and a text for each parameter.
use dalgo2http.Prelude.{
  String, ◌≡◌, refl, sym, ap, subst, ◌⊎◌, inl, inr, Bool, true, false, not, ◌||◌, List, [], ◌∷◌,
  ◌++◌, some, arith, All, All-append, Bool-cases, Dict, lookup, has_key,
}
use dalgo2http.Errors.{Result, ok, >>=-eq-ok, ok_inj}
use dalgo2http.Runtime.{Go}
use dalgo2http.Descriptor.{Collection}
use dalgo2http.Dal.{
  Operator, and, equal, Expression, field_ref, constant, Condition, Conditions, absent, group,
  comparison, none_left, both,
}
use dalgo2http.Query.{
  Collected, stringify_param, push_equality, collect_comparison, collect_equalities, collect_group,
}
use dalgo2http.Query.Pushdown.{leaves, leaves_of, IsPushed, Extends, push_equality-Extends}

-- the condition is an equality of a declared parameter with a constant
abbrev pub is_pushable : Collection → Condition → Bool
is_pushable coll (comparison (field_ref name) equal (constant v)) = has_key name coll.params
is_pushable coll _ = false

-- Some condition of the list cannot go into the URL.
abbrev pub has_residual : Collection → List Condition → Bool
has_residual coll [] = false
has_residual coll (c ∷ cs) = not (is_pushable coll c) || has_residual coll cs

-- The equalities hold the text of the constant, if the condition can go into the URL.
abbrev pub IsHeld : Go → Collection → Dict String → Condition → Type 0
IsHeld g coll eqs (comparison (field_ref name) equal (constant v)) =
    has_key name coll.params ≡ true
    → (text : String) × (stringify_param g v ≡ ok text) × (lookup name eqs ≡ some text)
IsHeld g coll eqs _ = Unit

has_residual-append :
    (coll : Collection) (cs ds : List Condition)
    → has_residual coll (cs ++ ds) ≡ (has_residual coll cs || has_residual coll ds)
has_residual-append coll [] ds = refl
has_residual-append coll (c ∷ cs) ds = ground (arith, has_residual-append coll cs ds)

IsHeld-Extends :
    (g : Go) (coll : Collection) (eqs eqs' : Dict String) (c : Condition)
    → Extends eqs eqs'
    → IsHeld g coll eqs c
    → IsHeld g coll eqs' c
IsHeld-Extends g coll eqs eqs' (comparison (field_ref name) equal (constant v)) x h =
    λ declared. let (text, shown, found) = h declared in (text, shown, x name text found)
IsHeld-Extends g coll eqs eqs' c x h = tt

All-IsHeld-Extends :
    (g : Go) (coll : Collection) (eqs eqs' : Dict String) (cs : List Condition)
    → Extends eqs eqs'
    → All (IsHeld g coll eqs) cs
    → All (IsHeld g coll eqs') cs
All-IsHeld-Extends g coll eqs eqs' [] x h = tt
All-IsHeld-Extends g coll eqs eqs' (c ∷ cs) x (p, h) =
    (IsHeld-Extends g coll eqs eqs' c x p, All-IsHeld-Extends g coll eqs eqs' cs x h)

-- What a walk over a condition hands back, given some equalities.
abbrev pub Walk : Go → Collection → Dict String → Dict String → Bool → List Condition → Type 0
Walk g coll eqs eqs' b cs =
    Extends eqs eqs' × (b ≡ has_residual coll cs) × All (IsHeld g coll eqs') cs

unpushed :
    (g : Go) (coll : Collection) (eqs eqs' : Dict String) (b r : Bool) (cs : List Condition)
    → ◌≡◌ {A = Result Collected} (ok (r, eqs)) (ok (b, eqs'))
    → r ≡ has_residual coll cs
    → All (IsHeld g coll eqs) cs
    → Walk g coll eqs eqs' b cs
unpushed g coll eqs eqs' b r cs e flag held =
    subst (λ (x : Collected). Walk g coll eqs x.1 x.0 cs) (ok_inj (r, eqs) (b, eqs') e)
      (λ k s h. h, flag, held)

push_equality-flag :
    (name text : String) (eqs eqs' : Dict String) (b : Bool)
    → push_equality name text eqs ≡ ok (b, eqs')
    → false ≡ b
unfolding push_equality
push_equality-flag name text eqs eqs' b e = ground arith

collect_comparison-Walk :
    (g : Go) (coll : Collection) (left : Expression) (op : Operator) (right : Expression)
    (eqs eqs' : Dict String) (b : Bool)
    → collect_comparison g coll left op right eqs ≡ ok (b, eqs')
    → Walk g coll eqs eqs' b (comparison left op right ∷ [])
unfolding collect_comparison push_equality
collect_comparison-Walk g coll (field_ref name) equal (constant v) eqs eqs' b e =
    elim (Bool-cases (has_key name coll.params)) [
      | inr no_param ↦
          unpushed g coll eqs eqs' b true (comparison (field_ref name) equal (constant v) ∷ [])
            (rw no_param at e) (rw no_param refl)
            ((λ declared. absurd (cc (no_param, declared))), tt)
      | inl declared ↦
          let (text, shown, pushed) =
            >>=-eq-ok (stringify_param g v) (λ t. push_equality name t eqs) (rw declared at e) in
          let (extends, found) = push_equality-Extends name text eqs eqs' b pushed in
          (
            extends,
            rw declared (sym (push_equality-flag name text eqs eqs' b pushed)),
            ((λ h. (text, shown, found)), tt),
          )
    ]
collect_comparison-Walk g coll left op right eqs eqs' b e =
    unpushed g coll eqs eqs' b true (comparison left op right ∷ []) e refl (tt, tt)

Walk-append :
    (g : Go) (coll : Collection) (eqs eqs₁ eqs' : Dict String) (r b : Bool) (cs ds : List Condition)
    → Walk g coll eqs eqs₁ r cs
    → Walk g coll eqs₁ eqs' b ds
    → Walk g coll eqs eqs' (r || b) (cs ++ ds)
Walk-append g coll eqs eqs₁ eqs' r b cs ds (x, f, h) (y, k, q) = (
  λ name s found. y name s (x name s found),
  ground (arith, f, k, has_residual-append coll cs ds),
  All-append (IsHeld g coll eqs') cs ds (All-IsHeld-Extends g coll eqs₁ eqs' cs y h) q,
)

mutual
  unfolding collect_equalities leaves

  pub equalities-Walk :
      (g : Go) (coll : Collection) (c : Condition) (eqs eqs' : Dict String) (b : Bool)
      → collect_equalities g coll c eqs ≡ ok (b, eqs')
      → Walk g coll eqs eqs' b (leaves c)
  equalities-Walk g coll absent eqs eqs' b e = unpushed g coll eqs eqs' b false [] e refl tt
  equalities-Walk g coll (group and cs) eqs eqs' b e =
      let (r, flag, walked) = group-Walk g coll cs false eqs eqs' b e in
      subst (λ x. Walk g coll eqs eqs' x (leaves_of cs)) (sym flag) walked
  equalities-Walk g coll (comparison left op right) eqs eqs' b e =
      collect_comparison-Walk g coll left op right eqs eqs' b e
  equalities-Walk g coll c eqs eqs' b e = unpushed g coll eqs eqs' b true (c ∷ []) e refl (tt, tt)

  -- the flag is the one before, or that of the group's conditions
  group-Walk :
      (g : Go) (coll : Collection) (cs : Conditions) (residual : Bool) (eqs eqs' : Dict String)
      (b : Bool)
      → collect_group g coll cs residual eqs ≡ ok (b, eqs')
      → (r : Bool) × (b ≡ (residual || r)) × Walk g coll eqs eqs' r (leaves_of cs)
  group-Walk g coll none_left residual eqs eqs' b e = (
    false,
    ground arith,
    unpushed g coll eqs eqs' false false []
        (ap (λ (x : Collected). ok (false, x.1)) (ok_inj (residual, eqs) (b, eqs') e)) refl tt,
  )
  group-Walk g coll (both c cs) residual eqs eqs' b e =
      let ((r, eqs₁), here, later) = >>=-eq-ok (collect_equalities g coll c eqs) _ e in
      let (s, flag, walked) = group-Walk g coll cs (residual || r) eqs₁ eqs' b later in
      (
        r || s,
        ground (arith, flag),
        Walk-append g coll eqs eqs₁ eqs' r s (leaves c) (leaves_of cs)
            (equalities-Walk g coll c eqs eqs₁ r here) walked,
      )

pushable-IsPushed :
    (g : Go) (coll : Collection) (eqs : Dict String) (c : Condition)
    → is_pushable coll c ≡ true
    → IsHeld g coll eqs c
    → IsPushed g coll eqs c
pushable-IsPushed g coll eqs (comparison (field_ref name) equal (constant v)) h held =
    let (text, shown, found) = held h in (text, h, shown, found)
pushable-IsPushed g coll eqs c h held = cc

All-IsPushed :
    (g : Go) (coll : Collection) (eqs : Dict String) (cs : List Condition)
    → has_residual coll cs ≡ false
    → All (IsHeld g coll eqs) cs
    → All (IsPushed g coll eqs) cs
All-IsPushed g coll eqs [] h held = tt
All-IsPushed g coll eqs (c ∷ cs) h (here, held) = (
  pushable-IsPushed g coll eqs c (ground (arith, h)) here,
  All-IsPushed g coll eqs cs (ground (arith, h)) held,
)

-- When `collectEqualities` succeeds, it keeps the equalities that it was given, and it reports a
-- residual, or every condition that the AND tree joins is an equality of a declared parameter
-- with a constant, for which the equalities hold the constant's text.
pub collect_equalities-IsPushed :
    (g : Go) (coll : Collection) (c : Condition) (eqs eqs' : Dict String) (residual : Bool)
    → collect_equalities g coll c eqs ≡ ok (residual, eqs')
    → Extends eqs eqs' × ((residual ≡ true) ⊎ All (IsPushed g coll eqs') (leaves c))
collect_equalities-IsPushed g coll c eqs eqs' true e =
    ((equalities-Walk g coll c eqs eqs' true e).0, inl refl)
collect_equalities-IsPushed g coll c eqs eqs' false e =
    let (kept, flag, held) = equalities-Walk g coll c eqs eqs' false e in
    (kept, inr (All-IsPushed g coll eqs' (leaves c) (sym flag) held))
