-- ===== src/Request/Loops.antt =====
-- The two loops of `buildURL`: over the placeholders, and over the declared query parameters.
use Prim.Native.String
use text.Mathlib.TextLemmas.{append-nil, append_assoc}
use dalgo2http.Prelude.{
  String, ◌≡◌, refl, sym, ap, ◌∙◌, Bool, true, not, ◌&&◌, ◌||◌, List, [], ◌∷◌, Option, none, some,
  ◌==◌, eq_iff, arith, if◌then◌else◌, Dict, lookup, insert, has_key, flag, flag-insert,
  lookup-insert, any, among, All, Option-cases, inl, inr,
}
use dalgo2http.Runtime.{Go}
use dalgo2http.Descriptor.{Param, Collection, Piece, plain, placeholder, placeholders}
use dalgo2http.Request.Build.{
  is_query, escape_for, Rendering, render_placeholder, render, append_query,
}

-- the text of a template, with the escaped value of each parameter in the place of its name
abbrev pub value_text : Go → Option Param → Option String → String
value_text g (some p) (some v) = escape_for g p.location v
value_text g (some p) none = ""
value_text g none _ = ""

pub substituted : Go → Collection → Dict String → List Piece → String
substituted g coll params [] = ""
substituted g coll params (plain t ∷ ps) = String.◌++◌ t (substituted g coll params ps)
substituted g coll params (placeholder n ∷ ps) =
    String.◌++◌ (value_text g (lookup n coll.params) (lookup n params))
      (substituted g coll params ps)

-- does the collection declare a query parameter of this name?
abbrev pub declares_query : Dict Param → String → Bool
declares_query params name = any (λ (n, p). n == name && is_query p.location) params

-- a value that was given replaces what the query of the template's URL has
abbrev pub given : Option String → Option (List String) → Option (List String)
given none base = base
given (some v) base = some (v ∷ [])

given_twice :
    (o : Option String) (base : Option (List String)) → given o (given o base) ≡ given o base
given_twice none base = refl
given_twice (some v) base = refl

-- one step of the loop
abbrev pushed : String → Param → Dict Bool → Dict String → Dict (List String) → Dict (List String)
pushed n p used params q =
    if not (is_query p.location) || flag n used
    then q
    else elim (lookup n params) [ none ↦ q | some v ↦ insert n (v ∷ []) q ]

pushed-lookup :
    (n : String) (p : Param) (used : Dict Bool) (params : Dict String) (q : Dict (List String))
    (name : String)
    → lookup name (pushed n p used params q) ≡ (
        if n == name && is_query p.location && not (flag n used)
        then given (lookup n params) (lookup name q)
        else lookup name q)
pushed-lookup n p used params q name = elim (Option-cases (lookup n params)) [
  | inl missing ↦ rw missing (ground arith)
  | inr (v, there) ↦ rw there (ground (arith, lookup-insert n name (v ∷ []) q))
]

-- The value of each name behind the loop over the declared parameters.
pub append_query-lookup :
    (declared : Dict Param) (used : Dict Bool) (params : Dict String) (q : Dict (List String))
    (name : String)
    → lookup name (append_query declared used params q) ≡ (
        if declares_query declared name && not (flag name used)
        then given (lookup name params) (lookup name q)
        else lookup name q)
unfolding append_query
append_query-lookup [] used params q name = refl
append_query-lookup ((n, p) ∷ rest) used params q name = ground (
  arith,
  append_query-lookup rest used params (pushed n p used params q) name,
  pushed-lookup n p used params q name,
  given_twice (lookup name params) (lookup name q),
  eq_iff n name,
)

-- the parameter is declared, and has a value
abbrev pub IsGiven : Collection → Dict String → String → Type 0
IsGiven coll params n = (has_key n coll.params && has_key n params) ≡ true

-- What rendering has done that leaves no error behind.
pub record IsRendered (g : Go) (coll : Collection) (params : Dict String) (ps : List Piece)
    (r r' : Rendering) : Type 0 where
  pub no_error : r.build_err ≡ none
  pub text : r'.out ≡ String.◌++◌ r.out (substituted g coll params ps)
  pub all_given : All (IsGiven coll params) (placeholders ps)
  pub marks : (k : String) → flag k r'.used ≡ (among k (placeholders ps) || flag k r.used)

-- What becomes of one placeholder, if there is no error behind it.
record IsReplaced (g : Go) (coll : Collection) (params : Dict String) (n : String)
    (r r' : Rendering) : Type 0 where
  no_error : r.build_err ≡ none
  text : r'.out ≡ String.◌++◌ r.out (value_text g (lookup n coll.params) (lookup n params))
  is_given : IsGiven coll params n
  marks : (k : String) → flag k r'.used ≡ (n == k || flag k r.used)

module _ (g : Go) (coll : Collection) (params : Dict String) where
  render_placeholder-IsReplaced :
      (n : String) (r : Rendering)
      → (render_placeholder g coll params n r).build_err ≡ none
      → IsReplaced g coll params n r (render_placeholder g coll params n r)
  unfolding render_placeholder has_key
  render_placeholder-IsReplaced n r h = elim (Option-cases (lookup n coll.params)) [
    | inl undeclared ↦ absurd (cc (rw (undeclared, render_placeholder) at h))
    | inr (p, declared) ↦ elim (Option-cases (lookup n params)) [
      | inl missing ↦ absurd (cc (rw (declared, missing, render_placeholder) at h))
      | inr (v, there) ↦ record {
        no_error = rw (declared, there, render_placeholder) at h;
        text = rw (declared, there, render_placeholder) refl;
        is_given = rw (declared, there) refl;
        marks = λ k. rw (declared, there, render_placeholder) (flag-insert n k r.used);
      }
    ]
  ]

  pub render-IsRendered :
      (ps : List Piece) (r : Rendering)
      → (render g coll params ps r).build_err ≡ none
      → IsRendered g coll params ps r (render g coll params ps r)
  unfolding render substituted placeholders
  render-IsRendered [] r h = record {
    no_error = h;
    text = sym (append-nil r.out);
    all_given = tt;
    marks = λ k. refl;
  }
  render-IsRendered (plain t ∷ ps) r h =
      let behind = render-IsRendered ps (record r { out = String.◌++◌ r.out t }) h in
      record {
        no_error = behind.no_error;
        text = behind.text ∙ append_assoc r.out t (substituted g coll params ps);
        all_given = behind.all_given;
        marks = behind.marks;
      }
  render-IsRendered (placeholder n ∷ ps) r h =
      let behind = render-IsRendered ps (render_placeholder g coll params n r) h in
      let here = render_placeholder-IsReplaced n r behind.no_error in
      record {
        no_error = here.no_error;
        text =
            behind.text
            ∙ ap (λ s. String.◌++◌ s (substituted g coll params ps)) here.text
            ∙ append_assoc r.out _ (substituted g coll params ps);
        all_given = (here.is_given, behind.all_given);
        marks = λ k. ground (arith, behind.marks k, here.marks k);
      }
