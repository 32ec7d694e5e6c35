-- ===== src/Request/Missing.antt =====
-- When `buildURL` refuses a request for want of a value.
use dalgo2http.Prelude.{
  String, ◌≡◌, refl, Bool, true, not, List, [], ◌∷◌, Option, none, some, arith, Dict, lookup,
  has_key, any, All, Option-cases, Bool-cases, inl, inr,
}
use dalgo2http.Errors.{Error, error_is, missing_param, err}
use dalgo2http.Runtime.{Go}
use dalgo2http.Descriptor.{Collection, Piece, plain, placeholder, pieces, placeholders}
use dalgo2http.Request.Build.{Rendering, render_placeholder, render, finish_url, build_url}

-- an error about a missing value
abbrev IsLacking : Option Error → Type 0
IsLacking none = ⊥
IsLacking (some e) = error_is e missing_param ≡ true

module _ (g : Go) (coll : Collection) (params : Dict String) where
  abbrev pub IsDeclared : String → Type 0
  IsDeclared n = has_key n coll.params ≡ true

  abbrev pub lacks : String → Bool
  lacks n = not (has_key n params)

  -- an error stays, and a missing value makes one
  render_placeholder-IsLacking :
      (n : String) (r : Rendering)
      → IsDeclared n
      → (IsLacking r.build_err → IsLacking (render_placeholder g coll params n r).build_err)
        × (lacks n ≡ true → IsLacking (render_placeholder g coll params n r).build_err)
  unfolding render_placeholder has_key
  render_placeholder-IsLacking n r declared = elim (Option-cases (lookup n coll.params)) [
    | inl undeclared ↦ absurd (cc (rw undeclared at declared))
    | inr (p, found) ↦ elim (Option-cases (lookup n params)) [
      | inl missing ↦ (
        λ h. rw (found, missing, render_placeholder) refl,
        λ h. rw (found, missing, render_placeholder) refl,
      )
      | inr (v, there) ↦
          (λ h. rw (found, there, render_placeholder) h, λ h. absurd (cc (rw there at h)))
    ]
  ]

  render-stays :
      (ps : List Piece) (r : Rendering)
      → All IsDeclared (placeholders ps)
      → IsLacking r.build_err
      → IsLacking (render g coll params ps r).build_err
  unfolding render placeholders
  render-stays [] r declared h = h
  render-stays (plain t ∷ ps) r declared h = render-stays ps _ declared h
  render-stays (placeholder n ∷ ps) r (here, declared) h =
      render-stays ps (render_placeholder g coll params n r) declared
        ((render_placeholder-IsLacking n r here).0 h)

  render-IsLacking :
      (ps : List Piece) (r : Rendering)
      → All IsDeclared (placeholders ps)
      → any lacks (placeholders ps) ≡ true
      → IsLacking (render g coll params ps r).build_err
  unfolding render placeholders
  render-IsLacking [] r declared h = cc
  render-IsLacking (plain t ∷ ps) r declared h = render-IsLacking ps _ declared h
  render-IsLacking (placeholder n ∷ ps) r (here, declared) h = elim (Bool-cases (lacks n)) [
    | inl missing ↦
        render-stays ps (render_placeholder g coll params n r) declared
          ((render_placeholder-IsLacking n r here).1 missing)
    | inr there ↦ render-IsLacking ps (render_placeholder g coll params n r) declared (ground arith)
  ]

  finish_url-IsLacking :
      (r : Rendering)
      → IsLacking r.build_err
      → (e : Error) × (finish_url g coll params r ≡ err e) × (error_is e missing_param ≡ true)
  unfolding finish_url
  finish_url-IsLacking r h = by_error r.build_err refl h
    where
      by_error :
          (o : Option Error)
          → r.build_err ≡ o
          → IsLacking o
          → (e : Error) × (finish_url g coll params r ≡ err e) × (error_is e missing_param ≡ true)
      by_error none same k = absurd k
      by_error (some e) same k = (e, rw (same, finish_url) refl, k)

  -- Where every placeholder of a template is declared, as it is in a validated collection, a request
  -- without a value for one of them is refused by an error that wraps `ErrMissingParam`.
  pub build_url-missing :
      All IsDeclared (placeholders (pieces coll.url_template))
      → any lacks (placeholders (pieces coll.url_template)) ≡ true
      → (e : Error) × (build_url g coll params ≡ err e) × (error_is e missing_param ≡ true)
  unfolding build_url
  build_url-missing declared h =
      finish_url-IsLacking (render g coll params (pieces coll.url_template) _)
        (render-IsLacking (pieces coll.url_template) _ declared h)
