-- ===== src/Request/Parameters.antt =====
-- A URL, as a function of a request's parameters.
use dalgo2http.Prelude.{
  String, ◌≡◌, refl, ap, ◌∙◌, Bool, List, [], ◌∷◌, Option, none, some, Dict, lookup, insert, flag,
  not, ◌||◌, if◌then◌else◌, Option-cases, inl, inr,
}
use dalgo2http.Errors.{ok, ◌>>=◌, wrap_error}
use dalgo2http.Runtime.{Go}
use dalgo2http.Descriptor.{Param, Collection, Piece, plain, placeholder, pieces}
use dalgo2http.Request.Build.{
  is_query, Rendering, render_placeholder, render, append_query, finish_url, build_url,
}

module _ (g : Go) (coll : Collection) (m m' : Dict String)
    (same : (k : String) → lookup k m ≡ lookup k m') where
  render_placeholder-same :
      (name : String) (r : Rendering)
      → render_placeholder g coll m name r ≡ render_placeholder g coll m' name r
  unfolding render_placeholder
  render_placeholder-same name r = elim (Option-cases (lookup name coll.params)) [
    | inl undeclared ↦ rw (undeclared, render_placeholder) refl
    | inr (p, declared) ↦ rw (declared, render_placeholder) (rw (same name) refl)
  ]

  render-same : (ps : List Piece) (r : Rendering) → render g coll m ps r ≡ render g coll m' ps r
  unfolding render
  render-same [] r = refl
  render-same (plain t ∷ ps) r = render-same ps _
  render-same (placeholder name ∷ ps) r =
      ap (render g coll m ps) (render_placeholder-same name r) ∙ render-same ps _

  append_query-same :
      (params : Dict Param) (used : Dict Bool) (q : Dict (List String))
      → append_query params used m q ≡ append_query params used m' q
  unfolding append_query
  append_query-same [] used q = refl
  append_query-same ((name, p) ∷ rest) used q =
      ap
        (λ (o : Option String). append_query rest used m (
          if not (is_query p.location) || flag name used
          then q
          else elim o [ none ↦ q | some v ↦ insert name (v ∷ []) q ]))
        (same name)
      ∙ append_query-same rest used _

  finish_url-same : (r : Rendering) → finish_url g coll m r ≡ finish_url g coll m' r
  unfolding finish_url
  finish_url-same r = elim (Option-cases r.build_err) [
    | inl fine ↦
        rw (fine, finish_url)
          (λ i.
            wrap_error "dalgo2http: collection %q: parse URL: %w" (g.url_parse r.out) >>= λ parsed.
            ok (
              g.url_string (record parsed {
                raw_query =
                    g.url_encode (append_query-same coll.params r.used (g.url_query parsed) i);
              })))
    | inr (e, bad) ↦ rw (bad, finish_url) refl
  ]

  -- a URL depends on the values of the parameters only
  pub build_url-same : build_url g coll m ≡ build_url g coll m'
  unfolding build_url
  build_url-same =
      ap (finish_url g coll m) (render-same (pieces coll.url_template) _) ∙ finish_url-same _
