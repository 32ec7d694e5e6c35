-- ===== src/Request/Urls.antt =====
-- What `buildURL` builds.
use text.Mathlib.TextLemmas.{nil-append}
use dalgo2http.Prelude.{
  String, ◌≡◌, sym, ap, ◌∙◌, not, ◌&&◌, List, [], none, arith, if◌then◌else◌, Dict, lookup,
  flag-nil, among, All, Option-cases, inl, inr,
}
use dalgo2http.Errors.{ok, wrap_error, >>=-eq-ok, wrap_error-eq-ok, ok_inj}
use dalgo2http.Runtime.{Go, Url}
use dalgo2http.Descriptor.{Collection, pieces, placeholders}
use dalgo2http.Request.Build.{Rendering, render, append_query, finish_url, build_url}
use dalgo2http.Request.Loops.{
  substituted, declares_query, given, append_query-lookup, IsGiven, IsRendered, render-IsRendered,
}

-- What a URL consists of that was built. Every placeholder is declared and has a value. The template
-- with the escaped values in the place of the placeholders is parsed, and its query is replaced: a
-- declared query parameter that the template does not name and that has a value gets that value, and
-- any other name has what the template's query gives it.
pub record IsUrlOf (g : Go) (coll : Collection) (params : Dict String) (url : String) : Type 0 where
  pub all_given : All (IsGiven coll params) (placeholders (pieces coll.url_template))
  pub parsed : Url
  pub parses : g.url_parse (substituted g coll params (pieces coll.url_template)) ≡ ok parsed
  pub values : Dict (List String)
  pub has_values :
      (name : String)
      → lookup name values ≡ (
          if declares_query coll.params name
            && not (among name (placeholders (pieces coll.url_template)))
          then given (lookup name params) (lookup name (g.url_query parsed))
          else lookup name (g.url_query parsed))
  pub shape : url ≡ g.url_string (record parsed { raw_query = g.url_encode values })

abbrev start : Rendering
start = record { out = ""; used = []; build_err = none }

module _ (g : Go) (coll : Collection) (params : Dict String) where
  finish_url-IsUrlOf :
      (r : Rendering) (url : String)
      → ((r.build_err ≡ none) → IsRendered g coll params (pieces coll.url_template) start r)
      → finish_url g coll params r ≡ ok url
      → IsUrlOf g coll params url
  unfolding finish_url
  finish_url-IsUrlOf r url rendered e = elim (Option-cases r.build_err) [
    | inr (x, bad) ↦ absurd (cc (rw (bad, finish_url) at e))
    | inl fine ↦
        let h = rendered fine in
        let (parsed, parses, shape) =
          >>=-eq-ok (wrap_error _ (g.url_parse r.out)) _ (rw (fine, finish_url) at e) in
        record {
          all_given = h.all_given;
          parsed = parsed;
          parses = ap g.url_parse (sym (h.text ∙ nil-append _)) ∙ wrap_error-eq-ok _ _ parses;
          values = append_query coll.params r.used params (g.url_query parsed);
          has_values = λ name.
              append_query-lookup coll.params r.used params (g.url_query parsed) name
              ∙ ap
                  (λ b.
                    if declares_query coll.params name && not b
                    then given (lookup name params) (lookup name (g.url_query parsed))
                    else lookup name (g.url_query parsed))
                  (ground (arith, h.marks name, flag-nil name));
          shape = sym (ok_inj _ url shape);
        }
  ]

  -- If a URL is built, every placeholder is declared and has a value; the URL is the template's with the
  -- escaped values in the place of the placeholders, in whose query each declared query parameter that
  -- the template does not name and that has a value is set to it, and every other name is as it was.
  pub build_url-IsUrlOf :
      (url : String) → build_url g coll params ≡ ok url → IsUrlOf g coll params url
  unfolding build_url
  build_url-IsUrlOf url e =
      finish_url-IsUrlOf (render g coll params (pieces coll.url_template) start) url
        (render-IsRendered g coll params (pieces coll.url_template) start) e
