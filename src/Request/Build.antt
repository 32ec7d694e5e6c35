-- ===== src/Request/Build.antt =====
-- request.go: `buildURL`.
use Prim.Native.String
use dalgo2http.Prelude.{
  String, Bool, true, false, not, ◌||◌, List, [], ◌∷◌, Option, none, some, if◌then◌else◌, Dict,
  lookup, insert, flag,
}
use dalgo2http.Errors.{
  Error, sentinel, errorf, invalid_config, missing_param, Result, ok, err, ◌>>=◌, wrap_error,
}
use dalgo2http.Runtime.{Go}
use dalgo2http.Descriptor.{
  ParamLocation, query, Param, Collection, Piece, plain, placeholder, pieces,
}

-- the variables of `buildURL` that the callback of the replacement writes, with the text so far
pub record Rendering : Type 0 where
  pub out : String
  pub used : Dict Bool
  pub build_err : Option Error

unfoldable pub escape_for : Go → ParamLocation → String → String
escape_for g query v = g.query_escape v
escape_for g _ v = g.path_escape v

-- the callback, for the match of one placeholder; a failed match is left in the text
unfoldable pub render_placeholder : Go → Collection → Dict String → String → Rendering → Rendering
unfolding escape_for
render_placeholder g coll params name r =
    let unchanged = String.◌++◌ r.out (String.◌++◌ "{" (String.◌++◌ name "}")) in
    elim (lookup name coll.params) [
      | none ↦ record r {
        out = unchanged;
        build_err = some (
            errorf "%w: collection %q: urlTemplate references undeclared parameter %q"
              (sentinel invalid_config));
      }
      | some p ↦ elim (lookup name params) [
        | none ↦ record r {
          out = unchanged;
          build_err = some (
              errorf "%w: collection %q: missing value for required parameter %q"
                (sentinel missing_param));
        }
        | some v ↦ record r {
          out = String.◌++◌ r.out (escape_for g p.location v);
          used = insert name true r.used;
        }
      ]
    ]

unfoldable pub render : Go → Collection → Dict String → List Piece → Rendering → Rendering
unfolding render_placeholder
render g coll params [] r = r
render g coll params (plain t ∷ ps) r =
    render g coll params ps (record r { out = String.◌++◌ r.out t })
render g coll params (placeholder name ∷ ps) r =
    render g coll params ps (render_placeholder g coll params name r)

abbrev pub is_query : ParamLocation → Bool
is_query query = true
is_query _ = false

-- the loop over `coll.Params` that appends the query parameters which the template does not name
unfoldable pub append_query :
    Dict Param → Dict Bool → Dict String → Dict (List String) → Dict (List String)
append_query [] used params q = q
append_query ((name, p) ∷ rest) used params q = append_query rest used params (
    if not (is_query p.location) || flag name used
    then q
    else elim (lookup name params) [ none ↦ q | some v ↦ insert name (v ∷ []) q ])

-- what follows once the text is rendered
unfoldable pub finish_url : Go → Collection → Dict String → Rendering → Result String
unfolding append_query
finish_url g coll params r = elim r.build_err [
  | some e ↦ err e
  | none ↦ do
    parsed ← wrap_error "dalgo2http: collection %q: parse URL: %w" (g.url_parse r.out)
    let q = append_query coll.params r.used params (g.url_query parsed)
    ok (g.url_string (record parsed { raw_query = g.url_encode q }))
]

unfoldable pub build_url : Go → Collection → Dict String → Result String
unfolding render finish_url
build_url g coll params = finish_url g coll params (
    render g coll params (pieces coll.url_template)
      (record { out = ""; used = []; build_err = none }))
