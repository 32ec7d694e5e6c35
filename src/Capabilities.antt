-- ===== src/Capabilities.antt =====
-- capabilities.go: what a collection can be asked.
pub mod Queries
use dalgo2http.Prelude.{
  String, ◌≡◌, ap, ◌∙◌, Bool, true, false, List, [], ◌∷◌, if◌then◌else◌, has_key,
}
use dalgo2http.Context.{Context}
use dalgo2http.Errors.{Error, error_is, not_supported, Result, ok, err, ◌>>=◌, >>=-eq-ok, ok_inj}
use dalgo2http.Runtime.{Go}
use dalgo2http.Dal.{Operator, equal, greater_then, greater_or_equal, less_then, less_or_equal, in_}
use dalgo2http.Query.{find_collection}
use dalgo2http.Snapshot.{keys, sort_strings}
use dalgo2http.Request.{Env, World}
use dalgo2http.Database.{Database}
use dalgo2http.Reads.{Target, get}
use dalgo2http.Reads.Gets.{get-IsRefused}

pub record Capabilities : Type 0 where
  pub collection : String
  pub fields : List String
  pub operators : List Operator
  pub supports_get : Bool
  pub client_side_filter : Bool

operators_of : Bool → List Operator
operators_of filters =
    equal
    ∷ (if filters
        then greater_then ∷ greater_or_equal ∷ less_then ∷ less_or_equal ∷ in_ ∷ []
        else [])

-- the `Capabilities` method
unfoldable pub capabilities : Database → String → Result Capabilities
unfolding operators_of sort_strings keys has_key
capabilities d collection = do
  coll ← find_collection d.collections collection
  ok (record {
    collection = coll.name;
    fields = sort_strings (keys coll.params);
    operators = operators_of coll.client_side_filter;
    supports_get = has_key coll.key_field coll.params;
    client_side_filter = coll.client_side_filter;
  })

-- Where the capabilities of a collection say that Get is not supported, Get of a record of that
-- collection is refused with `dal.ErrNotSupported`, and leaves the world as it was.
pub capabilities-supports_get :
    (g : Go) (env : Env) (d : Database) (ctx : Context) (rec : Target) (w : World)
    (caps : Capabilities)
    → capabilities d rec.collection ≡ ok caps
    → caps.supports_get ≡ false
    → (e : Error) × ((get g env d ctx rec w).0 ≡ (err e, w)) × (error_is e not_supported ≡ true)
unfolding capabilities
capabilities-supports_get g env d ctx rec w caps e unsupported =
    let (coll, found, shape) = >>=-eq-ok (find_collection d.collections rec.collection) _ e in
    get-IsRefused g env d ctx rec w coll found
      (ap (λ (c : Capabilities). c.supports_get) (ok_inj _ caps shape) ∙ unsupported)
