-- ===== src/Capabilities/Queries.antt =====
-- What the capabilities of a collection say about comparisons.
use dalgo2http.Prelude.{String, ◌≡◌, ap, ◌∙◌, sym, ◌&&◌, ◌||◌, among}
use dalgo2http.Errors.{ok, >>=-eq-ok, ok_inj}
use dalgo2http.Value.{Any}
use dalgo2http.Runtime.{Go}
use dalgo2http.Dal.{Operator, StructuredQuery}
use dalgo2http.Snapshot.Names.{among-sorted_keys}
use dalgo2http.Query.{find_collection, plan_query}
use dalgo2http.Query.Single.{is_ok, is_equal, IsComparison, plan_query-single}
use dalgo2http.Database.{Database}
use dalgo2http.Capabilities.{Capabilities, capabilities}

-- A plain query for all columns that compares one field with a constant that has a text, of a
-- collection with these capabilities, is planned exactly when they say that the collection filters on
-- the client's side, or the comparison is an equality of one of their fields.
pub capabilities-plan_query :
    (g : Go) (d : Database) (q : StructuredQuery) (name : String) (op : Operator) (v : Any)
    (caps : Capabilities)
    → capabilities d q.from ≡ ok caps
    → IsComparison g q name op v
    → is_ok (plan_query g d.collections q)
      ≡ (caps.client_side_filter || (is_equal op && among name caps.fields))
unfolding capabilities
capabilities-plan_query g d q name op v caps e h =
    let (coll, found, shape) = >>=-eq-ok (find_collection d.collections q.from) _ e in
    let same = ok_inj _ caps shape in
    plan_query-single g d.collections q name op v coll found h
    ∙ ap (λ b. coll.client_side_filter || (is_equal op && b))
        (sym (among-sorted_keys name coll.params))
    ∙ ap (λ (c : Capabilities). c.client_side_filter || (is_equal op && among name c.fields)) same
