-- ===== src/Samples/Filtering.antt =====
-- A query of two comparisons over a table: one the endpoint answers, one is left to the filter.
use dalgo2http.Prelude.{
  inl, inr, ◌∙◌, sym, true, subst, ◌≡◌, refl, String, Bool, false, List, [], ◌∷◌, Option, none,
  some, All, keep, lookup, insert, has_key, ◌==◌, subst, arith,
}
use dalgo2http.Errors.{ok, ok_inj}
use dalgo2http.Value.{Any, str, slice, item, stop, object, field, end, Row}
use dalgo2http.Dal.{structured}
use dalgo2http.Filter.{is_absent, eval_condition, compare_equal, to_float}
use dalgo2http.Runtime.{Go}
use dalgo2http.Request.{response_byte_limit, has_long_header}
use dalgo2http.Descriptor.{pieces, live_only_decoder}
use dalgo2http.Request.Build.{build_url}
use dalgo2http.Query.{
  QueryPlan, plan_query, find_collection, refuse_unsupported, column_field_names,
  collect_equalities, stringify_param, Record,
}
use dalgo2http.Query.Pushdown.{leaves}
use dalgo2http.Query.Matching.{matches, AgreesOn}
use dalgo2http.Decoder.{decode_rows}
use dalgo2http.JsonPath.{extract_rows, segments, navigate, rows_of}
use dalgo2http.Database.{Database}
use dalgo2http.Database.Served.{ServedWith}
use dalgo2http.Reads.{execute_query_to_records_reader}
use dalgo2http.Reads.Tables.{IsSelected}
use dalgo2http.Reads.Answers.{HasField, execute_query_to_records_reader-answers}
use dalgo2http.Filter.Rows.{passes, IsOk}
use dalgo2http.Dal.{
  StructuredQuery, group, and, both, none_left, comparison, field_ref, equal, constant,
}
use dalgo2http.Descriptor.{Collection}
use dalgo2http.Samples.{
  sample_go, sample_row, sample_value, sample_collection, sample_env, sample_world, sample_context,
  sample_condition, sample_response, sample_query, online,
}

-- an endpoint whose parameters are the text fields of the rows
abbrev is_text : String → Option Any → Bool
is_text text (some (str s)) = s == text
is_text text _ = false

abbrev has_text : String → String → Row → Bool
has_text name text row = is_text text (lookup name row)

-- `SELECT * FROM rates WHERE base = 'EUR' AND rate = '1.1' LIMIT 1`, of which the endpoint has no
-- parameter for the rate
abbrev filtering : Collection
filtering = record sample_collection { client_side_filter = true }

abbrev filtering_database : Database
filtering_database = record online { collections = ("rates", filtering) ∷ [] }

abbrev two_comparisons : StructuredQuery
two_comparisons = record sample_query {
  condition = group and (
      both sample_condition
        (both (comparison (field_ref "rate") equal (constant (str "1.1"))) none_left));
}

abbrev plan : QueryPlan
plan = record {
  collection = filtering;
  equalities = ("base", "EUR") ∷ [];
  residual = true;
  projection = none;
}

-- of these rows the endpoint serves the last two, and the filter keeps the last one
abbrev rate_table : List Row
rate_table =
    (("base", str "USD") ∷ ("rate", str "1.1") ∷ [])
    ∷ (("base", str "EUR") ∷ ("rate", str "0.9") ∷ [])
    ∷ sample_row
    ∷ []

abbrev table_go : Go
table_go = record sample_go {
  json_unmarshal = λ b. ok (
      slice (
        item (object (field "base" (str "EUR") (field "rate" (str "0.9") end)))
          (item sample_value stop)));
}

plans : plan_query table_go filtering_database.collections two_comparisons ≡ ok plan
unfolding plan_query find_collection refuse_unsupported column_field_names collect_equalities lookup
    insert has_key is_absent
plans = refl

serves_rates :
    ServedWith table_go sample_env filtering_database sample_context filtering
      (("base", "EUR") ∷ [])
      sample_world
      (keep (matches has_text (("base", "EUR") ∷ [])) rate_table)
unfolding build_url pieces lookup live_only_decoder has_long_header response_byte_limit decode_rows
    extract_rows segments navigate rows_of
serves_rates = record {
  url = "https://api.example/rates/EUR";
  resp = sample_response;
  built = refl;
  accepted = refl;
  answered = refl;
  whole = refl;
  small = omega arith;
  taken = omega arith;
  short = λ h. refl;
  decoded = refl;
}

-- one comparison of a text, on any row
means_text :
    (row : Row) (b : Bool)
    → has_text "base" "EUR" row ≡ b
    → passes (eval_condition table_go row sample_condition) ≡ b
    → AgreesOn table_go filtering has_text row sample_condition
unfolding stringify_param
means_text row b here there = λ text declared shown.
    subst (λ t. has_text "base" t row ≡ b) (ok_inj "EUR" text shown) here ∙ sym there

other_leaf :
    (row : Row)
    → AgreesOn table_go filtering has_text row
        (comparison (field_ref "rate") equal (constant (str "1.1")))
unfolding has_key lookup
other_leaf row = λ text declared shown. absurd (cc declared)

means_equality :
    All
      (λ row. All (AgreesOn table_go filtering has_text row) (leaves two_comparisons.condition))
      rate_table
unfolding leaves eval_condition compare_equal to_float lookup
means_equality =
    let usd = ("base", str "USD") ∷ ("rate", str "1.1") ∷ [] in
    let eur = ("base", str "EUR") ∷ ("rate", str "0.9") ∷ [] in
    (
      (means_text usd false refl refl, (other_leaf usd, tt)),
      (
        (means_text eur true refl refl, (other_leaf eur, tt)),
        ((means_text sample_row true refl refl, (other_leaf sample_row, tt)), tt),
      ),
    )

rates_decided : All (λ row. IsOk (eval_condition table_go row two_comparisons.condition)) rate_table
unfolding eval_condition compare_equal to_float lookup
rates_decided = (inr refl, (inr refl, (inl refl, tt)))

rates_keyed : All (HasField "base") rate_table
unfolding lookup
rates_keyed = (refl, (refl, (refl, tt)))

execute_query_to_records_reader-answers_example :
    (records : List Record) × ((execute_query_to_records_reader table_go sample_env
        filtering_database sample_context
        (structured two_comparisons)
        sample_world).0
      ≡ ok records)
    × IsSelected table_go two_comparisons plan rate_table records
execute_query_to_records_reader-answers_example =
    execute_query_to_records_reader-answers table_go sample_env filtering_database sample_context
      two_comparisons sample_world plan has_text rate_table refl plans refl serves_rates
      means_equality rates_keyed (λ residual. rates_decided)
