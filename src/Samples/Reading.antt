-- ===== src/Samples/Reading.antt =====
-- Runs of the pure parts: templates, filters, plans, rows and decoders.
use dalgo2http.Prelude.{
  ℕ, zero, suc, String, ◌≡◌, refl, ◌↔◌, ◌≤◌, insert, has_key, flag, true, false, List, [], ◌∷◌,
  none, Dict, lookup, map, All, arith,
}
use dalgo2http.Errors.{ok, err}
use dalgo2http.Value.{Any, str, slice, item, stop, object, field, end, Row}
use dalgo2http.Dal.{Condition, Conditions, is_null, both, none_left, field_ref}
use dalgo2http.Filter.{unsupported, is_absent, eval_condition, compare_equal, to_float, filter_rows}
use dalgo2http.Filter.Meaning.{IsAnswer, eval_condition-IsAnswer}
use dalgo2http.Query.{
  QueryPlan, plan_query, find_collection, refuse_unsupported, column_field_names,
  collect_equalities,
}
use dalgo2http.Query.Plannable.{IsPlannable, plan_query_iff}
use dalgo2http.Query.Plan.{Answers, plan_query-Answers}
use dalgo2http.EcbXml.Lexical.{is_currency_code, is_lexical_decimal, is_trimmed_away, is_blank}
use dalgo2http.EcbXml.{quote_row, decode_ecb_daily}
use dalgo2http.EcbXml.Rows.{IsQuote, AreDistinct as DistinctQuotes}
use dalgo2http.EcbXml.Dates.{IsDate, Bears}
use dalgo2http.EcbXml.Quotes.{decode_ecb_daily-IsQuote}
use dalgo2http.EcbXml.Document.{Rate, to_row as to_rate_row, IsGood, IsGap, daily_tokens}
use dalgo2http.EcbXml.Rates.{decode_ecb_daily-daily_tokens}
use dalgo2http.Runtime.{Go, Token, char_data, comment}
use dalgo2http.JsonPath.{extract_rows}
use dalgo2http.JsonPath.Rows.{AreRows}
use dalgo2http.JsonPath.Paths.{Spells, Leads, extract_rows_iff}
use dalgo2http.StrictCsv.Lines.{decode_strict_csv3_iff}
use dalgo2http.StrictCsv.{csv_row, decode_strict_csv3}
use dalgo2http.StrictCsv.Rows.{IsThree, Line, to_row, IsDocument}
use dalgo2http.Samples.{
  sample_go, sample_row, sample_value, sample_condition, sample_collection, sample_query, offline,
}

eval_condition-IsAnswer_example : IsAnswer (eval_condition sample_go sample_row sample_condition)
eval_condition-IsAnswer_example = eval_condition-IsAnswer sample_go sample_row sample_condition

abbrev two_conditions : Conditions
two_conditions = both sample_condition (both (is_null (field_ref "rate") true) none_left)

abbrev wanted : Row
wanted = ("base", str "USD") ∷ []

filters : filter_rows sample_go (sample_row ∷ wanted ∷ []) sample_condition ≡ ok (sample_row ∷ [])
unfolding filter_rows eval_condition lookup is_absent compare_equal to_float
filters = refl

abbrev strange : Condition
strange = Condition.other "EXISTS"

fails :
    filter_rows sample_go (sample_row ∷ []) strange
    ≡ err (unsupported "%w: unsupported condition shape %T")
unfolding filter_rows eval_condition is_absent
fails = refl

abbrev pushed_equalities : Dict String
pushed_equalities = ("base", "EUR") ∷ []

abbrev sample_plan : QueryPlan
sample_plan = record {
  collection = sample_collection;
  equalities = pushed_equalities;
  residual = false;
  projection = none;
}

plans : plan_query sample_go offline.collections sample_query ≡ ok sample_plan
unfolding plan_query find_collection refuse_unsupported column_field_names collect_equalities lookup
    insert has_key is_absent
plans = refl

plan_query-Answers_example : Answers sample_go offline.collections sample_query sample_plan
plan_query-Answers_example =
    plan_query-Answers sample_go offline.collections sample_query sample_plan plans

plan_query_iff_example :
    ((p : QueryPlan) × (plan_query sample_go offline.collections sample_query ≡ ok p))
    ↔ IsPlannable sample_go offline.collections sample_query
plan_query_iff_example = plan_query_iff sample_go offline.collections sample_query

-- responses with the rows in a field
abbrev nested_go : Go
nested_go = record sample_go {
  json_unmarshal = λ b. ok (object (field "rates" (slice (item sample_value stop)) end));
}

extract_rows_iff_example :
    (extract_rows nested_go (91 ∷ 93 ∷ []) "rates" ≡ ok (sample_row ∷ [])) ↔ (
      (decoded : Any) × (value : Any) × (segs : List String) × (nested_go.json_unmarshal
          (91 ∷ 93 ∷ [])
        ≡ ok decoded)
      × Spells segs "rates"
      × Leads decoded segs value
      × AreRows value (sample_row ∷ []))
extract_rows_iff_example = extract_rows_iff nested_go (91 ∷ 93 ∷ []) "rates" (sample_row ∷ [])

abbrev pub csv_body : List ℕ
csv_body = 86 ∷ []

reads-IsThree : All IsThree (sample_go.csv_reader 3 csv_body)
reads-IsThree = (refl, (refl, tt))

decode_strict_csv3_iff_example :
    (decode_strict_csv3 sample_go csv_body ≡ ok (csv_row "AED" "Dirham" "4217" ∷ [])) ↔ (
      (lines : List Line) × IsDocument sample_go csv_body lines
      × (csv_row "AED" "Dirham" "4217" ∷ [] ≡ map to_row lines))
decode_strict_csv3_iff_example =
    decode_strict_csv3_iff sample_go csv_body (csv_row "AED" "Dirham" "4217" ∷ []) reads-IsThree

abbrev pub usd : Row
usd = quote_row "2024-05-17" "USD" "1.0844"

pub decodes_ecb : decode_ecb_daily sample_go csv_body ≡ ok (usd ∷ [])
unfolding decode_ecb_daily is_currency_code is_lexical_decimal is_trimmed_away insert lookup flag
decodes_ecb = refl

decode_ecb_daily-IsQuote_example :
    All IsQuote (usd ∷ [])
    × DistinctQuotes (usd ∷ [])
    × (1 ≤ 1)
    × (1 ≤ 256)
    × (1 ≤ 2097152)
    × ((date : String) × IsDate sample_go date × All (Bears date) (usd ∷ []))
decode_ecb_daily-IsQuote_example =
    decode_ecb_daily-IsQuote sample_go csv_body (usd ∷ []) decodes_ecb

abbrev daily_rates : List Rate
daily_rates =
    record { currency = "USD"; rate = "1.0844" } ∷ record { currency = "JPY"; rate = "168.98" } ∷ []

-- a line behind the declaration, a comment and a blank behind the root's start, and nothing elsewhere
abbrev daily_gaps : ℕ → List Token
daily_gaps zero = char_data "\n" ∷ []
daily_gaps (suc zero) = comment ∷ char_data " " ∷ []
daily_gaps _ = []

daily_gaps-IsGap : (n : ℕ) → All IsGap (daily_gaps n)
unfolding is_blank
daily_gaps-IsGap zero = (refl, tt)
daily_gaps-IsGap (suc zero) = (tt, (refl, tt))
daily_gaps-IsGap (suc (suc n)) = tt

abbrev daily_go : Go
daily_go = record sample_go {
  xml_tokens = λ b.
      daily_tokens daily_gaps "Reference rates" "European Central Bank" "2024-05-17" daily_rates;
}

daily_rates-AllGood : All IsGood daily_rates
unfolding is_currency_code is_lexical_decimal is_trimmed_away
daily_rates-AllGood = ((refl, refl, refl, refl), ((refl, refl, refl, refl), tt))

decode_ecb_daily-daily_tokens_example :
    decode_ecb_daily daily_go csv_body ≡ ok (map (to_rate_row "2024-05-17") daily_rates)
decode_ecb_daily-daily_tokens_example =
    decode_ecb_daily-daily_tokens daily_go csv_body daily_gaps "Reference rates"
      "European Central Bank" "2024-05-17" daily_rates refl daily_gaps-IsGap (omega arith) refl refl
      refl daily_rates-AllGood (((refl, tt), (tt, tt))) (omega arith) (omega arith)
