-- ===== src/StrictCsv/Failures.antt =====
-- How the CSV decoder fails.
use dalgo2http.Prelude.{
  String, ◌≡◌, refl, Bool, true, not, ◌||◌, List, [], ◌∷◌, arith, All, Dict, length, any, ltb,
  nat_eq, is_empty, subst,
}
use dalgo2http.Errors.{
  Error, error_is, invalid_csv, response_too_large, Result, ok, err, panic, Raises, Raises-bind,
  Raises-bind_ok, Raises-fail_if,
}
use dalgo2http.Value.{Row}
use dalgo2http.Runtime.{Go, Bytes}
use dalgo2http.StrictCsv.{
  max_strict_csv3_bytes, csv_check_header, csv_step, csv_loop, decode_strict_csv3,
}
use dalgo2http.StrictCsv.Rows.{IsThree, csv_check_header-ok}

-- the ways in which decoding fails
abbrev pub IsCsvError : Error → Type 0
IsCsvError e = (error_is e invalid_csv || error_is e response_too_large) ≡ true

csv_step-Raises :
    (fields : List String) (rows : List Row) (seen : Dict Bool)
    → length fields ≡ 3
    → Raises IsCsvError (csv_step fields rows seen)
unfolding csv_step
csv_step-Raises (v ∷ d ∷ r ∷ []) rows seen h = ground arith
csv_step-Raises _ rows seen h = absurd (omega arith)

csv_loop-Raises :
    (reads : List (Result (List String))) (rows : List Row) (seen : Dict Bool)
    → All IsThree reads
    → Raises IsCsvError (csv_loop reads rows seen)
unfolding csv_loop
csv_loop-Raises [] rows seen h = tt
csv_loop-Raises (ok fields ∷ reads) rows seen (three, h) =
    Raises-bind IsCsvError (csv_step fields rows seen) _ (csv_step-Raises fields rows seen three)
      (λ (rows', seen'). csv_loop-Raises reads rows' seen' h)
csv_loop-Raises (err e ∷ reads) rows seen h = refl
csv_loop-Raises (panic ∷ reads) rows seen h = elim h.0 [ ]

csv_check_header-Raises :
    (reads : List (Result (List String)))
    → All IsThree reads
    → Raises IsCsvError (csv_check_header reads)
unfolding csv_check_header
csv_check_header-Raises [] h = refl
csv_check_header-Raises (ok header ∷ reads) h = ground arith
csv_check_header-Raises (err e ∷ reads) h = refl
csv_check_header-Raises (panic ∷ reads) h = elim h.0 [ ]

-- Where the CSV reader keeps to three fields, decoding never panics, and each of its errors wraps
-- `ErrInvalidCSV` or `ErrResponseTooLarge`.
pub decode_strict_csv3-IsCsvError :
    (g : Go) (body : Bytes)
    → All IsThree (g.csv_reader 3 body)
    → Raises IsCsvError (decode_strict_csv3 g body)
unfolding decode_strict_csv3
decode_strict_csv3-IsCsvError g body three =
    Raises-fail_if IsCsvError (ltb max_strict_csv3_bytes (length body)) _ _ refl λ _.
      Raises-fail_if IsCsvError (not (g.utf8_valid body) || any (λ b. nat_eq b 0) body) _ _ refl
        λ _.
          Raises-bind_ok IsCsvError (csv_check_header (g.csv_reader 3 body)) _
            (csv_check_header-Raises (g.csv_reader 3 body) three)
            λ reads headed.
              Raises-bind IsCsvError (csv_loop reads [] []) _
                (csv_loop-Raises reads [] []
                  (subst (All IsThree) (csv_check_header-ok (g.csv_reader 3 body) reads headed)
                    three).1)
                λ rows. Raises-fail_if IsCsvError (is_empty rows) _ _ refl (λ _. tt)
