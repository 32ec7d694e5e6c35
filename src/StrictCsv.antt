-- ===== src/StrictCsv.antt =====
-- strict_csv.go: the decoder of the three-column CSV profile. What the CSV reader returns, call after
-- call, comes from the runtime.
pub mod Rows
pub mod Lines
pub mod Failures
use dalgo2http.Prelude.{
  ℕ, String, Bool, ◌||◌, not, List, [], ◌∷◌, ◌++◌, ltb, leb, nat_eq, if◌then◌else◌, ◌==◌, Dict,
  flag, insert, length, any, is_empty,
}
use dalgo2http.Errors.{
  Error, sentinel, errorf, invalid_csv, response_too_large, Result, ok, err, panic, ◌>>=◌, ◌>>◌,
  fail_if,
}
use dalgo2http.Value.{str, Row}
use dalgo2http.Runtime.{Go, Bytes}

abbrev pub max_strict_csv3_bytes : ℕ
max_strict_csv3_bytes = 65536

abbrev pub max_strict_csv3_rows : ℕ
max_strict_csv3_rows = 512

-- `fmt.Errorf("%w: …", ErrInvalidCSV)`
abbrev pub csv_error : String → Error
csv_error message = errorf message (sentinel invalid_csv)

abbrev pub csv_header : List String
csv_header = "Value" ∷ "Description" ∷ "Reference" ∷ []

abbrev pub texts_eq : List String → List String → Bool
texts_eq [] [] = Bool.true
texts_eq (s ∷ ss) (t ∷ ts) = if s == t then texts_eq ss ts else Bool.false
texts_eq _ _ = Bool.false

-- the first read: an error, io.EOF, or a header that must be the expected one
pub csv_check_header : List (Result (List String)) → Result (List (Result (List String)))
csv_check_header (ok header ∷ reads) =
    if texts_eq header csv_header
    then ok reads
    else err (csv_error "%w: expected Value,Description,Reference header")
csv_check_header (panic ∷ reads) = panic
csv_check_header _ = err (csv_error "%w: expected Value,Description,Reference header")

abbrev pub csv_row : String → String → String → Row
csv_row value description reference =
    ("Value", str value) ∷ ("Description", str description) ∷ ("Reference", str reference) ∷ []

-- One record; `record[0]` to `record[2]` panic if the record is shorter. The result is the rows and
-- the set of values seen.
csv_step : List String → List Row → Dict Bool → Result (List Row × Dict Bool)
csv_step [] rows seen = panic
csv_step (value ∷ record_rest) rows seen = do
  fail_if (value == "" || flag value seen) (csv_error "%w: empty or duplicate Value")
  fail_if (leb max_strict_csv3_rows (length rows)) (csv_error "%w: row bound exceeded")
  elim record_rest [
    | [] ↦ panic
    | description ∷ more ↦ elim more [
      | [] ↦ panic
      | reference ∷ others ↦
          ok (rows ++ csv_row value description reference ∷ [], insert value Bool.true seen)
    ]
  ]

csv_loop : List (Result (List String)) → List Row → Dict Bool → Result (List Row)
unfolding csv_step
csv_loop [] rows seen = ok rows
csv_loop (ok fields ∷ reads) rows seen = do
  (rows', seen') ← csv_step fields rows seen
  csv_loop reads rows' seen'
csv_loop (err e ∷ reads) rows seen = err (csv_error "%w: malformed record")
csv_loop (panic ∷ reads) rows seen = panic

unfoldable pub decode_strict_csv3 : Go → Bytes → Result (List Row)
unfolding csv_check_header csv_loop
decode_strict_csv3 g body = do
  fail_if (ltb max_strict_csv3_bytes (length body)) (sentinel response_too_large)
  fail_if (not (g.utf8_valid body) || any (λ b. nat_eq b 0) body)
      (csv_error "%w: invalid text encoding")
  reads ← csv_check_header (g.csv_reader 3 body)
  rows ← csv_loop reads [] []
  fail_if (is_empty rows) (csv_error "%w: no records")
  ok rows
