-- ===== src/StrictCsv/Lines.antt =====
-- Which bodies the CSV decoder of strict_csv.go accepts.
use mathlib.Core.List.{append_assoc, append-nil}
use dalgo2http.Prelude.{
  flag-insert, flag-nil, ◌+◌, ◌≤◌, String, ◌≡◌, refl, sym, ◌∙◌, ap, ◌≢◌, ◌↔◌, Bool, true, false,
  List, [], ◌∷◌, ◌++◌, map, arith, Bool-cases, inl, inr, All, ◌==◌, eq_iff, Dict, flag, insert,
  length, length-append, leb, ltb,
}
use dalgo2http.Errors.{ok}
use dalgo2http.Value.{Row}
use dalgo2http.Runtime.{Go, Bytes}
use dalgo2http.StrictCsv.Rows.{
  Line, to_read, to_row, IsThree, AreDistinct, AreFresh, IsDocument, decode_strict_csv3-IsDocument,
}
use dalgo2http.StrictCsv.{
  max_strict_csv3_bytes, max_strict_csv3_rows, csv_check_header, csv_step, csv_loop,
  decode_strict_csv3,
}

still_unseen :
    (l : Line) (seen : Dict Bool) (lines : List Line)
    → All (λ (m : Line). m.value ≢ l.value) lines
    → All (λ (m : Line). flag m.value seen ≡ false) lines
    → All (λ (m : Line). flag m.value (insert l.value true seen) ≡ false) lines
still_unseen l seen [] others unseen = tt
still_unseen l seen (m ∷ lines) (other, others) (here, unseen) = (
  elim (Bool-cases (l.value == m.value)) [
    | inl same ↦ absurd (other (sym ((eq_iff l.value m.value).0 same)))
    | inr differs ↦ ground (arith, flag-insert l.value m.value seen, differs, here)
  ],
  still_unseen l seen lines others unseen,
)

AreDistinct-AreFresh :
    (lines : List Line) (seen : Dict Bool)
    → AreDistinct lines
    → All (λ (m : Line). flag m.value seen ≡ false) lines
    → AreFresh lines seen
unfolding AreFresh
AreDistinct-AreFresh [] seen d unseen = tt
AreDistinct-AreFresh (l ∷ lines) seen (filled, others, d) (here, unseen) = (
  filled,
  here,
  AreDistinct-AreFresh lines (insert l.value true seen) d (still_unseen l seen lines others unseen),
)

is_filled : (s : String) → s ≢ "" → (s == "") ≡ false
is_filled s h = elim (Bool-cases (s == "")) [ inl e ↦ absurd (h ((eq_iff s "").0 e)) | inr e ↦ e ]

csv_loop-lines :
    (lines : List Line) (rows : List Row) (seen : Dict Bool)
    → AreFresh lines seen
    → length rows + length lines ≤ 512
    → csv_loop (map to_read lines) rows seen ≡ ok (rows ++ map to_row lines)
unfolding csv_loop csv_step AreFresh
csv_loop-lines [] rows seen fresh room = ap ok (sym (append-nil rows))
csv_loop-lines (l ∷ lines) rows seen (filled, new, fresh) room =
    let space : leb max_strict_csv3_rows (length rows) ≡ false = ground (arith, room) in
    rw (is_filled l.value filled, new, space)
      (csv_loop-lines lines (rows ++ to_row l ∷ []) (insert l.value true seen) fresh
          (omega (arith, room, length-append rows (to_row l ∷ [])))
        ∙ ap ok (append_assoc rows (to_row l ∷ []) (map to_row lines)))

unseen_at_first : (lines : List Line) → All (λ (m : Line). flag m.value [] ≡ false) lines
unseen_at_first [] = tt
unseen_at_first (l ∷ lines) = (flag-nil l.value, unseen_at_first lines)

IsDocument-decode_strict_csv3 :
    (g : Go) (body : Bytes) (lines : List Line)
    → IsDocument g body lines
    → decode_strict_csv3 g body ≡ ok (map to_row lines)
unfolding decode_strict_csv3 csv_check_header
IsDocument-decode_strict_csv3 g body [] doc = absurd (omega (arith, doc.some_lines))
IsDocument-decode_strict_csv3 g body (l ∷ lines) doc =
    let fits : ltb max_strict_csv3_bytes (length body) ≡ false = ground (arith, doc.few_bytes) in
    let looped =
      csv_loop-lines (l ∷ lines) [] []
        (AreDistinct-AreFresh (l ∷ lines) [] doc.distinct (unseen_at_first (l ∷ lines)))
        (omega (arith, doc.few_lines)) in
    rw (fits, doc.text, doc.read, looped) refl

-- Where the CSV reader keeps to three fields: a body is decoded to rows exactly if they are, in order,
-- those of the lines that the reader reads behind the header Value, Description, Reference, there are
-- between 1 and 512 of them, no value is empty or occurs twice, and the body is at most 64 KiB of
-- UTF-8 without a NUL.
pub decode_strict_csv3_iff :
    (g : Go) (body : Bytes) (rows : List Row)
    → All IsThree (g.csv_reader 3 body)
    → (decode_strict_csv3 g body ≡ ok rows)
      ↔ ((lines : List Line) × IsDocument g body lines × (rows ≡ map to_row lines))
decode_strict_csv3_iff g body rows three = (
  decode_strict_csv3-IsDocument g body rows three,
  λ (lines, doc, same). IsDocument-decode_strict_csv3 g body lines doc ∙ ap ok (sym same),
)
