-- ===== src/StrictCsv/Rows.antt =====
-- What the CSV decoder accepts.
use mathlib.Core.List.{append_assoc, append-nil}
use dalgo2http.Prelude.{
  ℕ, flag-insert, ◌≤◌, ◌<◌, String, ◌≡◌, refl, sym, ◌∙◌, ap, ◌≢◌, Bool, true, false, not, ◌||◌,
  List, [], ◌∷◌, ◌++◌, map, arith, Bool-cases, inl, inr, All, ◌==◌, eq_iff, eq_refl, Dict, flag,
  insert, length, length-append, any, leb, ltb, nat_eq, is_empty, subst,
}
use dalgo2http.Errors.{Result, ok, err, panic, >>=-eq-ok, fail_if-eq-ok, ok_inj}
use dalgo2http.Value.{Row}
use dalgo2http.Runtime.{Go, Bytes}
use dalgo2http.StrictCsv.{
  max_strict_csv3_bytes, max_strict_csv3_rows, csv_header, texts_eq, csv_check_header, csv_row,
  csv_step, csv_loop, decode_strict_csv3,
}

pub record Line : Type 0 where
  pub value : String
  pub description : String
  pub reference : String

abbrev pub to_read : Line → Result (List String)
to_read l = ok (l.value ∷ l.description ∷ l.reference ∷ [])

abbrev pub to_row : Line → Row
to_row l = csv_row l.value l.description l.reference

-- What the CSV reader documents with `FieldsPerRecord` 3: each record has three fields.
abbrev pub IsThree : Result (List String) → Type 0
IsThree (ok fields) = length fields ≡ 3
IsThree (err e) = Unit
IsThree panic = ⊥

-- Every value is there, and occurs once.
abbrev pub AreDistinct : List Line → Type 0
AreDistinct [] = Unit
AreDistinct (l ∷ ls) = (l.value ≢ "") × All (λ (m : Line). m.value ≢ l.value) ls × AreDistinct ls

unfoldable pub AreFresh : List Line → Dict Bool → Type 0
AreFresh [] seen = Unit
AreFresh (l ∷ ls) seen =
    (l.value ≢ "") × (flag l.value seen ≡ false) × AreFresh ls (insert l.value true seen)

AreFresh-avoid :
    (ls : List Line) (seen : Dict Bool) (v : String)
    → flag v seen ≡ true
    → AreFresh ls seen
    → All (λ (m : Line). m.value ≢ v) ls
unfolding AreFresh
AreFresh-avoid [] seen v h f = tt
AreFresh-avoid (l ∷ ls) seen v h (_, fresh, f) = (
  λ same. cc (subst (λ x. flag x seen ≡ false) same fresh, h),
  AreFresh-avoid ls (insert l.value true seen) v (ground (arith, flag-insert l.value v seen)) f,
)

AreFresh-AreDistinct : (ls : List Line) (seen : Dict Bool) → AreFresh ls seen → AreDistinct ls
unfolding AreFresh
AreFresh-AreDistinct [] seen f = tt
AreFresh-AreDistinct (l ∷ ls) seen (filled, _, f) = (
  filled,
  AreFresh-avoid ls (insert l.value true seen) l.value
      (ground (arith, flag-insert l.value l.value seen, eq_refl l.value)) f,
  AreFresh-AreDistinct ls (insert l.value true seen) f,
)

-- what one record adds
csv_step-line :
    (fields : List String) (rows rows' : List Row) (seen seen' : Dict Bool)
    → length fields ≡ 3
    → csv_step fields rows seen ≡ ok (rows', seen')
    → (l : Line) × (fields ≡ l.value ∷ l.description ∷ l.reference ∷ [])
      × (l.value ≢ "")
      × (flag l.value seen ≡ false)
      × (length rows < max_strict_csv3_rows)
      × (rows' ≡ rows ++ to_row l ∷ [])
      × (seen' ≡ insert l.value true seen)
unfolding csv_step
csv_step-line (v ∷ d ∷ r ∷ []) rows rows' seen seen' h e =
    let (fresh, e₁) = fail_if-eq-ok (v == "" || flag v seen) _ _ e in
    let (room, e₂) = fail_if-eq-ok (leb max_strict_csv3_rows (length rows)) _ _ e₁ in
    let same = ok_inj _ (rows', seen') e₂ in
    (
      record { value = v; description = d; reference = r },
      refl,
      ground (arith, eq_iff v ""),
      ground arith,
      ground arith,
      ap (λ (p : List Row × Dict Bool). p.0) (sym same),
      ap (λ (p : List Row × Dict Bool). p.1) (sym same),
    )
csv_step-line _ rows rows' seen seen' h e = absurd (omega arith)

-- what the loop adds
abbrev Added : List (Result (List String)) → List Row → Dict Bool → List Row → Type 0
Added reads rows seen out =
    (lines : List Line) × (reads ≡ map to_read lines)
    × (out ≡ rows ++ map to_row lines)
    × AreFresh lines seen
    × (length rows ≤ max_strict_csv3_rows → length out ≤ max_strict_csv3_rows)

csv_loop-Added :
    (reads : List (Result (List String))) (rows out : List Row) (seen : Dict Bool)
    → All IsThree reads
    → csv_loop reads rows seen ≡ ok out
    → Added reads rows seen out
unfolding csv_loop AreFresh
csv_loop-Added [] rows out seen h e =
    let same = ok_inj rows out e in
    ([], refl, sym same ∙ sym (append-nil rows), tt, λ b. subst (λ r. length r ≤ 512) same b)
csv_loop-Added (ok fields ∷ reads) rows out seen (three, h) e =
    let ((rows', seen'), stepped, later) = >>=-eq-ok (csv_step fields rows seen) _ e in
    let (l, shape, filled, fresh, room, grown, marked) =
      csv_step-line fields rows rows' seen seen' three stepped in
    let (lines, read, made, others, bound) = csv_loop-Added reads rows' out seen' h later in
    (
      l ∷ lines,
      (λ i. ok (shape i) ∷ read i),
      made
          ∙ ap (λ r. r ++ map to_row lines) grown
          ∙ append_assoc rows (to_row l ∷ []) (map to_row lines),
      (filled, fresh, subst (AreFresh lines) marked others),
      λ b. bound (
          omega (arith, ap (λ (r : List Row). length r) grown, length-append rows (to_row l ∷ []))),
    )
csv_loop-Added (err e' ∷ reads) rows out seen h e = cc
csv_loop-Added (panic ∷ reads) rows out seen h e = cc

texts_eq-eq : (ss ts : List String) → texts_eq ss ts ≡ true → ss ≡ ts
texts_eq-eq [] [] h = refl
texts_eq-eq [] (t ∷ ts) h = cc
texts_eq-eq (s ∷ ss) [] h = cc
texts_eq-eq (s ∷ ss) (t ∷ ts) h =
    λ i. (eq_iff s t).0 (ground arith) i ∷ texts_eq-eq ss ts (ground arith) i

pub csv_check_header-ok :
    (reads rest : List (Result (List String)))
    → csv_check_header reads ≡ ok rest
    → reads ≡ ok csv_header ∷ rest
unfolding csv_check_header
csv_check_header-ok [] rest e = cc
csv_check_header-ok (err x ∷ reads) rest e = cc
csv_check_header-ok (panic ∷ reads) rest e = cc
csv_check_header-ok (ok header ∷ reads) rest e = elim (Bool-cases (texts_eq header csv_header)) [
  | inl same ↦
      let tail : reads ≡ rest = ok_inj reads rest (rw (same, csv_check_header) at e) in
      λ i. ok (texts_eq-eq header csv_header same i) ∷ tail i
  | inr other ↦ absurd (cc (rw (other, csv_check_header) at e))
]

not-empty : (rows : List Row) → is_empty rows ≡ false → 1 ≤ length rows
not-empty [] h = cc
not-empty (r ∷ rows) h = omega arith

-- What the CSV reader reads from a body: the header Value, Description, Reference and then the lines,
-- between 1 and 512 of them; no value is empty or occurs twice, and the body is at most 64 KiB of UTF-8
-- without a NUL.
pub record IsDocument (g : Go) (body : Bytes) (lines : List Line) : Type 0 where
  pub read : g.csv_reader 3 body ≡ ok csv_header ∷ map to_read lines
  pub distinct : AreDistinct lines
  pub some_lines : 1 ≤ length lines
  pub few_lines : length lines ≤ 512
  pub few_bytes : length body ≤ 65536
  pub text : (not (g.utf8_valid body) || any (λ b. nat_eq b 0) body) ≡ false

length-map : {A B : Type 0} (f : A → B) (xs : List A) → length (map f xs) ≡ length xs
length-map f [] = refl
length-map f (x ∷ xs) = ap ℕ.suc (length-map f xs)

-- Where the CSV reader keeps to three fields: a body that is decoded is such a document, and the rows
-- are those of its lines, in order.
pub decode_strict_csv3-IsDocument :
    (g : Go) (body : Bytes) (rows : List Row)
    → All IsThree (g.csv_reader 3 body)
    → decode_strict_csv3 g body ≡ ok rows
    → (lines : List Line) × IsDocument g body lines × (rows ≡ map to_row lines)
unfolding decode_strict_csv3
decode_strict_csv3-IsDocument g body rows three e =
    let (small, e₁) = fail_if-eq-ok (ltb max_strict_csv3_bytes (length body)) _ _ e in
    let (text, e₂) = fail_if-eq-ok (not (g.utf8_valid body) || any (λ b. nat_eq b 0) body) _ _ e₁ in
    let (reads, headed, e₃) = >>=-eq-ok (csv_check_header (g.csv_reader 3 body)) _ e₂ in
    let (out, looped, e₄) = >>=-eq-ok (csv_loop reads [] []) _ e₃ in
    let (some_rows, shape) = fail_if-eq-ok (is_empty out) _ _ e₄ in
    let header = csv_check_header-ok (g.csv_reader 3 body) reads headed in
    let (lines, read, made, fresh, bound) =
      csv_loop-Added reads [] out [] (subst (All IsThree) header three).1 looped in
    let sized : length out ≡ length lines =
      ap (λ (r : List Row). length r) made ∙ length-map to_row lines in
    (
      lines,
      record {
        read = header ∙ ap (λ r. ok csv_header ∷ r) read;
        distinct = AreFresh-AreDistinct lines [] fresh;
        some_lines = omega (arith, sized, not-empty out some_rows);
        few_lines = omega (arith, sized, bound (omega arith));
        few_bytes = ground arith;
        text = text;
      },
      sym (ok_inj out rows shape) ∙ made,
    )
