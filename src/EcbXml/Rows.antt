-- ===== src/EcbXml/Rows.antt =====
-- The rows that the decoder of the ECB's rates keeps, step after step.
use dalgo2http.Prelude.{
  flag-insert, ℕ, Bool, ◌++◌, ◌+◌, ◌≤◌, String, ◌≡◌, refl, ap, subst, true, false, not, ◌||◌, List,
  [], ◌∷◌, arith, All, All-append, length, length-append, ◌==◌, nat_eq, leb, is_empty, Dict, flag,
  insert, Bool-cases, inl, inr, eq_iff, eq_refl,
}
use Prim.Native.String.{len}
use dalgo2http.Errors.{ok, fail_if-eq-ok, ok_inj}
use dalgo2http.Value.{str, Row}
use dalgo2http.Runtime.{Go}
use dalgo2http.EcbXml.Lexical.{is_currency_code, is_lexical_decimal, is_trimmed_away}
use dalgo2http.EcbXml.{max_ecb_rows, Decoding, quote_row, attr_value, date_step, quote_step, once}

-- The row is a quote: a currency code of three capitals other than EUR, and a decimal rate that has
-- more than zeros and points.
pub record IsQuote (row : Row) : Type 0 where
  pub date : String
  pub currency : String
  pub rate : String
  pub shape : row ≡ quote_row date currency rate
  pub is_code : is_currency_code currency ≡ true
  pub foreign : (currency == "EUR") ≡ false
  pub decimal : is_lexical_decimal rate ≡ true
  pub positive : is_trimmed_away rate ≡ false

-- the second field of a row, which is the currency of a quote
abbrev pub currency_of : Row → String
currency_of (_ ∷ (_, str currency) ∷ _) = currency
currency_of _ = ""

-- no currency occurs twice
abbrev pub AreDistinct : List Row → Type 0
AreDistinct [] = Unit
AreDistinct (row ∷ rows) =
    All (λ (r : Row). (currency_of r == currency_of row) ≡ false) rows × AreDistinct rows

abbrev pub AreSeen : Dict Bool → List Row → Type 0
AreSeen seen rows = All (λ (r : Row). flag (currency_of r) seen ≡ true) rows

-- what the loop keeps of its variables
abbrev pub kept : Decoding → List Row × Dict Bool
kept s = (s.rows, s.seen)

abbrev pub IsSound : List Row × Dict Bool → Type 0
IsSound (rows, seen) = All IsQuote rows × (length rows ≤ 256) × AreDistinct rows × AreSeen seen rows

other_currency :
    (seen : Dict Bool) (a b : String) → flag a seen ≡ true → flag b seen ≡ false → (b == a) ≡ false
other_currency seen a b h k = elim (Bool-cases (b == a)) [
  | inl e ↦ absurd (cc (ap (λ c. flag c seen) ((eq_iff b a).0 e)))
  | inr e ↦ e
]

append-AreDistinct :
    (seen : Dict Bool) (rows : List Row) (row : Row)
    → AreDistinct rows
    → AreSeen seen rows
    → flag (currency_of row) seen ≡ false
    → AreDistinct (rows ++ row ∷ [])
append-AreDistinct seen [] row d h new = (tt, tt)
append-AreDistinct seen (r ∷ rows) row (others, d) (here, h) new = (
  All-append (λ (x : Row). (currency_of x == currency_of r) ≡ false) rows (row ∷ []) others
      (other_currency seen (currency_of r) (currency_of row) here new, tt),
  append-AreDistinct seen rows row d h new,
)

insert-AreSeen :
    (seen : Dict Bool) (name : String) (rows : List Row)
    → AreSeen seen rows
    → AreSeen (insert name true seen) rows
insert-AreSeen seen name [] h = tt
insert-AreSeen seen name (r ∷ rows) (here, h) =
    (ground (arith, flag-insert name (currency_of r) seen), insert-AreSeen seen name rows h)

pub once-kept :
    (count : ℕ) (attrs : Dict String) (reason : String) (s s' : Decoding)
    → once count attrs reason s ≡ ok s'
    → kept s ≡ kept s'
unfolding once
once-kept count attrs reason s s' e =
    let (_, same) = fail_if-eq-ok (not (nat_eq count 1) || not (is_empty attrs)) _ _ e in
    ap kept (ok_inj s s' same)

pub date_step-kept :
    (g : Go) (attrs : Dict String) (s s' : Decoding)
    → date_step g attrs s ≡ ok s'
    → kept s ≡ kept s'
unfolding date_step
date_step-kept g attrs s s' e =
    let date = attr_value "time" attrs in
    let (_, e₁) =
      fail_if-eq-ok
        (not (nat_eq (s.dates + 1) 1)
          || not (nat_eq (length attrs) 1)
          || not (nat_eq (len date) 10))
        _ _ e in
    let (_, same) = fail_if-eq-ok (not (g.is_date date)) _ _ e₁ in ap kept (ok_inj _ s' same)

pub quote_step-IsSound :
    (attrs : Dict String) (s s' : Decoding)
    → quote_step attrs s ≡ ok s'
    → IsSound (kept s)
    → IsSound (kept s')
unfolding quote_step
quote_step-IsSound attrs s s' e (all, few, distinct, seen) =
    let currency = attr_value "currency" attrs in
    let rate = attr_value "rate" attrs in
    let (valid, e₁) =
      fail_if-eq-ok
        (not (nat_eq (length attrs) 2)
          || not (is_currency_code currency)
          || currency == "EUR"
          || not (is_lexical_decimal rate)
          || is_trimmed_away rate)
        _ _ e in
    let (room, same) =
      fail_if-eq-ok (flag currency s.seen || leb max_ecb_rows (length s.rows)) _ _ e₁ in
    let new : flag currency s.seen ≡ false = ground arith in
    let q : IsQuote (quote_row s.date currency rate) = record {
      date = s.date;
      currency = currency;
      rate = rate;
      shape = refl;
      is_code = ground arith;
      foreign = ground arith;
      decimal = ground arith;
      positive = ground arith;
    } in
    subst (λ (d : Decoding). IsSound (kept d)) (ok_inj _ s' same)
      (
        All-append IsQuote s.rows (quote_row s.date currency rate ∷ []) all (q, tt),
        ground (arith, length-append s.rows (quote_row s.date currency rate ∷ [])),
        append-AreDistinct s.seen s.rows (quote_row s.date currency rate) distinct seen new,
        All-append (λ (r : Row). flag (currency_of r) (insert currency true s.seen) ≡ true) s.rows
            (quote_row s.date currency rate ∷ []) (insert-AreSeen s.seen currency s.rows seen)
            (ground (arith, flag-insert currency currency s.seen, eq_refl currency), tt),
      )
