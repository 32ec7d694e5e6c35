-- ===== src/EcbXml/Dates.antt =====
-- The date of the rows of the ECB's document.
use dalgo2http.Prelude.{
  ℕ, ◌+◌, String, ◌≡◌, refl, subst, ◌⊎◌, inl, inr, true, false, not, ◌||◌, List, [], ◌∷◌, ◌++◌,
  arith, length, All, All-append, leb, ltb, any, nat_eq, is_empty, flag, Dict, ◌==◌,
}
use Prim.Native.String.{len}
use dalgo2http.Errors.{Result, ok, err, panic, >>=-eq-ok, fail_if-eq-ok, ok_inj}
use dalgo2http.Value.{Row}
use dalgo2http.Runtime.{
  Go, Bytes, Token, Name, start_element, end_element, char_data, directive, comment, proc_inst,
}
use dalgo2http.Descriptor.{max_body_bytes}
use dalgo2http.EcbXml.Lexical.{is_currency_code, is_lexical_decimal, is_trimmed_away}
use dalgo2http.EcbXml.Stack.{in_date, opens_other, push-in_date, drop_last-in_date, quote-in_date}
use dalgo2http.EcbXml.{
  max_ecb_rows, Decoding, start, attr_value, attr_loop, Case, envelope, subject, sender,
  sender_name, outer_cube, date_cube, quote, unexpected, element_case, quote_row, date_step,
  quote_step, once, case_step, start_step, drop_last, token_step, token_loop, decode_ecb_daily,
}

-- a quote of the date
abbrev pub Bears : String → Row → Type 0
Bears date row = (currency : String) × (rate : String) × (row ≡ quote_row date currency rate)

module _ (g : Go) where
  -- a text that stands for a calendar date
  abbrev pub IsDate : String → Type 0
  IsDate date = (len date ≡ 10) × (g.is_date date ≡ true)

  abbrev Before : Decoding → Type 0
  Before s = (s.dates ≡ 0) × (s.rows ≡ []) × (in_date s.stack ≡ false)

  abbrev Behind : Decoding → Type 0
  Behind s = (s.dates ≡ 1) × IsDate s.date × All (Bears s.date) s.rows

  -- Either no date was met, and no quote, and no element in which a quote may stand is open; or one
  -- date was met, and every row bears it.
  abbrev IsDated : Decoding → Type 0
  IsDated s = Before s ⊎ Behind s

  pushed-IsDated :
      (c : Case) (n : Name) (s : Decoding)
      → element_case s.stack n ≡ c
      → opens_other c ≡ true
      → IsDated s
      → IsDated (record s { stack = s.stack ++ n ∷ [] })
  pushed-IsDated c n s e h (inl (dates, rows, out)) =
      inl (dates, rows, push-in_date n s.stack c e h out)
  pushed-IsDated c n s e h (inr behind) = inr behind

  once-IsDated :
      (count : ℕ) (attrs : Dict String) (reason : String) (stack : List Name) (s s' : Decoding)
      → once count attrs reason s ≡ ok s'
      → IsDated (record s { stack = stack })
      → IsDated (record s' { stack = stack })
  unfolding once
  once-IsDated count attrs reason stack s s' e h =
      let (_, same) = fail_if-eq-ok (not (nat_eq count 1) || not (is_empty attrs)) _ _ e in
      subst (λ u. IsDated (record u { stack = stack })) (ok_inj s s' same) h

  date_step-IsDated :
      (attrs : Dict String) (stack : List Name) (s s' : Decoding)
      → date_step g attrs s ≡ ok s'
      → IsDated s
      → IsDated (record s' { stack = stack })
  unfolding date_step
  date_step-IsDated attrs stack s s' e h =
      let date = attr_value "time" attrs in
      let (one, e₁) =
        fail_if-eq-ok
          (not (nat_eq (s.dates + 1) 1)
            || not (nat_eq (length attrs) 1)
            || not (nat_eq (len date) 10))
          _ _ e in
      let (valid, same) = fail_if-eq-ok (not (g.is_date date)) _ _ e₁ in
      subst (λ u. IsDated (record u { stack = stack })) (ok_inj _ s' same)
        (elim h [
          | inl (dates, rows, out) ↦ inr (ground arith, (ground arith, ground arith), rw rows tt)
          | inr (dates, _, _) ↦ absurd (ground arith)
        ])

  quote_step-IsDated :
      (attrs : Dict String) (stack : List Name) (s s' : Decoding)
      → quote_step attrs s ≡ ok s'
      → in_date s.stack ≡ true
      → IsDated s
      → IsDated (record s' { stack = stack })
  unfolding quote_step
  quote_step-IsDated attrs stack s s' e inside (inl (_, _, out)) = absurd (cc)
  quote_step-IsDated attrs stack s s' e inside (inr (dates, date, all)) =
      let currency = attr_value "currency" attrs in
      let rate = attr_value "rate" attrs in
      let (_, e₁) =
        fail_if-eq-ok
          (not (nat_eq (length attrs) 2)
            || not (is_currency_code currency)
            || currency == "EUR"
            || not (is_lexical_decimal rate)
            || is_trimmed_away rate)
          _ _ e in
      let (_, same) =
        fail_if-eq-ok (flag currency s.seen || leb max_ecb_rows (length s.rows)) _ _ e₁ in
      let row = quote_row s.date currency rate in
      subst (λ u. IsDated (record u { stack = stack })) (ok_inj _ s' same)
        (inr (
          dates,
          date,
          All-append (Bears s.date) s.rows (row ∷ []) all ((currency, rate, refl), tt),
        ))

  case_step-IsDated :
      (c : Case) (n : Name) (attrs : Dict String) (s s' : Decoding)
      → element_case s.stack n ≡ c
      → case_step g c attrs s ≡ ok s'
      → IsDated s
      → IsDated (record s' { stack = s.stack ++ n ∷ [] })
  unfolding case_step
  case_step-IsDated envelope n attrs s s' c e h =
      once-IsDated _ _ _ _ _ s' e (pushed-IsDated envelope n s c refl h)
  case_step-IsDated subject n attrs s s' c e h =
      once-IsDated _ _ _ _ _ s' e (pushed-IsDated subject n s c refl h)
  case_step-IsDated sender n attrs s s' c e h =
      once-IsDated _ _ _ _ _ s' e (pushed-IsDated sender n s c refl h)
  case_step-IsDated sender_name n attrs s s' c e h =
      once-IsDated _ _ _ _ _ s' e (pushed-IsDated sender_name n s c refl h)
  case_step-IsDated outer_cube n attrs s s' c e h =
      once-IsDated _ _ _ _ _ s' e (pushed-IsDated outer_cube n s c refl h)
  case_step-IsDated date_cube n attrs s s' c e h = date_step-IsDated attrs _ s s' e h
  case_step-IsDated quote n attrs s s' c e h =
      quote_step-IsDated attrs _ s s' e (quote-in_date s.stack n c) h
  case_step-IsDated unexpected n attrs s s' c e h = cc

  token_step-IsDated :
      (t : Token) (s s' : Decoding) → token_step g t s ≡ ok s' → IsDated s → IsDated s'
  unfolding token_step start_step
  token_step-IsDated (start_element n attributes) s s' e h =
      let (_, e₁) = fail_if-eq-ok (leb 4 (length s.stack)) _ _ e in
      let (attrs, _, e₂) = >>=-eq-ok (attr_loop attributes [] []) _ e₁ in
      let (u, stepped, same) = >>=-eq-ok (case_step g (element_case s.stack n) attrs s) _ e₂ in
      subst IsDated (ok_inj _ s' same)
        (case_step-IsDated (element_case s.stack n) n attrs s u refl stepped h)
  token_step-IsDated end_element s s' e h =
      let (stack, dropped, same) = >>=-eq-ok (drop_last s.stack) _ e in
      subst IsDated (ok_inj _ s' same) (elim h [
        | inl (dates, rows, out) ↦ inl (dates, rows, drop_last-in_date s.stack stack dropped out)
        | inr behind ↦ inr behind
      ])
  token_step-IsDated (char_data text) s s' e h =
      let (_, same) = fail_if-eq-ok _ _ _ e in subst IsDated (ok_inj s s' same) h
  token_step-IsDated directive s s' e h = cc
  token_step-IsDated comment s s' e h = subst IsDated (ok_inj s s' e) h
  token_step-IsDated (proc_inst target) s s' e h =
      let (_, same) = fail_if-eq-ok _ _ _ e in subst IsDated (ok_inj s s' same) h

  token_loop-IsDated :
      (tokens : List (Result Token)) (s s' : Decoding)
      → token_loop g tokens s ≡ ok s'
      → IsDated s
      → IsDated s'
  unfolding token_loop
  token_loop-IsDated [] s s' e h = subst IsDated (ok_inj s s' e) h
  token_loop-IsDated (ok t ∷ tokens) s s' e h =
      let (u, stepped, later) = >>=-eq-ok (token_step g t s) _ e in
      token_loop-IsDated tokens u s' later (token_step-IsDated t s u stepped h)
  token_loop-IsDated (err x ∷ tokens) s s' e h = cc
  token_loop-IsDated (panic ∷ tokens) s s' e h = cc

  -- All rows that are decoded of the ECB's document bear one date, and that is a text of ten bytes which
  -- `time.Parse` accepts.
  pub decode_ecb_daily-Bears :
      (body : Bytes) (rows : List Row)
      → decode_ecb_daily g body ≡ ok rows
      → (date : String) × IsDate date × All (Bears date) rows
  unfolding decode_ecb_daily
  decode_ecb_daily-Bears body rows e =
      let (_, e₁) = fail_if-eq-ok (ltb max_body_bytes (length body)) _ _ e in
      let (_, e₂) = fail_if-eq-ok (any (λ b. nat_eq b b'&') body) _ _ e₁ in
      let (s, decoded, e₃) = >>=-eq-ok (token_loop g (g.xml_tokens body) start) _ e₂ in
      let (complete, same) =
        fail_if-eq-ok
          (not (nat_eq s.roots 1)
            || not (nat_eq s.cubes 1)
            || not (nat_eq s.dates 1)
            || is_empty s.rows)
          _ _ e₃ in
      subst (λ rs. (date : String) × IsDate date × All (Bears date) rs) (ok_inj s.rows rows same)
        (elim (token_loop-IsDated (g.xml_tokens body) start s decoded (inl (refl, refl, refl))) [
          | inl (dates, _, _) ↦ absurd (ground arith)
          | inr (dates, date, all) ↦ (s.date, date, all)
        ])
