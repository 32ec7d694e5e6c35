-- ===== src/EcbXml/Document.antt =====
-- The daily document of the ECB as tokens, and what ecb_xml.go reads from it.
use Prim.Native.String.{len}
use dalgo2http.Prelude.{
  ℕ, String, ◌≡◌, refl, ◌∙◌, Bool, true, false, List, [], ◌∷◌, ◌++◌, ◌+◌, map, arith, All, ◌==◌,
  Dict, insert, lookup,
}
use dalgo2http.Errors.{Result, ok}
use dalgo2http.Value.{Row}
use dalgo2http.Runtime.{
  Go, Token, Name, Attr, start_element, end_element, char_data, proc_inst, comment,
}
use dalgo2http.EcbXml.Lexical.{is_currency_code, is_lexical_decimal, is_trimmed_away, is_blank}
use dalgo2http.EcbXml.{
  gesmes_namespace, gesmes, cube, Decoding, start, quote_row, attr_value, attr_loop, element_case,
  date_step, once, case_step, start_step, drop_last, last_local, may_hold_text, token_step,
  token_loop,
}

pub record Rate : Type 0 where
  pub currency : String
  pub rate : String

abbrev pub to_row : String → Rate → Row
to_row date r = quote_row date r.currency r.rate

-- what the decoder asks of one quote
abbrev pub IsGood : Rate → Type 0
IsGood r =
    (is_currency_code r.currency ≡ true)
    × ((r.currency == "EUR") ≡ false)
    × (is_lexical_decimal r.rate ≡ true)
    × (is_trimmed_away r.rate ≡ false)

-- no currency occurs twice
abbrev pub AreDistinctRates : List Rate → Type 0
AreDistinctRates [] = Unit
AreDistinctRates (r ∷ rates) =
    All (λ (other : Rate). (r.currency == other.currency) ≡ false) rates × AreDistinctRates rates

abbrev pub attribute : String → String → Attr
attribute local value = record { name = record { space = ""; local = local }; value = value }

abbrev namespaces : List Attr
namespaces =
    record { name = record { space = "xmlns"; local = "gesmes" }; value = gesmes_namespace }
    ∷ attribute "xmlns" "http://www.ecb.int/vocabulary/2002-08-01/eurofxref"
    ∷ []

-- What may stand between the elements: blank text, and comments.
abbrev pub IsGap : Token → Type 0
IsGap (char_data text) = is_blank text ≡ true
IsGap comment = Unit
IsGap _ = ⊥

-- The document: a subject, a sender, and the rates of one date. Between the elements, and behind them,
-- stand the gaps, each of any number of tokens, and each another one.
module _ (gaps : ℕ → List Token) (title sender_title date : String) where
  abbrev pub gap : ℕ → List (Result Token) → List (Result Token)
  gap n rest = map ok (gaps n) ++ rest

  abbrev pub prolog : List (Result Token) → List (Result Token)
  prolog rest =
      ok (proc_inst "xml")
      ∷ gap 0 (
          ok (start_element (gesmes "Envelope") namespaces)
          ∷ gap 1 (
              ok (start_element (gesmes "subject") [])
              ∷ ok (char_data title)
              ∷ ok end_element
              ∷ gap 2 (
                  ok (start_element (gesmes "Sender") [])
                  ∷ gap 3 (
                      ok (start_element (gesmes "name") [])
                      ∷ ok (char_data sender_title)
                      ∷ ok end_element
                      ∷ gap 4 (
                          ok end_element
                          ∷ gap 5 (
                              ok (start_element cube [])
                              ∷ gap 6 (
                                  ok (start_element cube (attribute "time" date ∷ []))
                                  ∷ gap 7 rest)))))))

  abbrev pub rate_tokens : ℕ → List Rate → List (Result Token)
  rate_tokens n [] =
      ok end_element ∷ gap n (ok end_element ∷ gap (n + 1) (ok end_element ∷ gap (n + 2) []))
  rate_tokens n (r ∷ rates) =
      ok (start_element cube (attribute "currency" r.currency ∷ attribute "rate" r.rate ∷ []))
      ∷ ok end_element
      ∷ gap n (rate_tokens (n + 1) rates)

  abbrev pub daily_tokens : List Rate → List (Result Token)
  daily_tokens rates = prolog (rate_tokens 8 rates)

  -- the variables of the loop while the rates are read, and behind the document
  abbrev pub reading : List Row → Dict Bool → Decoding
  reading rows seen = record {
    stack = gesmes "Envelope" ∷ cube ∷ cube ∷ [];
    rows = rows;
    seen = seen;
    date = date;
    roots = 1;
    cubes = 1;
    dates = 1;
    subjects = 1;
    senders = 1;
    names = 1;
  }

  abbrev pub finished : List Row → Dict Bool → Decoding
  finished rows seen = record (reading rows seen) { stack = [] }

  -- and inside the envelope, before the rates
  abbrev opened : List Name → ℕ → ℕ → ℕ → ℕ → Decoding
  opened inner subjects senders names cubes = record start {
    stack = gesmes "Envelope" ∷ inner;
    roots = 1;
    subjects = subjects;
    senders = senders;
    names = names;
    cubes = cubes;
  }

  module _ (g : Go) (blank : (n : ℕ) → All IsGap (gaps n)) where
    pub run :
        (t : Token) (s s' : Decoding) (rest : List (Result Token))
        → token_step g t s ≡ ok s'
        → token_loop g (ok t ∷ rest) s ≡ token_loop g rest s'
    unfolding token_loop
    run t s s' rest e = rw e refl

    skip_gap :
        (tokens : List Token) (s : Decoding) (rest : List (Result Token))
        → All IsGap tokens
        → token_loop g (map ok tokens ++ rest) s ≡ token_loop g rest s
    unfolding token_step
    skip_gap [] s rest h = refl
    skip_gap (char_data text ∷ tokens) s rest (here, h) =
        run (char_data text) s s _ (rw here refl) ∙ skip_gap tokens s rest h
    skip_gap (comment ∷ tokens) s rest (here, h) = run comment s s _ refl ∙ skip_gap tokens s rest h
    skip_gap (_ ∷ tokens) s rest (here, h) = elim here [ ]

    pub run_gap :
        (n : ℕ) (s : Decoding) (rest : List (Result Token))
        → token_loop g (gap n rest) s ≡ token_loop g rest s
    run_gap n s rest = skip_gap (gaps n) s rest (blank n)

    run_text :
        (t : String) (s : Decoding) (rest : List (Result Token))
        → may_hold_text (last_local s.stack) ≡ true
        → token_loop g (ok (char_data t) ∷ rest) s ≡ token_loop g rest s
    unfolding token_step
    run_text t s rest may = run (char_data t) s s rest (ground (arith, may))

    pub token_loop-prolog :
        (rest : List (Result Token))
        → len date ≡ 10
        → g.is_date date ≡ true
        → token_loop g (prolog rest) start ≡ token_loop g rest (reading [] [])
    unfolding token_step start_step attr_loop element_case case_step once date_step attr_value
        drop_last last_local may_hold_text insert lookup
    token_loop-prolog rest ten valid =
        run (proc_inst "xml") start start _ refl
        ∙ run_gap 0 start _
        ∙ run (start_element (gesmes "Envelope") namespaces) start (opened [] 0 0 0 0) _ refl
        ∙ run_gap 1 (opened [] 0 0 0 0) _
        ∙ run (start_element (gesmes "subject") []) (opened [] 0 0 0 0)
            (opened (gesmes "subject" ∷ []) 1 0 0 0) _ refl
        ∙ run_text title (opened (gesmes "subject" ∷ []) 1 0 0 0) _ refl
        ∙ run end_element (opened (gesmes "subject" ∷ []) 1 0 0 0) (opened [] 1 0 0 0) _ refl
        ∙ run_gap 2 (opened [] 1 0 0 0) _
        ∙ run (start_element (gesmes "Sender") []) (opened [] 1 0 0 0)
            (opened (gesmes "Sender" ∷ []) 1 1 0 0) _ refl
        ∙ run_gap 3 (opened (gesmes "Sender" ∷ []) 1 1 0 0) _
        ∙ run (start_element (gesmes "name") []) (opened (gesmes "Sender" ∷ []) 1 1 0 0)
            (opened (gesmes "Sender" ∷ gesmes "name" ∷ []) 1 1 1 0) _ refl
        ∙ run_text sender_title (opened (gesmes "Sender" ∷ gesmes "name" ∷ []) 1 1 1 0) _ refl
        ∙ run end_element (opened (gesmes "Sender" ∷ gesmes "name" ∷ []) 1 1 1 0)
            (opened (gesmes "Sender" ∷ []) 1 1 1 0) _ refl
        ∙ run_gap 4 (opened (gesmes "Sender" ∷ []) 1 1 1 0) _
        ∙ run end_element (opened (gesmes "Sender" ∷ []) 1 1 1 0) (opened [] 1 1 1 0) _ refl
        ∙ run_gap 5 (opened [] 1 1 1 0) _
        ∙ run (start_element cube []) (opened [] 1 1 1 0) (opened (cube ∷ []) 1 1 1 1) _ refl
        ∙ run_gap 6 (opened (cube ∷ []) 1 1 1 1) _
        ∙ run (start_element cube (attribute "time" date ∷ [])) (opened (cube ∷ []) 1 1 1 1)
            (reading [] []) _ (rw (ten, valid) refl)
        ∙ run_gap 7 (reading [] []) rest
