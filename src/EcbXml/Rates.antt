-- ===== src/EcbXml/Rates.antt =====
-- The rates of the ECB's daily document, as ecb_xml.go reads them.
use Prim.Native.String.{len}
use mathlib.Core.List.{append_assoc, append-nil}
use dalgo2http.Prelude.{
  ℕ, flag-insert, flag-nil, sym, ◌<◌, ◌+◌, ◌≤◌, String, ◌≡◌, refl, ◌∙◌, ap, Bool, true, false, List,
  [], ◌∷◌, ◌++◌, map, arith, All, ◌==◌, Dict, flag, insert, lookup, length, length-append, any, leb,
  ltb, nat_eq,
}
use dalgo2http.Errors.{Result, ok}
use dalgo2http.Value.{Row}
use dalgo2http.Runtime.{Go, Bytes, Token, Name, start_element, end_element}
use dalgo2http.Descriptor.{max_body_bytes}
use dalgo2http.EcbXml.{
  gesmes, cube, Decoding, attr_value, attr_loop, element_case, quote_step, case_step, start_step,
  drop_last, token_step, token_loop, decode_ecb_daily,
}
use dalgo2http.EcbXml.Document.{
  Rate, to_row, IsGood, AreDistinctRates, attribute, gap, rate_tokens, daily_tokens, reading,
  finished, IsGap, run, run_gap, token_loop-prolog,
}

-- a quote whose currency is another one leaves the flags of the rest as they are
still_fresh :
    (r : Rate) (seen : Dict Bool) (rates : List Rate)
    → All (λ (other : Rate). (r.currency == other.currency) ≡ false) rates
    → All (λ (other : Rate). flag other.currency seen ≡ false) rates
    → All (λ (other : Rate). flag other.currency (insert r.currency true seen) ≡ false) rates
still_fresh r seen [] others fresh = tt
still_fresh r seen (x ∷ rates) (other, others) (here, fresh) = (
  ground (arith, flag-insert r.currency x.currency seen, other, here),
  still_fresh r seen rates others fresh,
)

module _ (gaps : ℕ → List Token) (title sender_title date : String) (g : Go)
    (blank : (n : ℕ) → All IsGap (gaps n)) where
  -- inside a quote
  abbrev quoting : List Row → Dict Bool → Decoding
  quoting rows seen = record (reading gaps title sender_title date rows seen) {
    stack = gesmes "Envelope" ∷ cube ∷ cube ∷ cube ∷ [];
  }

  run_quote :
      (n : ℕ) (r : Rate) (rows : List Row) (seen : Dict Bool) (rest : List (Result Token))
      → IsGood r
      → flag r.currency seen ≡ false
      → length rows < 256
      → token_loop g
          (ok (start_element cube (attribute "currency" r.currency ∷ attribute "rate" r.rate ∷ []))
            ∷ ok end_element
            ∷ gap gaps title sender_title date n rest)
          (reading gaps title sender_title date rows seen)
        ≡ token_loop g rest (
            reading gaps title sender_title date
              (rows ++ to_row date r ∷ [])
              (insert r.currency true seen))
  unfolding token_step start_step attr_loop element_case case_step quote_step attr_value drop_last
      insert lookup
  run_quote n r rows seen rest (code, foreign, decimal, positive) fresh room =
      let small : leb 256 (length rows) ≡ false = ground arith in
      run gaps title sender_title date g blank
        (start_element cube (attribute "currency" r.currency ∷ attribute "rate" r.rate ∷ []))
        (reading gaps title sender_title date rows seen)
        (quoting (rows ++ to_row date r ∷ []) (insert r.currency true seen)) _
        (rw (code, foreign, decimal, positive, fresh, small) refl)
      ∙ run gaps title sender_title date g blank end_element
          (quoting (rows ++ to_row date r ∷ []) (insert r.currency true seen))
          (reading gaps title sender_title date (rows ++ to_row date r ∷ [])
            (insert r.currency true seen))
          _ refl
      ∙ run_gap gaps title sender_title date g blank n
          (reading gaps title sender_title date (rows ++ to_row date r ∷ [])
            (insert r.currency true seen))
          rest

  -- and behind the rates, behind the second cube
  abbrev closing : List Name → List Row → Dict Bool → Decoding
  closing stack rows seen = record (reading gaps title sender_title date rows seen) {
    stack = stack;
  }

  run_epilog :
      (n : ℕ) (rows : List Row) (seen : Dict Bool)
      → token_loop g
          (rate_tokens gaps title sender_title date n [])
          (reading gaps title sender_title date rows seen)
        ≡ ok (finished gaps title sender_title date rows seen)
  unfolding token_loop token_step drop_last
  run_epilog n rows seen =
      run_gap gaps title sender_title date g blank n
        (closing (gesmes "Envelope" ∷ cube ∷ []) rows seen) _
      ∙ run_gap gaps title sender_title date g blank (n + 1)
          (closing (gesmes "Envelope" ∷ []) rows seen) _
      ∙ run_gap gaps title sender_title date g blank (n + 2) (closing [] rows seen) []

  abbrev marked : List Rate → Dict Bool → Dict Bool
  marked [] seen = seen
  marked (r ∷ rates) seen = marked rates (insert r.currency true seen)

  token_loop-rates :
      (n : ℕ) (rates : List Rate) (rows : List Row) (seen : Dict Bool)
      → All IsGood rates
      → AreDistinctRates rates
      → All (λ (r : Rate). flag r.currency seen ≡ false) rates
      → length rows + length rates ≤ 256
      → token_loop g
          (rate_tokens gaps title sender_title date n rates)
          (reading gaps title sender_title date rows seen)
        ≡ ok (
            finished gaps title sender_title date
              (rows ++ map (to_row date) rates)
              (marked rates seen))
  token_loop-rates n [] rows seen good distinct fresh room =
      run_epilog n rows seen
      ∙ ap (λ rs. ok (finished gaps title sender_title date rs seen)) (sym (append-nil rows))
  token_loop-rates n (r ∷ rates) rows seen (here, good) (others, distinct) (new, fresh) room =
      run_quote n r rows seen (rate_tokens gaps title sender_title date (n + 1) rates) here new
        (omega (arith, room))
      ∙ token_loop-rates (n + 1) rates (rows ++ to_row date r ∷ []) (insert r.currency true seen)
          good distinct (still_fresh r seen rates others fresh)
          (omega (arith, room, length-append rows (to_row date r ∷ [])))
      ∙ ap (λ rs. ok (finished gaps title sender_title date rs (marked (r ∷ rates) seen)))
          (append_assoc rows (to_row date r ∷ []) (map (to_row date) rates))

no_flags : (rates : List Rate) → All (λ (r : Rate). flag r.currency [] ≡ false) rates
no_flags [] = tt
no_flags (r ∷ rates) = (flag-nil r.currency, no_flags rates)

-- Where the XML decoder reads a body as the daily document of a date and of some rates, with any
-- blank texts and comments, or none, in each gap between the elements and behind them, and the body is
-- within 2 MiB and has no ampersand, the date is one, and there are between 1 and 256 rates, each of a
-- currency code of its own other than EUR and of a positive decimal, the body is decoded to these rates
-- at this date, in order.
pub decode_ecb_daily-daily_tokens :
    (g : Go) (body : Bytes) (gaps : ℕ → List Token) (title sender_title date : String)
    (rates : List Rate)
    → g.xml_tokens body ≡ daily_tokens gaps title sender_title date rates
    → ((n : ℕ) → All IsGap (gaps n))
    → length body ≤ 2097152
    → any (λ b. nat_eq b b'&') body ≡ false
    → len date ≡ 10
    → g.is_date date ≡ true
    → All IsGood rates
    → AreDistinctRates rates
    → 1 ≤ length rates
    → length rates ≤ 256
    → decode_ecb_daily g body ≡ ok (map (to_row date) rates)
unfolding decode_ecb_daily
decode_ecb_daily-daily_tokens g body gaps title sender_title date (r ∷ rates) read blank small plain
      ten valid good distinct some few =
    let fits : ltb max_body_bytes (length body) ≡ false = ground (arith, small) in
    let looped =
      token_loop-prolog gaps title sender_title date g blank
        (rate_tokens gaps title sender_title date 8 (r ∷ rates)) ten valid
      ∙ token_loop-rates gaps title sender_title date g blank 8 (r ∷ rates) [] [] good distinct
          (no_flags (r ∷ rates)) (omega (arith, few)) in
    rw (fits, plain, read, looped) refl
decode_ecb_daily-daily_tokens g body gaps title sender_title date [] read blank small plain ten
      valid good distinct some few =
    absurd (omega (arith, some))
