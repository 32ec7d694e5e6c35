-- ===== src/EcbXml/Quotes.antt =====
-- What a decoded daily response of the ECB is.
use dalgo2http.Prelude.{
  ◌≤◌, String, ◌≡◌, ap, subst, false, not, ◌||◌, ◌&&◌, List, [], ◌∷◌, arith, All, length, ◌==◌,
  nat_eq, ltb, leb, any, is_empty, Dict,
}
use dalgo2http.Errors.{Result, ok, err, panic, >>=-eq-ok, fail_if-eq-ok, ok_inj}
use dalgo2http.Value.{Row}
use dalgo2http.Runtime.{
  Go, Bytes, Token, Name, Attr, start_element, end_element, char_data, directive, comment,
  proc_inst,
}
use dalgo2http.Descriptor.{max_body_bytes}
use dalgo2http.EcbXml.Lexical.{is_blank}
use dalgo2http.EcbXml.{
  Decoding, start, attr_loop, Case, envelope, subject, sender, sender_name, outer_cube, date_cube,
  quote, unexpected, element_case, case_step, start_step, drop_last, last_local, may_hold_text,
  token_step, token_loop, decode_ecb_daily,
}
use dalgo2http.EcbXml.Dates.{IsDate, Bears, decode_ecb_daily-Bears}
use dalgo2http.EcbXml.Rows.{
  IsQuote, AreDistinct, kept, IsSound, once-kept, date_step-kept, quote_step-IsSound,
}

case_step-IsSound :
    (g : Go) (c : Case) (attrs : Dict String) (s s' : Decoding)
    → case_step g c attrs s ≡ ok s'
    → IsSound (kept s)
    → IsSound (kept s')
unfolding case_step
case_step-IsSound g envelope attrs s s' e h = subst IsSound (once-kept _ attrs _ _ s' e) h
case_step-IsSound g subject attrs s s' e h = subst IsSound (once-kept _ attrs _ _ s' e) h
case_step-IsSound g sender attrs s s' e h = subst IsSound (once-kept _ attrs _ _ s' e) h
case_step-IsSound g sender_name attrs s s' e h = subst IsSound (once-kept _ attrs _ _ s' e) h
case_step-IsSound g outer_cube attrs s s' e h = subst IsSound (once-kept _ attrs _ _ s' e) h
case_step-IsSound g date_cube attrs s s' e h = subst IsSound (date_step-kept g attrs s s' e) h
case_step-IsSound g quote attrs s s' e h = quote_step-IsSound attrs s s' e h
case_step-IsSound g unexpected attrs s s' e h = cc

start_step-IsSound :
    (g : Go) (n : Name) (attributes : List Attr) (s s' : Decoding)
    → start_step g n attributes s ≡ ok s'
    → IsSound (kept s)
    → IsSound (kept s')
unfolding start_step
start_step-IsSound g n attributes s s' e h =
    let (_, e₁) = fail_if-eq-ok (leb 4 (length s.stack)) _ _ e in
    let (attrs, _, e₂) = >>=-eq-ok (attr_loop attributes [] []) _ e₁ in
    let (t, stepped, same) = >>=-eq-ok (case_step g (element_case s.stack n) attrs s) _ e₂ in
    subst IsSound (ap kept (ok_inj _ s' same))
      (case_step-IsSound g (element_case s.stack n) attrs s t stepped h)

token_step-IsSound :
    (g : Go) (t : Token) (s s' : Decoding)
    → token_step g t s ≡ ok s'
    → IsSound (kept s)
    → IsSound (kept s')
unfolding token_step
token_step-IsSound g (start_element n attributes) s s' e h =
    start_step-IsSound g n attributes s s' e h
token_step-IsSound g end_element s s' e h =
    let (stack, _, same) = >>=-eq-ok (drop_last s.stack) _ e in
    subst IsSound (ap kept (ok_inj _ s' same)) h
token_step-IsSound g (char_data t) s s' e h =
    let (_, same) =
      fail_if-eq-ok (not (is_blank t) && not (may_hold_text (last_local s.stack))) _ _ e in
    subst IsSound (ap kept (ok_inj s s' same)) h
token_step-IsSound g directive s s' e h = cc
token_step-IsSound g (proc_inst target) s s' e h =
    let (_, same) = fail_if-eq-ok (not (target == "xml") || not (nat_eq s.roots 0)) _ _ e in
    subst IsSound (ap kept (ok_inj s s' same)) h
token_step-IsSound g comment s s' e h = subst IsSound (ap kept (ok_inj s s' e)) h

token_loop-IsSound :
    (g : Go) (tokens : List (Result Token)) (s s' : Decoding)
    → token_loop g tokens s ≡ ok s'
    → IsSound (kept s)
    → IsSound (kept s')
unfolding token_loop
token_loop-IsSound g [] s s' e h = subst IsSound (ap kept (ok_inj s s' e)) h
token_loop-IsSound g (ok t ∷ tokens) s s' e h =
    let (u, stepped, later) = >>=-eq-ok (token_step g t s) _ e in
    token_loop-IsSound g tokens u s' later (token_step-IsSound g t s u stepped h)
token_loop-IsSound g (err x ∷ tokens) s s' e h = cc
token_loop-IsSound g (panic ∷ tokens) s s' e h = cc

-- A body that is decoded as the daily rates of the ECB has at most 2 MiB, and gives between 1 and 256
-- rows, each of which is a quote: a date, a currency code of three capitals other than EUR, and a
-- decimal rate other than zero. The date is the same in all rows, has ten bytes and is accepted by
-- `time.Parse`. No currency occurs twice.
pub decode_ecb_daily-IsQuote :
    (g : Go) (body : Bytes) (rows : List Row)
    → decode_ecb_daily g body ≡ ok rows
    → All IsQuote rows
      × AreDistinct rows
      × (1 ≤ length rows)
      × (length rows ≤ 256)
      × (length body ≤ 2097152)
      × ((date : String) × IsDate g date × All (Bears date) rows)
unfolding decode_ecb_daily
decode_ecb_daily-IsQuote g body rows e =
    let (small, e₁) = fail_if-eq-ok (ltb max_body_bytes (length body)) _ _ e in
    let (_, e₂) = fail_if-eq-ok (any (λ b. nat_eq b b'&') body) _ _ e₁ in
    let (s, decoded, e₃) = >>=-eq-ok (token_loop g (g.xml_tokens body) start) _ e₂ in
    let (complete, same) =
      fail_if-eq-ok
        (not (nat_eq s.roots 1)
          || not (nat_eq s.cubes 1)
          || not (nat_eq s.dates 1)
          || is_empty s.rows)
        _ _ e₃ in
    let (all, few, distinct, _) =
      token_loop-IsSound g (g.xml_tokens body) start s decoded (tt, omega arith, tt, tt) in
    let there : is_empty s.rows ≡ false = ground arith in
    subst
      (λ rs.
        All IsQuote rs
        × AreDistinct rs
        × (1 ≤ length rs)
        × (length rs ≤ 256)
        × (length body ≤ 2097152)
        × ((date : String) × IsDate g date × All (Bears date) rows))
      (ok_inj s.rows rows same)
      (
        all,
        distinct,
        not_empty s.rows there,
        few,
        ground arith,
        decode_ecb_daily-Bears g body rows e,
      )
  where
    not_empty : (rs : List Row) → is_empty rs ≡ false → 1 ≤ length rs
    not_empty [] h = cc
    not_empty (r ∷ rs) h = omega arith
