-- ===== src/Decoder/Total.antt =====
-- Panics of decoding.
use dalgo2http.Prelude.{◌≡◌, ◌≤◌, List, All, length}
use dalgo2http.Errors.{ok, Returns, Raises-Returns}
use dalgo2http.Value.{Row}
use dalgo2http.Runtime.{Go, Bytes}
use dalgo2http.Descriptor.{Decoder, unset, json, ecb_euro_fx_ref, strict_csv3, Collection}
use dalgo2http.JsonPath.Total.{extract_rows-Returns}
use dalgo2http.StrictCsv.Rows.{IsThree}
use dalgo2http.StrictCsv.Failures.{decode_strict_csv3-IsCsvError, IsCsvError}
use dalgo2http.EcbXml.Failures.{AreNested, IsXmlError, decode_ecb_daily-IsXmlError}
use dalgo2http.EcbXml.Rows.{IsQuote}
use dalgo2http.EcbXml.Quotes.{decode_ecb_daily-IsQuote}
use dalgo2http.Decoder.{decode_with, decode_rows}

-- What the decoders rely on: the libraries return, the CSV reader keeps to the number of fields that
-- it is told, and the XML decoder lets no element end that is not open.
pub record IsSound (g : Go) : Type 0 where
  pub json_returns : (body : Bytes) → Returns (g.json_unmarshal body)
  pub csv_keeps : (body : Bytes) → All IsThree (g.csv_reader 3 body)
  pub xml_nests : (body : Bytes) → AreNested 0 (g.xml_tokens body)

decode_with-Returns :
    (g : Go) (body : Bytes) (decoder : Decoder) (coll : Collection)
    → IsSound g
    → Returns (decode_with g body decoder coll)
unfolding decode_with
decode_with-Returns g body ecb_euro_fx_ref coll h =
    Raises-Returns IsXmlError _ (decode_ecb_daily-IsXmlError g body (h.xml_nests body))
decode_with-Returns g body strict_csv3 coll h =
    Raises-Returns IsCsvError _ (decode_strict_csv3-IsCsvError g body (h.csv_keeps body))
decode_with-Returns g body unset coll h =
    extract_rows-Returns g body coll.rows_path (h.json_returns body)
decode_with-Returns g body json coll h =
    extract_rows-Returns g body coll.rows_path (h.json_returns body)
decode_with-Returns g body (Decoder.other d) coll h =
    extract_rows-Returns g body coll.rows_path (h.json_returns body)

-- Decoding a body never panics, whatever the decoder.
pub decode_rows-Returns :
    (g : Go) (body : Bytes) (coll : Collection) → IsSound g → Returns (decode_rows g body coll)
unfolding decode_rows
decode_rows-Returns g body coll h = decode_with-Returns g body coll.decoder coll h

-- what a decoder's rows have, as far as the provenance reads them: quotes, and one at least
abbrev pub HasDate : Decoder → List Row → Type 0
HasDate ecb_euro_fx_ref rows = All IsQuote rows × (1 ≤ length rows)
HasDate _ rows = Unit

decode_with-HasDate :
    (g : Go) (body : Bytes) (decoder : Decoder) (coll : Collection) (rows : List Row)
    → decode_with g body decoder coll ≡ ok rows
    → HasDate decoder rows
unfolding decode_with
decode_with-HasDate g body ecb_euro_fx_ref coll rows e =
    let (quotes, _, there, _, _, _) = decode_ecb_daily-IsQuote g body rows e in (quotes, there)
decode_with-HasDate g body strict_csv3 coll rows e = tt
decode_with-HasDate g body unset coll rows e = tt
decode_with-HasDate g body json coll rows e = tt
decode_with-HasDate g body (Decoder.other d) coll rows e = tt

pub decode_rows-HasDate :
    (g : Go) (body : Bytes) (coll : Collection) (rows : List Row)
    → decode_rows g body coll ≡ ok rows
    → HasDate coll.decoder rows
unfolding decode_rows
decode_rows-HasDate g body coll rows e = decode_with-HasDate g body coll.decoder coll rows e
