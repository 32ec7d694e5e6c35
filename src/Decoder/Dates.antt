-- ===== src/Decoder/Dates.antt =====
-- What the decoder of the ECB's rates is given, and gives.
use dalgo2http.Prelude.{String, ◌≡◌, List, All}
use dalgo2http.Errors.{ok}
use dalgo2http.Value.{Row}
use dalgo2http.Runtime.{Go, Bytes}
use dalgo2http.Descriptor.{ecb_euro_fx_ref, Collection}
use dalgo2http.EcbXml.Dates.{Bears, decode_ecb_daily-Bears}
use dalgo2http.Decoder.{decode_with, decode_rows}

-- rows that the ECB's decoder gives bear one date
pub decode_rows-Bears :
    (g : Go) (coll : Collection) (body : Bytes) (rows : List Row)
    → coll.decoder ≡ ecb_euro_fx_ref
    → decode_rows g body coll ≡ ok rows
    → (date : String) × All (Bears date) rows
unfolding decode_rows decode_with
decode_rows-Bears g coll body rows ecb e =
    let (date, _, all) = decode_ecb_daily-Bears g body rows (rw (ecb, decode_with) at e) in
    (date, all)
