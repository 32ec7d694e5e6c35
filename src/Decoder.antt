-- ===== src/Decoder.antt =====
-- decoder.go: `decodeRows`. The names of the decoders, and `liveOnlyDecoder`, are in Descriptor, and
-- `validateDecoder` is in Config/Decoders.
pub mod Total
pub mod Dates
pub mod Replay
use dalgo2http.Prelude.{List}
use dalgo2http.Errors.{Result}
use dalgo2http.Value.{Row}
use dalgo2http.Runtime.{Go, Bytes}
use dalgo2http.Descriptor.{Decoder, ecb_euro_fx_ref, strict_csv3, Collection}
use dalgo2http.JsonPath.{extract_rows}
use dalgo2http.StrictCsv.{decode_strict_csv3}
use dalgo2http.EcbXml.{decode_ecb_daily}

decode_with : Go → Bytes → Decoder → Collection → Result (List Row)
decode_with g body ecb_euro_fx_ref coll = decode_ecb_daily g body
decode_with g body strict_csv3 coll = decode_strict_csv3 g body
decode_with g body _ coll = extract_rows g body coll.rows_path

unfoldable pub decode_rows : Go → Bytes → Collection → Result (List Row)
unfolding decode_with
decode_rows g body coll = decode_with g body coll.decoder coll
