-- ===== src/Decoder/Replay.antt =====
-- What a decoder reads of a body.
use dalgo2http.Prelude.{◌≡◌, refl, false}
use dalgo2http.Runtime.{Go, Bytes}
use dalgo2http.Descriptor.{
  Decoder, unset, json, ecb_euro_fx_ref, strict_csv3, Collection, live_only_decoder,
}
use dalgo2http.JsonPath.{extract_rows}
use dalgo2http.Decoder.{decode_with, decode_rows}

decode_with-json :
    (g : Go) (body body' : Bytes) (decoder : Decoder) (coll : Collection)
    → live_only_decoder decoder ≡ false
    → g.json_unmarshal body ≡ g.json_unmarshal body'
    → decode_with g body decoder coll ≡ decode_with g body' decoder coll
unfolding decode_with live_only_decoder extract_rows
decode_with-json g body body' ecb_euro_fx_ref coll h e = cc
decode_with-json g body body' strict_csv3 coll h e = cc
decode_with-json g body body' unset coll h e = rw e refl
decode_with-json g body body' json coll h e = rw e refl
decode_with-json g body body' (Decoder.other d) coll h e = rw e refl

-- a decoder that is not live only sees no more of a body than the JSON value
pub decode_rows-json :
    (g : Go) (body body' : Bytes) (coll : Collection)
    → live_only_decoder coll.decoder ≡ false
    → g.json_unmarshal body ≡ g.json_unmarshal body'
    → decode_rows g body coll ≡ decode_rows g body' coll
unfolding decode_rows
decode_rows-json g body body' coll h e = decode_with-json g body body' coll.decoder coll h e
