-- ===== src/Bencode/Tests.antt =====
-- Runs of the decoder on the inputs of the source's tests, and the theorems at concrete values.
use sharerr_rs.Prelude.{Bytes, arith, codes, err, ok, refl, ◌∷◌, ◌≡◌}
use sharerr_rs.Bencode.Decode.{
  decode, key_not_a_string, malformed_integer, trailing_bytes, truncated, unexpected,
}
use sharerr_rs.Bencode.Encode.{encode}
use sharerr_rs.Bencode.Reread.{decode-encode_decoded, decode_padded}
use sharerr_rs.Bencode.RoundTrip.{decode-encode}
use sharerr_rs.Bencode.Total.{Post, decode-Post}
use sharerr_rs.Bencode.Value.{Fits, Value, bytes, cons, dict, end, entry, int, lex_ltb, list, nil}
use sharerr_rs.Prelude.Int.{negsuc, pos}

-- {"announce": "u", "info": {"length": -42, "pieces": ["ab", 0]}}
abbrev sample : Value
sample = dict (
    entry (codes "announce") (bytes (codes "u")) (
      entry (codes "info")
        (dict (
          entry (codes "length") (int (negsuc 41)) (
            entry (codes "pieces") (list (cons (bytes (codes "ab")) (cons (int (pos 0)) nil)))
              end)))
        end))

abbrev sample_text : Bytes
sample_text = codes "d8:announce1:u4:infod6:lengthi-42e6:piecesl2:abi0eeee"

sample_written : encode sample ≡ sample_text
unfolding encode
sample_written = refl

sample_read : decode sample_text ≡ ok sample
unfolding decode
sample_read = refl

refusals :
    (decode (codes "i03e") ≡ err (malformed_integer 0))
    × (decode (codes "i-0e") ≡ err (malformed_integer 0))
    × (decode (codes "5:abc") ≡ err truncated)
    × (decode (codes "di1e1:ae") ≡ err (key_not_a_string 1))
    × (decode (codes "i1ei2e") ≡ err (trailing_bytes 3))
    × (decode (codes "x") ≡ err (unexpected 120 0))
unfolding decode
refusals = (refl, refl, refl, refl, refl, refl)

sample-Fits : Fits 0 sample
unfolding Fits lex_ltb
sample-Fits = ground arith

decode-encode_example : decode (encode sample) ≡ ok sample
unfolding encode
decode-encode_example = decode-encode sample sample-Fits (omega arith)

decode-Post_example : Post (Fits 0) (decode (codes "d1:b1:x1:ai7ee"))
decode-Post_example = decode-Post (codes "d1:b1:x1:ai7ee")

-- Keys out of order are sorted.
abbrev sorted : Value
sorted = dict (entry (codes "a") (int (pos 7)) (entry (codes "b") (bytes (codes "x")) end))

unsorted_read : decode (codes "d1:b1:x1:ai7ee") ≡ ok sorted
unfolding decode
unsorted_read = refl

decode-encode_decoded_example : decode (encode sorted) ≡ ok sorted
unfolding encode
decode-encode_decoded_example =
    decode-encode_decoded (codes "d1:b1:x1:ai7ee") sorted unsorted_read (omega arith)

decode_padded_example :
    (decode (b'0' ∷ encode (bytes (codes "abc"))) ≡ ok (bytes (codes "abc")))
    × (decode (encode (bytes (codes "abc"))) ≡ ok (bytes (codes "abc")))
unfolding encode
decode_padded_example = decode_padded (codes "abc") (omega arith)
