-- ===== src/Bencode/Reread.antt =====
-- Reading a file and writing it back.
use sharerr_rs.Prelude.{
  Bytes, [], append-nil, arith, length, ok, refl, subst, ◌*◌, ◌<◌, ◌∷◌, ◌≡◌, ◌≤◌,
}
use sharerr_rs.Bencode.Decode.{decode, finish}
use sharerr_rs.Bencode.Encode.{encode, write_bytes}
use sharerr_rs.Bencode.Pieces.{byte_string-padded, byte_string-write_bytes}
use sharerr_rs.Bencode.RoundTrip.{Starts, Starts-write_bytes, bytes_step, decode-encode}
use sharerr_rs.Bencode.Total.{Post, decode-Post}
use sharerr_rs.Bencode.Value.{Fits, Value, bytes, usize_max}
use sharerr_rs.Prelude.Decimal.{is_digit}

-- Re-encoding what was decoded, from whatever input, and decoding that gives the same value: the
-- bytes settle in one round, if they are no more than a `usize` counts.
pub decode-encode_decoded :
    (input : Bytes) (v : Value)
    → decode input ≡ ok v
    → length (encode v) ≤ usize_max
    → decode (encode v) ≡ ok v
decode-encode_decoded input v h room =
    decode-encode v (subst (Post (Fits 0)) h (decode-Post input)) room

-- Two values within the decoder's reach have different encodings.
pub encode_injective :
    (v w : Value)
    → Fits 0 v
    → Fits 0 w
    → length (encode v) ≤ usize_max
    → encode v ≡ encode w
    → v ≡ w
encode_injective v w hv hw room e =
    cc (decode-encode v hv room, decode-encode w hw (subst (λ s. length s ≤ usize_max) e room), e)

-- A byte string whose length is padded with a zero decodes to the same value as its encoding, so
-- two byte sequences stand for one value.
pub decode_padded :
    (b : Bytes)
    → length (encode (bytes b)) < usize_max
    → (decode (b'0' ∷ encode (bytes b)) ≡ ok (bytes b)) × (decode (encode (bytes b)) ≡ ok (bytes b))
unfolding decode encode finish
decode_padded b room = (
  ground (
    arith,
    bytes_step (2 * length (b'0' ∷ write_bytes b)) 0 0 (b'0' ∷ write_bytes b) refl,
    byte_string-padded b [] 0,
    append-nil (write_bytes b),
  ),
  ground (
    arith,
    bytes_step (2 * length (write_bytes b)) 0 0 (write_bytes b)
        (subst (Starts is_digit) (append-nil (write_bytes b)) (Starts-write_bytes b [])),
    byte_string-write_bytes b [] 0,
    append-nil (write_bytes b),
  ),
)
