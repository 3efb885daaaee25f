-- ===== src/Lighthouse/Record.antt =====
-- The wire protocol: records, `verify`, `hash_key`, and the libraries that they rest on.
use sharerr_rs.Prelude.{Bool, Bytes, List, Option, Result, err, if◌then◌else◌, none, ok, some, ℕ}
use sharerr_rs.Prelude.Int.{ℤ}

pub record RecordEndpoint : Type 0 where
  pub kind : Bytes
  pub addr : Bytes
  pub observed_at : ℤ

pub record EndpointRecord : Type 0 where
  pub pubkey : Bytes
  pub endpoints : List RecordEndpoint
  pub signed_at : ℤ
  pub signature : Bytes

-- The crates that are called: `hex`, `ed25519_dalek`, `serde_json` and `sha2`.
pub record Crates : Type 1 where
  pub VerifyingKey : Type 0
  -- `hex::decode_to_slice` into a slice of that many bytes
  pub hex_decode : ℕ → Bytes → Option Bytes
  pub hex_encode : Bytes → Bytes
  pub key_from_bytes : Bytes → Option VerifyingKey
  pub verify_signature : VerifyingKey → Bytes → Bytes → Bool
  -- `serde_json::to_vec` of the three signed fields
  pub signable_json : Bytes → List RecordEndpoint → ℤ → Option Bytes
  pub sha256 : Bytes → Bytes

pub data VerifyError : Type 0 where
  bad_pubkey_hex bad_pubkey bad_signature_hex not_serialised no_match : VerifyError

module _ (crates : Crates) where
  open crates use {
    VerifyingKey, hex_decode, hex_encode, key_from_bytes, verify_signature, signable_json, sha256,
  }

  unfoldable pub signable_bytes : Bytes → List RecordEndpoint → ℤ → Option Bytes
  signable_bytes pubkey endpoints signed_at = signable_json pubkey endpoints signed_at

  abbrev pub or_fail {ℓ} : {A : Type ℓ} → Option A → VerifyError → Result VerifyError A
  or_fail none e = err e
  or_fail (some a) e = ok a

  infixl 5 ◌>>=◌
  abbrev pub ◌>>=◌ {ℓ κ} :
      {A : Type ℓ} {B : Type κ}
      → Result VerifyError A
      → (A → Result VerifyError B)
      → Result VerifyError B
  ok a >>= f = f a
  err e >>= f = err e

  unfoldable pub verify : EndpointRecord → Result VerifyError (Unit {0})
  unfolding signable_bytes
  verify r = do
    key_bytes ← or_fail (hex_decode 32 r.pubkey) bad_pubkey_hex
    key ← or_fail (key_from_bytes key_bytes) bad_pubkey
    signature ← or_fail (hex_decode 64 r.signature) bad_signature_hex
    bytes ← or_fail (signable_bytes r.pubkey r.endpoints r.signed_at) not_serialised
    if verify_signature key bytes signature then ok tt else err no_match

  unfoldable pub hash_key : Bytes → Bytes
  hash_key raw_key = hex_encode (sha256 raw_key)
