-- ===== src/Lighthouse/Lookup.antt =====
-- `LighthouseState::lookup`, `decoy` and `derive`, and the handler of a lookup.
use sharerr_rs.Prelude.{
  Bytes, [], codes, get_or, if◌then◌else◌, list_eq, nat_eq, none, some, ℕ, ◌%◌, ◌*◌, ◌++◌, ◌+◌, ◌-◌,
  ◌==◌, ◌^◌, ◌||◌, ◌∷◌,
}
use sharerr_rs.Lighthouse.Hex.{is_hex_32_bytes}
use sharerr_rs.Lighthouse.Record.{Crates, EndpointRecord, hash_key}
use sharerr_rs.Lighthouse.State.{Records}
use sharerr_rs.Prelude.Decimal.{decimal}
use sharerr_rs.Prelude.HashMap.{get}
use sharerr_rs.Prelude.Int.{pos, ◌-ℤ◌}

-- What the decoy secret is, and what is called besides `Crates`: `str::to_lowercase`, which is
-- Unicode's.
pub record Server : Type 1 where
  pub crates : Crates
  pub decoy_secret : Bytes
  pub to_lowercase : Bytes → Bytes

-- The clamp of a decoy's first octet.
unfoldable pub octet : ℕ → ℕ
octet b = if b == 0 || b == 10 || b == 127 || b == 255 then 1 else b

-- `<< 8 |` of two bytes is a sum: the low byte is free.
unfoldable pub be_16 : ℕ → ℕ → ℕ
be_16 hi lo = hi * 2 ^ 8 + lo

unfoldable pub be_32 : ℕ → ℕ → ℕ → ℕ → ℕ
be_32 a b c d = a * 2 ^ 24 + b * 2 ^ 16 + c * 2 ^ 8 + d

unfoldable pub decoy_port : ℕ → ℕ → ℕ
unfolding be_16
decoy_port hi lo = 1024 + be_16 hi lo % (65535 - 1024)

module _ (server : Server) where
  open server use {crates, decoy_secret, to_lowercase, crates.{sha256, hex_encode}}

  unfoldable pub derive : Bytes → Bytes → Bytes
  derive label key_hash = sha256 (decoy_secret ++ (label ++ key_hash))

  unfoldable pub decoy_addr : Bytes → Bytes
  unfolding octet decoy_port decimal
  decoy_addr bytes =
      let at = λ (i : ℕ). get_or bytes i 0 in
      decimal (octet (at 0))
      ++ (b'.' ∷ decimal (at 1)
          ++ (b'.' ∷ decimal (at 2)
              ++ (b'.' ∷ decimal (at 3) ++ (b':' ∷ decimal (decoy_port (at 4) (at 5))))))

  unfoldable pub decoy_offset : Bytes → ℕ
  unfolding be_32
  decoy_offset bytes =
      be_32 (get_or bytes 0 0) (get_or bytes 1 0) (get_or bytes 2 0) (get_or bytes 3 0) % 86400

  unfoldable pub decoy : Bytes → ℕ → EndpointRecord
  unfolding derive decoy_addr decoy_offset ◌-ℤ◌
  decoy key_hash now =
      let signed_at = pos now -ℤ pos (decoy_offset (derive (codes "signed_at") key_hash)) in
      record {
        pubkey = hex_encode (derive (codes "pubkey") key_hash);
        endpoints =
            record {
              kind = codes "tracker";
              addr = decoy_addr (derive (codes "addr") key_hash);
              observed_at = signed_at;
            }
            ∷ [];
        signed_at = signed_at;
        signature = hex_encode (derive (codes "sig-a") key_hash ++ derive (codes "sig-b") key_hash);
      }

  unfoldable pub lookup : Records → Bytes → ℕ → EndpointRecord
  lookup s key_hash now = elim (get key_hash s.table) [
    | some stored ↦ stored
    | none ↦ decoy key_hash now
  ]

  -- The handler: a malformed key hash is hashed, so it gets a record too.
  unfoldable pub lookup_handler : Records → Bytes → ℕ → EndpointRecord
  unfolding lookup
  lookup_handler s raw now =
      let key_hash = to_lowercase raw in
      lookup s (if is_hex_32_bytes key_hash then key_hash else hash_key crates key_hash) now
