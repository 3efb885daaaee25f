-- ===== src/Lighthouse/State.antt =====
-- `Records`, `LighthouseState::new` and `LighthouseState::report`. The clock is an argument.
use sharerr_rs.Prelude.{
  Bool, Bytes, Option, Result, [], err, false, if◌then◌else◌, leb, length, list_eq, min, nat_eq,
  none, not, ok, some, true, ℕ, ◌&&◌, ◌*◌,
}
use sharerr_rs.Lighthouse.Hex.{eq_ignore_ascii_case, is_hex_32_bytes, to_ascii_lowercase}
use sharerr_rs.Lighthouse.Record.{Crates, EndpointRecord, verify}
use sharerr_rs.Prelude.HashMap.{HashMap, get, insert, retain}
use sharerr_rs.Prelude.Int.{i64_max, leb_ℤ, ltb_ℤ, pos, saturating_add, saturating_sub}

-- `now_epoch`: the seconds since the epoch, `none` for a clock before it.
unfoldable pub now_epoch : Option ℕ → ℕ
now_epoch none = 0
now_epoch (some secs) = min secs i64_max

abbrev pub max_future_skew_secs : ℕ
max_future_skew_secs = 5 * 60

abbrev pub record_ttl_secs : ℕ
record_ttl_secs = 30 * 24 * 60 * 60

abbrev pub max_records : ℕ
max_records = 10000

abbrev pub sweep_interval_secs : ℕ
sweep_interval_secs = 60

pub record Records : Type 0 where
  pub table : HashMap Bytes EndpointRecord
  pub last_sweep_at : ℕ

pub data ReportOutcome : Type 0 where
  accepted stale : ReportOutcome

pub data ReportError : Type 0 where
  bad_key_hash invalid_record future_timestamp full pubkey_mismatch : ReportError

abbrev pub Reply : Type 0
Reply = Result ReportError ReportOutcome

unfoldable pub new : Records
new = record { table = []; last_sweep_at = 0 }

-- `now.saturating_sub(signed_at) >= RECORD_TTL_SECS`
unfoldable pub is_expired : ℕ → EndpointRecord → Bool
is_expired now r = leb_ℤ (pos record_ttl_secs) (saturating_sub (pos now) r.signed_at)

-- `signed_at > now.saturating_add(MAX_FUTURE_SKEW_SECS)`
unfoldable pub is_future : ℕ → EndpointRecord → Bool
is_future now r = ltb_ℤ (saturating_add (pos now) (pos max_future_skew_secs)) r.signed_at

unfoldable pub store : Records → Bytes → EndpointRecord → Records
store s key_hash r = record s { table = insert key_hash r s.table }

-- The branch of `report` for a key hash that is in the table.
unfoldable pub report_known :
    EndpointRecord → Records → Bytes → EndpointRecord → ℕ → Reply × Records
report_known existing s key_hash r now =
    if not (is_expired now existing) && not (eq_ignore_ascii_case existing.pubkey r.pubkey)
    then (err pubkey_mismatch, s)
    else if leb_ℤ r.signed_at existing.signed_at
    then (ok stale, s)
    else (ok accepted, store s key_hash r)

unfoldable pub sweep : Records → ℕ → Records
sweep s now = record {
  table = retain (λ _ stored. not (is_expired now stored)) s.table;
  last_sweep_at = now;
}

-- The branch for a key hash that is not.
unfoldable pub report_new : Records → Bytes → EndpointRecord → ℕ → Reply × Records
report_new s key_hash r now =
    if leb max_records (length s.table)
    then (if ltb_ℤ (saturating_sub (pos now) (pos s.last_sweep_at)) (pos sweep_interval_secs)
        then (err full, s)
        else if leb max_records (length (sweep s now).table)
        then (err full, sweep s now)
        else (ok accepted, store (sweep s now) key_hash r))
    else (ok accepted, store s key_hash r)

abbrev pub report_slot :
    Option EndpointRecord → Records → Bytes → EndpointRecord → ℕ → Reply × Records
report_slot (some existing) s key_hash r now = report_known existing s key_hash r now
report_slot none s key_hash r now = report_new s key_hash r now

abbrev pub is_ok {ℓ κ} : {E : Type ℓ} {A : Type κ} → Result E A → Bool
is_ok (ok a) = true
is_ok (err e) = false

module _ (crates : Crates) where
  unfoldable pub report : Records → Bytes → EndpointRecord → ℕ → Reply × Records
  report s key_hash r now =
      let key = to_ascii_lowercase key_hash in
      if not (is_hex_32_bytes key)
      then (err bad_key_hash, s)
      else if not (is_ok (verify crates r))
      then (err invalid_record, s)
      else if is_future now r
      then (err future_timestamp, s)
      else report_slot (get key s.table) s key r now
