-- ===== src/Lighthouse/Expiry.antt =====
-- The two tests on timestamps, freed from the saturating arithmetic.
use sharerr_rs.Prelude.{arith, false, leb, true, ℕ, ◌+◌, ◌≡◌, ◌≤◌}
use sharerr_rs.Lighthouse.Record.{EndpointRecord}
use sharerr_rs.Lighthouse.State.{is_expired, is_future, max_future_skew_secs, record_ttl_secs}
use sharerr_rs.Prelude.Int.{IsI64, neg_part, pos, pos_part, saturating_add, saturating_sub, ◌≤ℤ◌}

pub is_expired_lem :
    (now : ℕ) (r : EndpointRecord)
    → is_expired now r ≡ leb (record_ttl_secs + pos_part r.signed_at) (now + neg_part r.signed_at)
unfolding is_expired saturating_sub
is_expired_lem now r = ground arith

-- A record that passes the test is signed at most the allowed skew ahead of the clock.
pub is_future_bound :
    (now : ℕ) (r : EndpointRecord)
    → is_future now r ≡ false
    → r.signed_at ≤ℤ pos (now + max_future_skew_secs)
unfolding is_future saturating_add
is_future_bound now r h = ground arith

-- The test refuses no `i64` within the skew.
pub is_future_complete :
    (now : ℕ) (r : EndpointRecord)
    → IsI64 r.signed_at
    → r.signed_at ≤ℤ pos (now + max_future_skew_secs)
    → is_future now r ≡ false
unfolding is_future saturating_add
is_future_complete now r h k = ground arith

-- Once expired, always expired.
pub is_expired_mono :
    (t now : ℕ) (r : EndpointRecord) → t ≤ now → is_expired t r ≡ true → is_expired now r ≡ true
is_expired_mono t now r le h = ground (arith, is_expired_lem t r, is_expired_lem now r)
