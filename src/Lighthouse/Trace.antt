-- ===== src/Lighthouse/Trace.antt =====
-- Sequences of reports, each with the clock at its arrival.
use sharerr_rs.Prelude.{
  All, Bytes, List, Option, [], arith, false, inl, length, list_eq, list_eqb_iff, nat_eq, none, not,
  ok, refl, some, sym, true, ℕ, ◌+◌, ◌∙◌, ◌∷◌, ◌≡◌, ◌≢◌, ◌≤◌, ◌⊎◌,
}
use sharerr_rs.Lighthouse.Expiry.{is_expired_lem, is_future_bound}
use sharerr_rs.Lighthouse.Hex.{
  eq_ignore_ascii_case, is_hex_32_bytes, is_hex_32_bytes-lower, to_ascii_lowercase,
  to_ascii_lowercase_idem,
}
use sharerr_rs.Lighthouse.Record.{Crates, EndpointRecord, verify}
use sharerr_rs.Lighthouse.Report.{report-Slot, report_accepted, report_renewal}
use sharerr_rs.Lighthouse.State.{
  Records, accepted, is_expired, is_future, is_ok, max_future_skew_secs, max_records, new,
  record_ttl_secs, report, report_known, report_new, report_slot, store, sweep,
}
use sharerr_rs.Prelude.HashMap.{
  Distinct, Distinct-insert, Distinct-retain, get, length-insert-le, length-insert_old,
  length-retain-le, retain,
}
use sharerr_rs.Prelude.Int.{pos, ◌<ℤ◌, ◌≤ℤ◌}

pub record Arrival : Type 0 where
  pub key_hash : Bytes
  pub sent : EndpointRecord
  pub now : ℕ

module _ (crates : Crates) where
  unfoldable pub after : Records → Arrival → Records
  after s a = (report crates s a.key_hash a.sent a.now).1

  unfoldable pub run : Records → List Arrival → Records
  run s [] = s
  run s (a ∷ rest) = run (after s a) rest

  -- What holds of a stored record, at a clock that no arrival has passed.
  pub record IsGenuine (t : ℕ) (key : Bytes) (r : EndpointRecord) : Type 0 where
    pub shape : is_hex_32_bytes key ≡ true
    pub small : to_ascii_lowercase key ≡ key
    pub signed : is_ok (verify crates r) ≡ true
    pub timely : r.signed_at ≤ℤ pos (t + max_future_skew_secs)

  pub record IsSound (t : ℕ) (s : Records) : Type 0 where
    pub distinct : Distinct s.table
    pub bounded : length s.table ≤ max_records
    pub genuine : (key : Bytes) (r : EndpointRecord) → get key s.table ≡ some r → IsGenuine t key r

  Distinct-after : (s : Records) (a : Arrival) → Distinct s.table → Distinct (after s a).table
  unfolding after report report_known report_new store sweep
  Distinct-after s a d =
      let key = to_ascii_lowercase a.key_hash in
      let live = λ (k : Bytes) (stored : EndpointRecord). not (is_expired a.now stored) in
      ground (
        arith,
        Distinct-insert key a.sent s.table d,
        Distinct-retain live s.table d,
        Distinct-insert key a.sent (retain live s.table),
      )

  length-sweep-le : (s : Records) (now : ℕ) → length (sweep s now).table ≤ length s.table
  unfolding sweep
  length-sweep-le s now = length-retain-le _ s.table

  bounded_slot :
      (o : Option EndpointRecord) (s : Records) (key : Bytes) (r : EndpointRecord) (now : ℕ)
      → get key s.table ≡ o
      → length s.table ≤ max_records
      → length (report_slot o s key r now).1.table ≤ max_records
  unfolding report_known report_new store
  bounded_slot none s key r now e h = ground (
    arith,
    length-insert-le key r s.table,
    length-insert-le key r (sweep s now).table,
    length-sweep-le s now,
  )
  bounded_slot (some old) s key r now e h = ground (arith, length-insert_old key r old s.table e)

  bounded-after :
      (s : Records) (a : Arrival)
      → length s.table ≤ max_records
      → length (after s a).table ≤ max_records
  unfolding after report
  bounded-after s a h =
      let key = to_ascii_lowercase a.key_hash in
      ground (arith, bounded_slot (get key s.table) s key a.sent a.now refl h)

  IsGenuine-after :
      (s : Records) (a : Arrival) (t : ℕ)
      → IsSound t s
      → t ≤ a.now
      → (j : Bytes) (r : EndpointRecord) → get j (after s a).table ≡ some r
      → IsGenuine a.now j r
  unfolding after
  IsGenuine-after s a t w le j r h =
      let key = to_ascii_lowercase a.key_hash in
      ground (
        arith,
        report-Slot crates s a.key_hash a.sent a.now j w.distinct,
        w.genuine j r,
        list_eqb_iff j key,
        report_accepted crates s a.key_hash a.sent a.now,
        to_ascii_lowercase_idem a.key_hash,
        is_hex_32_bytes-lower a.key_hash,
        is_future_bound a.now a.sent,
      )

  -- A report keeps the table sound: distinct key hashes, at most `max_records` of them, each 64
  -- lower-case hex digits over a record that verifies and is signed at most the skew ahead.
  pub after-IsSound :
      (s : Records) (a : Arrival) (t : ℕ) → IsSound t s → t ≤ a.now → IsSound a.now (after s a)
  after-IsSound s a t w le = record {
    distinct = Distinct-after s a w.distinct;
    bounded = bounded-after s a w.bounded;
    genuine = IsGenuine-after s a t w le;
  }

  -- The clock never steps back below `t` along the arrivals.
  abbrev pub Ordered : ℕ → List Arrival → Type 0
  Ordered t [] = Unit
  Ordered t (a ∷ rest) = (t ≤ a.now) × Ordered a.now rest

  -- The clock after the arrivals.
  abbrev pub end : ℕ → List Arrival → ℕ
  end t [] = t
  end t (a ∷ rest) = end a.now rest

  pub new-IsSound : IsSound 0 new
  unfolding new get
  new-IsSound = record { distinct = tt; bounded = omega arith; genuine = λ j r h. cc h }

  run-IsSound_from :
      (t : ℕ) (s : Records) (arrivals : List Arrival)
      → IsSound t s
      → Ordered t arrivals
      → IsSound (end t arrivals) (run s arrivals)
  unfolding run
  run-IsSound_from t s [] w h = w
  run-IsSound_from t s (a ∷ rest) w (le, h) =
      run-IsSound_from a.now (after s a) rest (after-IsSound s a t w le) h

  -- Whatever is reported to a fresh lighthouse, and by whom, as long as its clock does not step back
  -- between the reports, its table is sound: at most `max_records` distinct key hashes of 64 lower-case hex digits, each over a record that
  -- verifies and is signed at most `max_future_skew_secs` ahead of the last report's clock.
  pub run-IsSound :
      (arrivals : List Arrival) → Ordered 0 arrivals → IsSound (end 0 arrivals) (run new arrivals)
  run-IsSound arrivals h = run-IsSound_from 0 new arrivals new-IsSound h

  -- An arrival that cannot displace `r` from `key`: `r` has not expired, and the arrival is for
  -- another key hash, of another public key, or no newer.
  abbrev pub Rejected : Bytes → EndpointRecord → Arrival → Type 0
  Rejected key r a =
      (is_expired a.now r ≡ false)
      × ((to_ascii_lowercase a.key_hash ≢ key)
          ⊎ (eq_ignore_ascii_case r.pubkey a.sent.pubkey ≡ false)
          ⊎ (a.sent.signed_at ≤ℤ r.signed_at))

  after-pin :
      (s : Records) (a : Arrival) (key : Bytes) (r : EndpointRecord)
      → Distinct s.table
      → get key s.table ≡ some r
      → Rejected key r a
      → get key (after s a).table ≡ some r
  unfolding after
  after-pin s a key r d h no_claim = ground (
    arith,
    report-Slot crates s a.key_hash a.sent a.now key d,
    list_eqb_iff key (to_ascii_lowercase a.key_hash),
  )

  -- Until it expires, a record that stands is displaced by nothing but a newer record of its own
  -- public key under its own key hash: not by other public keys, not by replays of older records,
  -- and not by a flood of other key hashes.
  pub run-pin :
      (s : Records) (arrivals : List Arrival) (key : Bytes) (r : EndpointRecord)
      → Distinct s.table
      → get key s.table ≡ some r
      → All (Rejected key r) arrivals
      → get key (run s arrivals).table ≡ some r
  unfolding run
  run-pin s [] key r d h held = h
  run-pin s (a ∷ rest) key r d h (now, held) =
      run-pin (after s a) rest key r (Distinct-after s a d) (after-pin s a key r d h now) held

  -- No record locks its slot for good: `max_future_skew_secs` and `record_ttl_secs` after the clock
  -- at which a table was sound, any public key gets the slot of a stored record, with a record that
  -- verifies, is not too far ahead of the clock and was signed later than that skew.
  pub slot_lapses :
      (t : ℕ) (s : Records) (a : Arrival) (old : EndpointRecord)
      → IsSound t s
      → get (to_ascii_lowercase a.key_hash) s.table ≡ some old
      → t + max_future_skew_secs + record_ttl_secs ≤ a.now
      → verify crates a.sent ≡ ok tt
      → is_future a.now a.sent ≡ false
      → pos (t + max_future_skew_secs) <ℤ a.sent.signed_at
      → (report crates s a.key_hash a.sent a.now).0 ≡ ok accepted
  slot_lapses t s a old w h late good time newer =
      let g = w.genuine (to_ascii_lowercase a.key_hash) old h in
      report_renewal crates s a.key_hash a.sent a.now old h
        (sym (is_hex_32_bytes-lower a.key_hash) ∙ g.shape) good time (omega (arith, g.timely))
        (inl (ground (arith, is_expired_lem a.now old, g.timely)))
