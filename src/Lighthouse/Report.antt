-- ===== src/Lighthouse/Report.antt =====
-- What one report does to the slot of every key hash.
use sharerr_rs.Prelude.{
  ==-refl, Bool, Bool-cases, Bytes, Option, arith, err, false, inl, inr, list_eq, list_eqb_iff,
  nat_eq, none, not, ok, refl, some, true, ℕ, ◌&&◌, ◌==◌, ◌≡◌, ◌≢◌, ◌⊎◌,
}
use sharerr_rs.Lighthouse.Hex.{
  eq_ignore_ascii_case, is_hex_32_bytes, is_hex_32_bytes-lower, to_ascii_lowercase,
}
use sharerr_rs.Lighthouse.Record.{Crates, EndpointRecord, verify}
use sharerr_rs.Lighthouse.State.{
  Records, Reply, accepted, full, is_expired, is_future, is_ok, new, report, report_known,
  report_new, report_slot, stale, store, sweep,
}
use sharerr_rs.Prelude.HashMap.{
  Distinct, HashMap, filter_option, get, get-insert, get-retain, insert,
}
use sharerr_rs.Prelude.Int.{◌<ℤ◌}

abbrev pub SameKey : EndpointRecord → EndpointRecord → Type 0
SameKey a b = eq_ignore_ascii_case a.pubkey b.pubkey ≡ true

-- How a slot may stand before and after a report of `r`, which is `mine` if its key is this one.
abbrev pub Slot : EndpointRecord → ℕ → Bool → Option EndpointRecord → Option EndpointRecord → Type 0
Slot r now mine none none = Unit
Slot r now mine none (some new) = (mine ≡ true) × (new ≡ r)
Slot r now mine (some old) none = is_expired now old ≡ true
Slot r now mine (some old) (some new) =
    (new ≡ old)
    ⊎ ((mine ≡ true)
        × (new ≡ r)
        × (old.signed_at <ℤ r.signed_at)
        × ((is_expired now old ≡ true) ⊎ SameKey old r))

Slot-refl :
    (r : EndpointRecord) (now : ℕ) (mine : Bool) (o : Option EndpointRecord) → Slot r now mine o o
Slot-refl r now mine none = tt
Slot-refl r now mine (some a) = inl refl

swept-Slot :
    (r : EndpointRecord) (now : ℕ) (mine : Bool) (o : Option EndpointRecord)
    → Slot r now mine o (filter_option (λ stored. not (is_expired now stored)) o)
swept-Slot r now mine none = tt
swept-Slot r now mine (some a) = elim (Bool-cases (is_expired now a)) [
  | inl e ↦ rw e e
  | inr e ↦ rw e (inl refl)
]

-- A write of `r` under its key, where the slot allows it.
written-Slot :
    (t : HashMap Bytes EndpointRecord) (key : Bytes) (r : EndpointRecord) (now : ℕ) (j : Bytes)
    → Slot r now true (get key t) (some r)
    → Slot r now (j == key) (get j t) (get j (insert key r t))
written-Slot t key r now j fits = rw get-insert (elim (Bool-cases (j == key)) [
  | inl e ↦ rw (e, (list_eqb_iff j key).0 e) fits
  | inr e ↦ rw e (Slot-refl r now false (get j t))
])

abbrev pub is_accepted : Reply → Bool
is_accepted (ok accepted) = true
is_accepted (ok stale) = false
is_accepted (err e) = false

-- The slot of `j` in `s` and after an outcome of a report of `r` under `key`.
abbrev pub SlotAfter : Records → Bytes → EndpointRecord → ℕ → Bytes → Reply × Records → Type 0
SlotAfter s key r now j out =
    Slot r now (is_accepted out.0 && j == key) (get j s.table) (get j out.1.table)

module _ (s : Records) (key : Bytes) (r : EndpointRecord) (now : ℕ) (j : Bytes) where
  known-SlotAfter :
      (old : EndpointRecord)
      → get key s.table ≡ some old
      → SlotAfter s key r now j (report_known old s key r now)
  unfolding report_known store
  known-SlotAfter old h =
      ground (arith, written-Slot s.table key r now j, Slot-refl r now false (get j s.table))

  sweep-Slot : Distinct s.table → Slot r now false (get j s.table) (get j (sweep s now).table)
  unfolding sweep
  sweep-Slot d = rw (get-retain _ _ _ d) (swept-Slot r now false (get j s.table))

  -- A write into a free slot, after a sweep.
  sweep_write-Slot :
      Distinct s.table
      → get key s.table ≡ none
      → Slot r now (j == key) (get j s.table) (get j (insert key r (sweep s now).table))
  unfolding sweep
  sweep_write-Slot d free = rw get-insert (elim (Bool-cases (j == key)) [
    | inl e ↦ rw (e, (list_eqb_iff j key).0 e, free) (refl, refl)
    | inr e ↦ rw (e, get-retain _ _ _ d) (swept-Slot r now false (get j s.table))
  ])

  new-SlotAfter :
      Distinct s.table → get key s.table ≡ none → SlotAfter s key r now j (report_new s key r now)
  unfolding report_new store
  new-SlotAfter d free = ground (
    arith,
    written-Slot s.table key r now j,
    sweep-Slot d,
    sweep_write-Slot d free,
    Slot-refl r now false (get j s.table),
  )

  slot-SlotAfter :
      (o : Option EndpointRecord)
      → get key s.table ≡ o
      → Distinct s.table
      → SlotAfter s key r now j (report_slot o s key r now)
  slot-SlotAfter none h d = new-SlotAfter d h
  slot-SlotAfter (some old) h d = known-SlotAfter old h

module _ (crates : Crates) (s : Records) (key_hash : Bytes) (r : EndpointRecord) (now : ℕ) where
  -- Whatever the reply, the slot of every key hash `j` is left as it was, or emptied because its
  -- record had expired, or, if the reply is `accepted` and `j` is the reported key hash in lower
  -- case, it holds the reported record: it was free, or its record was older and had expired or was
  -- of the same public key.
  pub report-Slot :
      (j : Bytes)
      → Distinct s.table
      → SlotAfter s (to_ascii_lowercase key_hash) r now j (report crates s key_hash r now)
  unfolding report
  report-Slot j d =
      let key = to_ascii_lowercase key_hash in
      ground (
        arith,
        slot-SlotAfter s key r now j (get key s.table) refl d,
        Slot-refl r now false (get j s.table),
      )

  -- The record of an accepted report stands under its key hash in lower case, and its key hash
  -- had 64 hex digits, its signature verified, and its time was not too far ahead of the clock.
  pub report_accepted :
      (report crates s key_hash r now).0 ≡ ok accepted
      → (get (to_ascii_lowercase key_hash) (report crates s key_hash r now).1.table ≡ some r)
        × (is_hex_32_bytes key_hash ≡ true)
        × (is_ok (verify crates r) ≡ true)
        × (is_future now r ≡ false)
  unfolding report report_known report_new store
  report_accepted h =
      let key = to_ascii_lowercase key_hash in
      ground (
        arith,
        get-insert key key r s.table,
        get-insert key key r (sweep s now).table,
        ==-refl key,
        is_hex_32_bytes-lower key_hash,
      )

  -- A report that is not accepted writes nothing: the table is as it was, or the reply is `full`
  -- and the table has been swept of expired records.
  pub report_refused :
      (report crates s key_hash r now).0 ≢ ok accepted
      → ((report crates s key_hash r now).1 ≡ s)
        ⊎ (((report crates s key_hash r now).0 ≡ err full)
            × ((report crates s key_hash r now).1 ≡ sweep s now))
  unfolding report report_known report_new
  report_refused h = ground arith

  -- The owner of a slot gets through: a record of the same public key that verifies, is not too far
  -- ahead of the clock and is newer than the one that stands is accepted.
  pub report_renewal :
      (old : EndpointRecord)
      → get (to_ascii_lowercase key_hash) s.table ≡ some old
      → is_hex_32_bytes key_hash ≡ true
      → verify crates r ≡ ok tt
      → is_future now r ≡ false
      → old.signed_at <ℤ r.signed_at
      → (is_expired now old ≡ true) ⊎ SameKey old r
      → (report crates s key_hash r now).0 ≡ ok accepted
  unfolding report report_known
  report_renewal old h hex good time newer mine = ground (arith, is_hex_32_bytes-lower key_hash)
