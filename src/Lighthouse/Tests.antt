-- ===== src/Lighthouse/Tests.antt =====
-- Runs of the lighthouse, and its theorems at concrete inputs. The toy cryptography: hex is the
-- identity, and a signature is valid if it repeats the public key.
use sharerr_rs.Prelude.{
  All, Bytes, List, String, [], arith, codes, err, inl, inr, list_eq, list_eqb, nat_eq, none, ok,
  refl, some, ℕ, ◌+◌, ◌↔◌, ◌∷◌, ◌≡◌, ◌≢◌,
}
use sharerr_rs.Bencode.Pieces.{at}
use sharerr_rs.Lighthouse.Hex.{eq_ignore_ascii_case, is_hex_32_bytes, to_ascii_lowercase}
use sharerr_rs.Lighthouse.Lookup.{Server, lookup}
use sharerr_rs.Lighthouse.Privacy.{lookup_steady_iff}
use sharerr_rs.Lighthouse.Record.{Crates, EndpointRecord, verify}
use sharerr_rs.Lighthouse.Report.{SlotAfter, report-Slot}
use sharerr_rs.Lighthouse.State.{
  Records, accepted, is_expired, is_future, new, pubkey_mismatch, report, report_known, report_new,
  store,
}
use sharerr_rs.Lighthouse.Trace.{
  Arrival, IsSound, Rejected, after, run, run-IsSound, run-pin, slot_lapses,
}
use sharerr_rs.Paths.Resolver.{component_eq}
use sharerr_rs.Prelude.HashMap.{Distinct, get, insert}
use sharerr_rs.Prelude.Int.{pos, saturating_add, saturating_sub}
use sharerr_rs.Sync.Item.{int_eq, key_eq, source_eq}
use sharerr_rs.Torrent.Fields.{name}

abbrev toy : Crates
toy = record {
  VerifyingKey = Bytes;
  hex_decode = λ n s. some s;
  hex_encode = λ s. s;
  key_from_bytes = λ s. some s;
  verify_signature = λ key bytes signature. list_eqb signature key;
  signable_json = λ pubkey endpoints signed_at. some pubkey;
  sha256 = λ s. s;
}

abbrev key_upper : Bytes
key_upper = codes "ABCDEFABCDEFABCDEFABCDEFABCDEFABCDEFABCDEFABCDEFABCDEFABCDEF0123"

abbrev key : Bytes
key = codes "abcdefabcdefabcdefabcdefabcdefabcdefabcdefabcdefabcdefabcdef0123"

abbrev signed_by : String → ℕ → EndpointRecord
signed_by name at = record {
  pubkey = codes name;
  endpoints = [];
  signed_at = pos at;
  signature = codes name;
}

abbrev alice : EndpointRecord
alice = signed_by "alice" 1000

abbrev first_report : Arrival
first_report = record { key_hash = key_upper; sent = alice; now = 1000 }

abbrev held : Records
held = run toy new (first_report ∷ [])

first_report_accepted : (report toy new key_upper alice 1000).0 ≡ ok accepted
unfolding report report_new store new verify is_hex_32_bytes is_future saturating_add
    to_ascii_lowercase get
first_report_accepted = refl

abbrev alone : Records
alone = record { table = (key, alice) ∷ []; last_sweep_at = 0 }

alone-Distinct : Distinct alone.table
unfolding get
alone-Distinct = (refl, tt)

alone_has : get key alone.table ≡ some alice
unfolding get
alone_has = refl

held-alone : held ≡ alone
unfolding run after report report_new store new verify is_hex_32_bytes is_future saturating_add
    to_ascii_lowercase get insert
held-alone = refl

-- Someone else reports over it.
mallory_refused : (report toy alone key (signed_by "mallory" 2000) 2000).0 ≡ err pubkey_mismatch
unfolding report report_known store verify is_hex_32_bytes is_future is_expired saturating_add
    saturating_sub to_ascii_lowercase eq_ignore_ascii_case get
mallory_refused = refl

alone-IsSound : IsSound toy 1000 alone
alone-IsSound = rw held-alone at (run-IsSound toy (first_report ∷ []) (omega arith))

report-Slot_example :
    SlotAfter alone
      (to_ascii_lowercase key_upper)
      (signed_by "mallory" 2000)
      2000
      key
      (report toy alone key_upper (signed_by "mallory" 2000) 2000)
report-Slot_example =
    report-Slot toy alone key_upper (signed_by "mallory" 2000) 2000 key alone-Distinct

run-IsSound_example : IsSound toy 1000 (run toy new (first_report ∷ []))
run-IsSound_example = run-IsSound toy (first_report ∷ []) (omega arith)

abbrev attack : List Arrival
attack =
    record { key_hash = key_upper; sent = signed_by "mallory" 1200; now = 1100 }
    ∷ record { key_hash = key; sent = signed_by "alice" 900; now = 2592999 }
    ∷ []

attack-Rejected : All (Rejected toy key alice) attack
unfolding is_expired saturating_sub eq_ignore_ascii_case
attack-Rejected = ((refl, inr (inl refl)), ((refl, inr (inr (omega arith))), tt))

run-pin_example : get key (run toy alone attack).table ≡ some alice
run-pin_example = run-pin toy alone attack key alice alone-Distinct alone_has attack-Rejected

abbrev rotation : Arrival
rotation = record { key_hash = key; sent = signed_by "new key" 2600000; now = 2600000 }

slot_lapses_example : (report toy alone key (signed_by "new key" 2600000) 2600000).0 ≡ ok accepted
unfolding verify is_future saturating_add to_ascii_lowercase get
slot_lapses_example =
    slot_lapses toy 1000 alone rotation alice alone-IsSound refl (omega arith) refl refl
      (omega arith)

abbrev server : Server
server = record { crates = toy; decoy_secret = []; to_lowercase = to_ascii_lowercase }

lookup_steady_iff_example :
    (lookup server new key (100000 + 60) ≡ lookup server new key 100000)
    ↔ (get key new.table ≢ none)
lookup_steady_iff_example = lookup_steady_iff server new key 100000 60 (omega arith)

-- A minute later the decoy for an unknown key hash has another time.
decoy_seen : lookup server new key (100000 + 60) ≢ lookup server new key 100000
unfolding new get
decoy_seen e = (lookup_steady_iff server new key 100000 60 (omega arith)).0 e refl
