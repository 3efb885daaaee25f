-- ===== src/Lib.antt =====
-- sharerr shares a media library with friends: it tags torrents out of the library's files where
-- they lie, seeds them through a torrent client and publishes them as a feed. Friends reach each
-- other over addresses that rotate, so most of what this library models is protocol logic. It
-- translates the definitions from their Rust sources.
--
-- Parts and files
--
-- Bencode is the codec of crates/sharerr-torrent/src/bencode.rs, which every torrent file,
-- announce and scrape answer goes through. Bencode/Value.antt holds `Value` with its accessors
-- and the map operations, Bencode/Encode.antt the writers (`encode`, `write`, `write_dict` and
-- so on), Bencode/Decode.antt the `Parser` with `integer`, `byte_string` (for `bytes`), `value`
-- with its two loops `items` and `entries`, and `decode`, errors and offsets included. Pieces,
-- Order, RoundTrip, Total and Reread hold the proofs.
--
-- Torrent is the torrent file, crates/sharerr-torrent/src/metainfo.rs and factory.rs.
-- Torrent/Metainfo.antt holds `Torrent` with `read_from_bytes` and `encode` (here
-- `encode_torrent`), Fields.antt its accessors, Rewrite.antt `rewrite_announce` and
-- `retarget_announce`; Stream.antt holds the loops of `for_each_piece`, Hashing.antt the reading
-- and hashing of files with `verify_single_file` and `piece_length_for`, Hybrid.antt the hashes
-- of a hybrid, Factory.antt `create` and `create_with_sidecars`. Announced, Reread and Retarget
-- hold the proofs of writing and reading, Chunks, Visit, Pieces, Verify, Verified and
-- PieceLength those of the pieces, PlainInfo and Created those of what is built. An open file is
-- the list of what its reads give.
--
-- Announce is the built-in tracker of crates/sharerr-torrent/src/announce.rs.
-- Announce/Address.antt holds addresses and `resolve_addr`, with `is_private_ip` of
-- crates/sharerr-core/src/endpoint.rs; Announce/Swarms.antt holds `Swarms` with `announce`,
-- `scrape` and the views. Peers, Answer, Transfers and Views hold the proofs: what an announce
-- does to each peer, what it answers, how traffic is accounted, and how the views agree.
-- Announce/Wire.antt holds the bencoded answers, and WireValue, WireFits, WireRead and
-- WireScrape what a client decodes of them. Announce/Query.antt holds the query parser,
-- QueryBounds and QueryRead its proofs.
--
-- Endpoint is the advertised address of this instance, crates/sharerr-core/src/endpoint.rs.
-- Endpoint/State.antt holds the operations of `AdvertisedEndpoint`, Endpoint/History.antt and
-- Current.antt the proofs, and Endpoint/AnnounceList.antt the announce list that
-- crates/sharerr-torrent/src/tracker.rs builds of it with Announced.antt the proofs,
-- Endpoint/Token.antt the reading of a token.
--
-- Paths is the translation between the views of the library, crates/sharerr-core/src/paths.rs:
-- what an *arr app reports, what sharerr opens and what the torrent client is told.
-- Paths/Resolver.antt holds the resolvers; Match, Views and Outcome the proofs. A path is a list
-- of components.
--
-- Gossip is what friends tell of each other's addresses. Gossip/Table.antt holds the sightings
-- of crates/sharerr-store/src/endpoints.rs, a table as its rows and a statement as what it makes
-- of them; Gossip/Ingest.antt holds `ingest` of crates/sharerr/src/gossip.rs over the store's
-- calls. Count, Bounded and Recorded hold the proofs on the table; Trust, Index, Trusted,
-- Ingested, Batch and Tally those on a batch of records. The records and their `verify` are the
-- lighthouse's.
--
-- Totp is the second factor of the sign-in, crates/sharerr/src/totp.rs. Totp/Base32.antt holds
-- `base32_encode`, `base32_decode` and `is_valid_secret`, Totp/Code.antt `hmac_sha1`, `hotp`,
-- `code_for`, `verify` (here `verify_code`) and `otpauth_uri`. Digits and RoundTrip hold the
-- proofs on base32, Window and Accepted those on what is accepted.
--
-- Lighthouse is the directory of addresses, crates/sharerr-lighthouse/src/lib.rs, to which an
-- instance reports its address under the hash of its key, and which answers any other key hash
-- with a decoy. Lighthouse/Hex.antt and Record.antt hold the wire record with `verify`,
-- State.antt the store with `report`, Lookup.antt `lookup`, `decoy` and the handler. Expiry,
-- Report, Trace and Privacy hold the proofs: the tests on timestamps, one report, sequences of
-- reports, and what a lookup gives away.
--
-- Sync is the pass that brings the torrent client in line with the library,
-- crates/sharerr/src/sync/mod.rs and seed.rs, with the queries of crates/sharerr-store/src/db.rs
-- and catalog.rs and the trait of crates/sharerr-client/src/lib.rs that it calls. Sync/Exec.antt
-- is the monad of a method that changes state and may fail; Item.antt holds what is shared
-- (crates/sharerr-core/src/model.rs), World.antt the state of a pass, `World`, and what it runs
-- in, `Env`; Store.antt the requests and queries; Report.antt `SyncReport` and the hours of an
-- upload cap. Of seed.rs, Cached.antt holds the cache with `adopt`, Refresh.antt
-- `refresh_announce`, `recover_upstream` and `reuse_cached`, Friends.antt what is fetched of a
-- friend, Seed.antt `seed`. Of mod.rs, Live.antt holds what is done for a torrent that is there,
-- Pass.antt `share`, `unshare_one` and `prepare_rebuild`, Discovery.antt `discover` and
-- `withdraw_untagged`, Reconcile.antt `reconcile`. Keeps holds the rules for what an action
-- keeps; Frame, SeedFrame, JoinFrame, PassFrame, ShareFrame, Own and ReconcileFrame apply them
-- method by method, with Leads and Member; Safety, Scanned and Removals, DryRun, Completes with
-- Counts and Tally, Ensures, Ordering, Foreign and Filed, Adopted and Recorded hold what a pass
-- and its methods promise.
--
-- Prelude holds Boolean tests, lists, integers of 64 bits, decimal numbers and hash maps.
--
-- A torrent that is built carries the bases of Endpoint as its announce list; Sync hands it to
-- the torrent client and rewrites it when the bases change; a client that announces there is
-- kept by Announce, whose answers are bencoded; and an instance whose endpoint changes reports
-- it to a lighthouse, where friends look it up.
--
-- How the state is written
--
-- The clock is an argument of each call, in the unit of the source: seconds of the epoch for
-- lighthouse and endpoint, an instant in nanoseconds for the tracker. A lock holds for one whole
-- operation in the source, so an operation is a function from state to state, and an
-- interleaving of callers is a list of calls. A `HashMap` is an association list; where the
-- source iterates over one, it is in the list's order, and the theorems hold for any list with
-- distinct keys. A `BTreeMap` of the codec is a list that `insert_entry` keeps sorted. `i64` is
-- ℤ with its bounds written out and saturating operations where the source has them; counters of
-- the tracker are `u64` that are compared and subtracted only; `usize` has 64 bits.
--
-- A pass of Sync changes one `World`: the state of the client, every request sent to it with its
-- answer, the rows, the cache and the memos. The client is a record of functions on a state of
-- its own, about which nothing is assumed. Each access to the database or to the disk is
-- numbered, and fails if `refuses` says so, so the theorems cover every pattern of failures; a
-- write of a file that fails leaves the file as it was or with the content that `torn` says,
-- since it is truncated before it is written; a failure is a kind, without its text. What a pass
-- reads at once (`tokio::join!`) is read one after the other, and the transaction that writes an
-- audience is one access. A `HashMap` that a pass makes is in the order of its insertions.
--
-- Fuel
--
-- The decoder runs on fuel, `2 * length input + 1`: a value spends one, an item or entry of a
-- loop spends one, and each reads a byte, so the fuel is enough (Bencode/Total.antt). Printing a
-- number runs on fuel equal to the number, which Prelude/Decimal/RoundTrip.antt shows to be
-- enough. The reads of a file run on fuel for its content and the reads into one buffer on fuel
-- for its room, since each read but the last gives a byte (Torrent/Visit.antt and Chunks.antt);
-- a content is cut on fuel for its length (Torrent/Pieces.antt). The layers of `merkle_root` run
-- on fuel for its width, since each is shorter than the one below, `next_power_of_two` on its
-- argument, since each round doubles, and the digits of a byte on its bits, since each takes
-- five.
--
-- What is not modelled
--
-- Ed25519, hex and base64 decoding, serde_json and sha256 are parameters of the lighthouse's
-- definitions, in the record `Crates`; the file system is the record `Files` of
-- Torrent/Hashing.antt; sha1, sha256 and hex are functions in Torrent and Totp; the text of a
-- stored record (serde_json) is a pair of functions in Gossip; `Url` is a type with an equality
-- in Endpoint, with the url crate's `as_str` and `parse` as functions where text is made of it,
-- and the text of an address (`Display`) a function in Announce/Wire.antt, as are the
-- percent_encoding crate and the reading of an address in Announce/Query.antt. Of these files:
-- HTTP routing, OpenAPI and signals of the lighthouse; `info_hash_from_hex` of the tracker;
-- `describe` and `torrent_file_path` of the factory; `generate_secret` and `qr_svg`;
-- `set_peer_gossip_url` and, in Gossip, failures of the database; the routes, the own record and
-- the pull loop of gossip; `advertised_base`, which is a call of the url crate, and poisoned
-- locks. Of Sync: `Syncer::build`, `run` with its row of `sync_runs`, logging and poisoned
-- locks; the sources, the probe, release titles, catalog matches, the comment of a torrent, the
-- sidecar listing and the HTTP download are functions of `Env`, floats and media metadata types
-- that are only carried. The other crates and files (configuration apart from what a pass reads,
-- the other queries of the store, the vault, release titles, the adapters of torrent programs
-- and *arr apps, the web interface and the API) are not modelled: most of it is I/O over HTTP,
-- SQL or RPC.
pub mod Prelude
pub mod Announce
pub mod Bencode
pub mod Endpoint
pub mod Gossip
pub mod Lighthouse
pub mod Paths
pub mod Sync
pub mod Torrent
pub mod Totp
