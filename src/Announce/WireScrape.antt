-- ===== src/Announce/WireScrape.antt =====
-- What a client reads of a scrape answer and of a failure.
use sharerr_rs.Prelude.{
  All, Bytes, List, Option, [], all, ap, arith, codes, if◌then◌else◌, length, list_eq, nat_eq, none,
  ok, refl, some, ℕ, ◌==◌, ◌∙◌, ◌∷◌, ◌≡◌, ◌≤◌,
}
use sharerr_rs.Announce.Address.{InfoHash}
use sharerr_rs.Announce.Query.{hash}
use sharerr_rs.Announce.Wire.{as_i64, failure_bencode, scrape_bencode, scrape_files, scrape_stats}
use sharerr_rs.Bencode.Decode.{decode}
use sharerr_rs.Bencode.Maps.{get_entry-insert_entry}
use sharerr_rs.Bencode.RoundTrip.{decode-encode}
use sharerr_rs.Bencode.Total.{insert_entry-FitEntries}
use sharerr_rs.Bencode.Value.{
  Entries, FitEntries, Fits, Value, bytes, dict, end, entry, get_entry, insert_entry, lex_ltb,
  usize_max,
}
use sharerr_rs.Paths.Resolver.{component_eq}
use sharerr_rs.Prelude.Int.{i64_max}

-- What a scrape answers for one torrent: the counts given last for its hash.
abbrev pub stats_under : InfoHash → Option Value → List (InfoHash × ℕ × ℕ) → Option Value
stats_under h found [] = found
stats_under h found ((hash, complete, incomplete) ∷ rest) =
    stats_under h (if h == hash then some (scrape_stats complete incomplete) else found) rest

get_entry-scrape_files :
    (h : InfoHash) (done : Entries) (files : List (InfoHash × ℕ × ℕ))
    → get_entry h (scrape_files done files) ≡ stats_under h (get_entry h done) files
unfolding scrape_files
get_entry-scrape_files h done [] = refl
get_entry-scrape_files h done ((hash, complete, incomplete) ∷ rest) =
    get_entry-scrape_files h (insert_entry hash (scrape_stats complete incomplete) done) rest
    ∙ ap (λ found. stats_under h found rest)
        (get_entry-insert_entry h hash (scrape_stats complete incomplete) done)

-- A hash that a `usize` measures, and counts that an `i64` holds.
abbrev pub IsScraped : InfoHash × ℕ × ℕ → Type 0
IsScraped (hash, complete, incomplete) =
    (length hash ≤ usize_max) × (complete ≤ i64_max) × (incomplete ≤ i64_max)

scrape_stats-Fits :
    (complete incomplete : ℕ)
    → complete ≤ i64_max
    → incomplete ≤ i64_max
    → Fits 2 (scrape_stats complete incomplete)
unfolding scrape_stats as_i64 Fits lex_ltb
scrape_stats-Fits complete incomplete c i = ground arith

scrape_files-FitEntries :
    (done : Entries) (files : List (InfoHash × ℕ × ℕ))
    → FitEntries 2 done
    → All IsScraped files
    → FitEntries 2 (scrape_files done files)
unfolding scrape_files
scrape_files-FitEntries done [] h all = h
scrape_files-FitEntries done ((hash, complete, incomplete) ∷ rest) h (sound, all) =
    scrape_files-FitEntries (insert_entry hash (scrape_stats complete incomplete) done) rest
      (insert_entry-FitEntries 2 hash (scrape_stats complete incomplete) done sound.0
        (scrape_stats-Fits complete incomplete sound.1 sound.2) h)
      all

scrape_value-Fits :
    (files : List (InfoHash × ℕ × ℕ))
    → All IsScraped files
    → Fits 0 (dict (entry (codes "files") (dict (scrape_files end files)) end))
unfolding Fits
scrape_value-Fits files all =
    (omega arith, (omega arith, (omega arith, scrape_files-FitEntries end files tt all), tt, tt))

-- A scrape answer is decoded to its dictionary, in which each hash has the counts given last for it,
-- and a hash that was not given has none.
pub decode-scrape_bencode :
    (files : List (InfoHash × ℕ × ℕ)) (h : InfoHash)
    → All IsScraped files
    → length (scrape_bencode files) ≤ usize_max
    → (decode (scrape_bencode files)
        ≡ ok (dict (entry (codes "files") (dict (scrape_files end files)) end)))
      × (get_entry h (scrape_files end files) ≡ stats_under h none files)
unfolding scrape_bencode get_entry
decode-scrape_bencode files h all room = (
  decode-encode (dict (entry (codes "files") (dict (scrape_files end files)) end))
      (scrape_value-Fits files all) room,
  get_entry-scrape_files h end files,
)

-- A client reads the reason of a failure.
pub decode-failure_bencode :
    (reason : Bytes)
    → length (failure_bencode reason) ≤ usize_max
    → length reason ≤ usize_max
    → decode (failure_bencode reason)
      ≡ ok (dict (entry (codes "failure reason") (bytes reason) end))
unfolding failure_bencode Fits
decode-failure_bencode reason room short =
    decode-encode (dict (entry (codes "failure reason") (bytes reason) end))
      (omega arith, (omega arith, (omega arith, short), tt, tt)) room
