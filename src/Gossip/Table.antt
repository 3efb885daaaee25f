-- ===== src/Gossip/Table.antt =====
-- crates/sharerr-store/src/endpoints.rs. A table is the list of its rows, and a statement is what it
-- makes of the rows; the database does not fail. The retention limit and the clock are arguments.
use mathlib.Core.Option
use sharerr_rs.Prelude.{
  Bool, Bytes, List, Option, [], codes, false, filter, if◌then◌else◌, list_eq, ltb, map, nat_eq,
  none, not, some, suc, take, true, ℕ, ◌&&◌, ◌++◌, ◌==◌, ◌||◌, ◌∷◌,
}
use sharerr_rs.Bencode.Decode.{value}
use sharerr_rs.Bencode.Pieces.{at}
use sharerr_rs.Bencode.Value.{lex_ltb}
use sharerr_rs.Lighthouse.State.{max_future_skew_secs}
use sharerr_rs.Paths.Resolver.{component_eq}
use sharerr_rs.Prelude.Int.{leb_ℤ, ltb_ℤ, min_ℤ, pos, saturating_add, ℤ}
use sharerr_rs.Torrent.Fields.{push_path}
use sharerr_rs.Torrent.Stream.{is_nil}

pub data EndpointKind : Type 0 where
  api client tracker : EndpointKind

unfoldable pub kind_as_str : EndpointKind → Bytes
kind_as_str api = codes "api"
kind_as_str client = codes "client"
kind_as_str tracker = codes "tracker"

unfoldable pub parse_kind : Bytes → Option EndpointKind
unfolding kind_as_str
parse_kind value =
    if kind_as_str api == value
    then some api
    else if kind_as_str client == value
    then some client
    else if kind_as_str tracker == value
    then some tracker
    else none

pub data ObservedVia : Type 0 where
  direct gossip lighthouse restored : ObservedVia

unfoldable pub via_as_str : ObservedVia → Bytes
via_as_str direct = codes "direct"
via_as_str gossip = codes "gossip"
via_as_str lighthouse = codes "lighthouse"
via_as_str restored = codes "restored"

-- Lenient: anything else is the least trusted.
unfoldable pub parse_via : Bytes → ObservedVia
unfolding via_as_str
parse_via value =
    if via_as_str direct == value
    then direct
    else if via_as_str gossip == value
    then gossip
    else if via_as_str lighthouse == value
    then lighthouse
    else restored

pub record PeerEndpoint : Type 0 where
  pub kind : EndpointKind
  pub addr : Bytes
  pub observed_at : ℤ
  pub via : ObservedVia

-- A row of `peer_endpoints`.
pub record EndpointRow : Type 0 where
  pub id : ℕ
  pub peer_id : ℕ
  pub kind : Bytes
  pub addr : Bytes
  pub observed_at : ℤ
  pub via : Bytes

-- The rows, and the id that the next one is given.
pub record EndpointTable : Type 0 where
  pub next_id : ℕ
  pub rows : List EndpointRow

abbrev pub of_kind : ℕ → Bytes → EndpointRow → Bool
of_kind peer kind row = row.peer_id == peer && row.kind == kind

abbrev pub conflicts : ℕ → Bytes → Bytes → EndpointRow → Bool
conflicts peer kind addr row = of_kind peer kind row && row.addr == addr

abbrev pub any : {A : Type 0} → (A → Bool) → List A → Bool
any p [] = false
any p (x ∷ xs) = p x || any p xs

unfoldable pub insert_row : ℕ → Bytes → Bytes → ℤ → Bytes → EndpointTable → EndpointTable
insert_row peer kind addr at via t = record {
  next_id = suc t.next_id;
  rows =
      t.rows
      ++ record {
        id = t.next_id;
        peer_id = peer;
        kind = kind;
        addr = addr;
        observed_at = at;
        via = via;
      }
        ∷ [];
}

-- The condition of the update: a conflict with an older row.
abbrev pub outdated : ℕ → Bytes → Bytes → ℤ → EndpointRow → Bool
outdated peer kind addr at row = conflicts peer kind addr row && ltb_ℤ row.observed_at at

abbrev pub refresh : ℤ → Bytes → EndpointRow → EndpointRow
refresh at via row = record row { observed_at = at; via = via }

abbrev pub refresh_if : Bool → ℤ → Bytes → EndpointRow → EndpointRow
refresh_if false at via row = row
refresh_if true at via row = refresh at via row

-- `UPSERT_NEWER`: whether a row was written, and the table.
unfoldable pub upsert_newer : ℕ → Bytes → Bytes → ℤ → Bytes → EndpointTable → Bool × EndpointTable
unfolding insert_row
upsert_newer peer kind addr at via t =
    if any (conflicts peer kind addr) t.rows
    then (
      any (outdated peer kind addr at) t.rows,
      record t {
        rows = map (λ row. refresh_if (outdated peer kind addr at row) at via row) t.rows;
      },
    )
    else (true, insert_row peer kind addr at via t)

-- `INSERT_ONLY`
unfoldable pub insert_only : ℕ → Bytes → Bytes → ℤ → Bytes → EndpointTable → Bool × EndpointTable
unfolding insert_row
insert_only peer kind addr at via t =
    if any (conflicts peer kind addr) t.rows
    then (false, t)
    else (true, insert_row peer kind addr at via t)

-- `ORDER BY`, by insertion.
unfoldable pub insert_by : {A : Type 0} → (A → A → Bool) → A → List A → List A
insert_by before x [] = x ∷ []
insert_by before x (y ∷ ys) =
    let rest = insert_by before x ys in if before x y then x ∷ y ∷ ys else y ∷ rest

unfoldable pub sort_by : {A : Type 0} → (A → A → Bool) → List A → List A
unfolding insert_by
sort_by before [] = []
sort_by before (x ∷ xs) = insert_by before x (sort_by before xs)

-- `observed_at DESC, id DESC`
abbrev pub newer : EndpointRow → EndpointRow → Bool
newer a b = ltb_ℤ b.observed_at a.observed_at || leb_ℤ b.observed_at a.observed_at && ltb b.id a.id

abbrev pub has_id : ℕ → List EndpointRow → Bool
has_id id [] = false
has_id id (row ∷ rows) = id == row.id || has_id id rows

-- The `DELETE` behind a write.
unfoldable pub prune : ℕ → ℕ → Bytes → EndpointTable → EndpointTable
unfolding sort_by
prune limit peer kind t =
    let newest = take limit (sort_by newer (filter (of_kind peer kind) t.rows)) in
    record t { rows = filter (λ row. not (of_kind peer kind row) || has_id row.id newest) t.rows }

unfoldable pub written_row :
    ℤ → ℕ → Bytes → Bytes → Option ℤ → Bytes → EndpointTable → Bool × EndpointTable
unfolding upsert_newer insert_only saturating_add
written_row now peer kind addr (some observed_at) via t =
    upsert_newer peer kind addr (min_ℤ observed_at (saturating_add now (pos max_future_skew_secs)))
      via t
written_row now peer kind addr none via t = insert_only peer kind addr now via t

unfoldable pub prune_if : ℕ → ℕ → Bytes → Bool × EndpointTable → EndpointTable
unfolding prune
prune_if limit peer kind (false, t) = t
prune_if limit peer kind (true, t) = prune limit peer kind t

unfoldable pub record_peer_endpoint :
    ℕ → ℤ → ℕ → EndpointKind → Bytes → Option ℤ → ObservedVia → EndpointTable → EndpointTable
unfolding written_row kind_as_str via_as_str prune_if
record_peer_endpoint limit now peer kind addr observed_at via t =
    prune_if limit peer (kind_as_str kind)
      (written_row now peer (kind_as_str kind) addr observed_at (via_as_str via) t)

-- `row_to_endpoint`, of a row whose columns have their types.
unfoldable pub row_to_endpoint : EndpointRow → Option PeerEndpoint
unfolding parse_kind parse_via
row_to_endpoint row =
    Option.map
      (λ kind. record {
        kind = kind;
        addr = row.addr;
        observed_at = row.observed_at;
        via = parse_via row.via;
      })
      (parse_kind row.kind)

abbrev pub filter_map : {A B : Type 0} → (A → Option B) → List A → List B
filter_map f [] = []
filter_map f (x ∷ xs) = push_path (f x) (filter_map f xs)

-- `kind, observed_at DESC, id DESC`, among the rows of one peer
abbrev pub in_order : EndpointRow → EndpointRow → Bool
in_order a b = lex_ltb a.kind b.kind || a.kind == b.kind && newer a b

-- `peer_endpoints_for`, as the entry of one peer in the map: a peer with nothing to show has none.
unfoldable pub peer_endpoints_for : List ℕ → EndpointTable → ℕ → Option (List PeerEndpoint)
unfolding sort_by row_to_endpoint lex_ltb
peer_endpoints_for peer_ids t peer =
    let found_rows = sort_by in_order (filter (λ row. row.peer_id == peer) t.rows) in
    let endpoints = filter_map row_to_endpoint found_rows in
    if not (any (λ p. p == peer) peer_ids) || is_nil endpoints then none else some endpoints
