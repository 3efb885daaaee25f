-- ===== src/Gossip/Recorded.antt =====
-- Sightings that are recorded one after another: crates/sharerr-store/src/endpoints.rs.
use sharerr_rs.Prelude.{
  Bool, Bool-cases, Bytes, List, Option, [], ap, arith, false, filter, inl, inr, length,
  length-take-le, not, refl, subst, sym, take, true, ℕ, ◌||◌, ◌∷◌, ◌≡◌, ◌≤◌,
}
use sharerr_rs.Bencode.Pieces.{at}
use sharerr_rs.Gossip.Bounded.{
  IsBounded, IsTable, Wrote, count-insert_row, has_number, insert_row-IsTable, new_row, of_kind_iff,
  written_row-Wrote,
}
use sharerr_rs.Gossip.Count.{count, count-filter-le, count-never, count-or, one_if}
use sharerr_rs.Gossip.Table.{
  EndpointKind, EndpointRow, EndpointTable, ObservedVia, conflicts, has_id, insert_row, kind_as_str,
  newer, of_kind, prune, prune_if, record_peer_endpoint, sort_by, via_as_str,
}
use sharerr_rs.Prelude.Int.{ℤ}

Wrote-IsTable :
    (peer : ℕ) (kind addr : Bytes) (t : EndpointTable) (out : Bool × EndpointTable)
    → Wrote peer kind addr t out
    → IsTable t
    → IsTable out.1
Wrote-IsTable peer kind addr t (written, t') (inl (e, same)) w = record {
  unused = λ i h.
      omega (arith, same (has_number i) (λ at via row. refl), w.unused i (omega (arith, h, e)));
  one_id = λ i. omega (arith, same (has_number i) (λ at via row. refl), w.one_id i);
  one_addr = λ p k a. omega (arith, same (conflicts p k a) (λ at via row. refl), w.one_addr p k a);
}
Wrote-IsTable peer kind addr t (written, t') (inr (e, (fresh, (at, via, made)))) w =
    subst IsTable (sym made) (insert_row-IsTable peer kind addr at via t fresh w)

count-prune-le :
    (q : EndpointRow → Bool) (limit peer : ℕ) (kind : Bytes) (t : EndpointTable)
    → count q (prune limit peer kind t).rows ≤ count q t.rows
unfolding prune
count-prune-le q limit peer kind t = count-filter-le q _ q t.rows (λ row here kept. here)

prune-IsTable :
    (limit peer : ℕ) (kind : Bytes) (t : EndpointTable)
    → IsTable t
    → IsTable (prune limit peer kind t)
prune-IsTable limit peer kind t w = record {
  unused = λ i h. omega (
    arith,
    count-prune-le (has_number i) limit peer kind t,
    w.unused i (unfold prune in omega (arith, h)),
  );
  one_id = λ i. omega (arith, count-prune-le (has_number i) limit peer kind t, w.one_id i);
  one_addr =
      λ p k a. omega (arith, count-prune-le (conflicts p k a) limit peer kind t, w.one_addr p k a);
}

count-has_id-le :
    (t : EndpointTable)
    → IsTable t
    → (ns : List EndpointRow) → count (λ row. has_id row.id ns) t.rows ≤ length ns
count-has_id-le t w [] = omega (arith, count-never t.rows)
count-has_id-le t w (n ∷ ns) = omega (
  arith,
  count-or (has_number n.id) (λ row. has_id row.id ns) t.rows,
  w.one_id n.id,
  count-has_id-le t w ns,
)

kept_test : (a b : Bool) → a ≡ true → (not a || b) ≡ true → b ≡ true
kept_test true b h k = k
kept_test false b h k = cc h

-- Behind a write, the history of the peer and kind is cut to the limit.
count-prune :
    (limit peer : ℕ) (kind : Bytes) (t : EndpointTable)
    → IsTable t
    → count (of_kind peer kind) (prune limit peer kind t).rows ≤ limit
unfolding prune
count-prune limit peer kind t w =
    let newest = take limit (sort_by newer (filter (of_kind peer kind) t.rows)) in
    omega (
      arith,
      count-filter-le (of_kind peer kind)
          (λ row. not (of_kind peer kind row) || has_id row.id newest) (λ row. has_id row.id newest)
          t.rows
          (λ row here kept. kept_test (of_kind peer kind row) (has_id row.id newest) here kept),
      count-has_id-le t w newest,
      length-take-le limit (sort_by newer (filter (of_kind peer kind) t.rows)),
    )

insert_row-IsBounded :
    (limit peer : ℕ) (kind addr : Bytes) (at : ℤ) (via : Bytes) (t : EndpointTable)
    → IsTable (insert_row peer kind addr at via t)
    → IsBounded limit t
    → IsBounded limit (prune limit peer kind (insert_row peer kind addr at via t))
insert_row-IsBounded limit peer kind addr at via t w h p k =
    let row = new_row t.next_id peer kind addr at via in
    let t' = insert_row peer kind addr at via t in
    elim (Bool-cases (of_kind p k row)) [
      | inl same ↦
          let (e, e') = of_kind_iff p k row same in
          subst (λ p. count (of_kind p k) (prune limit peer kind t').rows ≤ limit) e
            (subst (λ k. count (of_kind peer k) (prune limit peer kind t').rows ≤ limit) e'
              (count-prune limit peer kind t' w))
      | inr other ↦ omega (
        arith,
        count-prune-le (of_kind p k) limit peer kind t',
        h p k,
        count-insert_row (of_kind p k) peer kind addr at via t,
        ap one_if other,
      )
    ]

Wrote-IsBounded :
    (limit peer : ℕ) (kind addr : Bytes) (t : EndpointTable) (out : Bool × EndpointTable)
    → Wrote peer kind addr t out
    → IsTable t
    → IsBounded limit t
    → IsTable (prune_if limit peer kind out) × IsBounded limit (prune_if limit peer kind out)
unfolding prune_if
Wrote-IsBounded limit peer kind addr t (false, t') (inr (e, rest)) w h = cc e
Wrote-IsBounded limit peer kind addr t (false, t') (inl (e, same)) w h = (
  Wrote-IsTable peer kind addr t (false, t') (inl (e, same)) w,
  λ p k. omega (arith, same (of_kind p k) (λ at via row. refl), h p k),
)
Wrote-IsBounded limit peer kind addr t (true, t') (inl (e, same)) w h = (
  prune-IsTable limit peer kind t' (Wrote-IsTable peer kind addr t (true, t') (inl (e, same)) w),
  λ p k. omega (
    arith,
    same (of_kind p k) (λ at via row. refl),
    h p k,
    count-prune-le (of_kind p k) limit peer kind t',
  ),
)
Wrote-IsBounded limit peer kind addr t (true, t') (inr (e, (fresh, (at, via, made)))) w h =
    let w' = insert_row-IsTable peer kind addr at via t fresh w in
    subst (λ t'. IsTable (prune limit peer kind t') × IsBounded limit (prune limit peer kind t'))
      (sym made)
      (prune-IsTable limit peer kind _ w', insert_row-IsBounded limit peer kind addr at via t w' h)

-- One call of `record_peer_endpoint`.
pub record Sighting : Type 0 where
  pub now : ℤ
  pub peer : ℕ
  pub kind : EndpointKind
  pub addr : Bytes
  pub observed_at : Option ℤ
  pub via : ObservedVia

abbrev pub recorded : ℕ → List Sighting → EndpointTable → EndpointTable
recorded limit [] t = t
recorded limit (s ∷ ss) t =
    recorded limit ss (record_peer_endpoint limit s.now s.peer s.kind s.addr s.observed_at s.via t)

abbrev pub no_rows : EndpointTable
no_rows = record { next_id = 1; rows = [] }

recorded-invariant :
    (limit : ℕ) (ss : List Sighting) (t : EndpointTable)
    → IsTable t
    → IsBounded limit t
    → IsTable (recorded limit ss t) × IsBounded limit (recorded limit ss t)
unfolding record_peer_endpoint
recorded-invariant limit [] t w h = (w, h)
recorded-invariant limit (s ∷ ss) t w h =
    let kind = kind_as_str s.kind in
    let (w', h') =
      Wrote-IsBounded limit s.peer kind s.addr t _
        (written_row-Wrote s.now s.peer kind s.addr s.observed_at (via_as_str s.via) t) w h in
    recorded-invariant limit ss _ w' h'

-- Whatever sightings are recorded, from an empty table on and under one retention limit: each
-- address of a friend and kind has one row at most, each friend and kind has as many rows as the
-- limit at most, and no id is given twice.
pub recorded-IsBounded :
    (limit : ℕ) (ss : List Sighting)
    → IsTable (recorded limit ss no_rows) × IsBounded limit (recorded limit ss no_rows)
recorded-IsBounded limit ss =
    recorded-invariant limit ss no_rows
      (record {
        unused = λ i h. omega arith;
        one_id = λ i. omega arith;
        one_addr = λ p k a. omega arith;
      })
      (λ p k. omega arith)
