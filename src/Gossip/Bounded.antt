-- ===== src/Gossip/Bounded.antt =====
-- The memory of a friend's addresses stays short, whatever is recorded: crates/sharerr-store/src/endpoints.rs.
use sharerr_rs.Prelude.{
  Bool, Bool-cases, Bytes, Option, [], ap, arith, false, inl, inr, list_eq, list_eqb_iff, nat_eq,
  nat_eqb_iff, none, refl, some, subst, true, ℕ, ◌+◌, ◌==◌, ◌∷◌, ◌≡◌, ◌≤◌, ◌⊎◌,
}
use sharerr_rs.Bencode.Pieces.{at}
use sharerr_rs.Gossip.Count.{count, count-append, count-cons, count-map, count-none, one_if}
use sharerr_rs.Gossip.Table.{
  EndpointRow, EndpointTable, any, conflicts, insert_only, insert_row, of_kind, outdated, refresh,
  refresh_if, upsert_newer, written_row,
}
use sharerr_rs.Paths.Resolver.{component_eq}
use sharerr_rs.Prelude.Int.{ℤ}

abbrev pub has_number : ℕ → EndpointRow → Bool
has_number i row = row.id == i

-- What holds of the rows of every table: ids are handed out once, and an address has one row.
pub record IsTable (t : EndpointTable) : Type 0 where
  pub unused : (i : ℕ) → t.next_id ≤ i → count (has_number i) t.rows ≤ 0
  pub one_id : (i : ℕ) → count (has_number i) t.rows ≤ 1
  pub one_addr : (peer : ℕ) (kind addr : Bytes) → count (conflicts peer kind addr) t.rows ≤ 1

abbrev pub IsBounded : ℕ → EndpointTable → Type 0
IsBounded limit t = (peer : ℕ) (kind : Bytes) → count (of_kind peer kind) t.rows ≤ limit

pub of_kind_iff :
    (peer : ℕ) (kind : Bytes) (row : EndpointRow)
    → of_kind peer kind row ≡ true
    → (row.peer_id ≡ peer) × (row.kind ≡ kind)
of_kind_iff peer kind row h =
    ground (arith, h, nat_eqb_iff row.peer_id peer, list_eqb_iff row.kind kind)

conflicts_iff :
    (peer : ℕ) (kind addr : Bytes) (row : EndpointRow)
    → conflicts peer kind addr row ≡ true
    → (row.peer_id ≡ peer) × ((row.kind ≡ kind) × (row.addr ≡ addr))
conflicts_iff peer kind addr row h =
    ground (
      arith,
      h,
      nat_eqb_iff row.peer_id peer,
      list_eqb_iff row.kind kind,
      list_eqb_iff row.addr addr,
    )

-- A test that a new sighting of the row does not change.
abbrev pub IsLasting : (EndpointRow → Bool) → Type 0
IsLasting q = (at : ℤ) (via : Bytes) (row : EndpointRow) → q (refresh at via row) ≡ q row

refresh_if-IsLasting :
    (q : EndpointRow → Bool)
    → IsLasting q
    → (b : Bool) (at : ℤ) (via : Bytes) (row : EndpointRow) → q (refresh_if b at via row) ≡ q row
refresh_if-IsLasting q lasts false at via row = refl
refresh_if-IsLasting q lasts true at via row = lasts at via row

abbrev pub new_row : ℕ → ℕ → Bytes → Bytes → ℤ → Bytes → EndpointRow
new_row id peer kind addr at via = record {
  id = id;
  peer_id = peer;
  kind = kind;
  addr = addr;
  observed_at = at;
  via = via;
}

-- What a statement does to the rows: it keeps their number by every lasting test, or it adds a row
-- of an address that had none.
abbrev pub Wrote : ℕ → Bytes → Bytes → EndpointTable → Bool × EndpointTable → Type 0
Wrote peer kind addr t (written, t') =
    ((t'.next_id ≡ t.next_id)
      × ((q : EndpointRow → Bool) → IsLasting q → count q t'.rows ≡ count q t.rows))
    ⊎ ((written ≡ true)
        × ((any (conflicts peer kind addr) t.rows ≡ false)
            × ((at : ℤ) × (via : Bytes) × (t' ≡ insert_row peer kind addr at via t))))

upsert_newer-Wrote :
    (peer : ℕ) (kind addr : Bytes) (at : ℤ) (via : Bytes) (t : EndpointTable)
    → Wrote peer kind addr t (upsert_newer peer kind addr at via t)
unfolding upsert_newer
upsert_newer-Wrote peer kind addr at via t =
    elim (Bool-cases (any (conflicts peer kind addr) t.rows)) [
      | inl known ↦ rw known (
          inl (
            refl,
            λ q lasts.
                count-map q (λ row. refresh_if (outdated peer kind addr at row) at via row) t.rows
                  (λ row. refresh_if-IsLasting q lasts (outdated peer kind addr at row) at via row),
          ))
      | inr fresh ↦ rw fresh (inr (refl, (refl, (at, via, refl))))
    ]

insert_only-Wrote :
    (peer : ℕ) (kind addr : Bytes) (at : ℤ) (via : Bytes) (t : EndpointTable)
    → Wrote peer kind addr t (insert_only peer kind addr at via t)
unfolding insert_only
insert_only-Wrote peer kind addr at via t =
    elim (Bool-cases (any (conflicts peer kind addr) t.rows)) [
      | inl known ↦ rw known (inl (refl, λ q lasts. refl))
      | inr fresh ↦ rw fresh (inr (refl, (refl, (at, via, refl))))
    ]

pub written_row-Wrote :
    (now : ℤ) (peer : ℕ) (kind addr : Bytes) (observed_at : Option ℤ) (via : Bytes)
    (t : EndpointTable)
    → Wrote peer kind addr t (written_row now peer kind addr observed_at via t)
unfolding written_row
written_row-Wrote now peer kind addr (some observed_at) via t =
    upsert_newer-Wrote peer kind addr _ via t
written_row-Wrote now peer kind addr none via t = insert_only-Wrote peer kind addr now via t

pub count-insert_row :
    (q : EndpointRow → Bool) (peer : ℕ) (kind addr : Bytes) (at : ℤ) (via : Bytes)
    (t : EndpointTable)
    → count q (insert_row peer kind addr at via t).rows
      ≡ count q t.rows + one_if (q (new_row t.next_id peer kind addr at via))
unfolding insert_row
count-insert_row q peer kind addr at via t =
    let row = new_row t.next_id peer kind addr at via in
    omega (arith, count-append q t.rows (row ∷ []), count-cons q row [])

one_if-most : (b : Bool) → one_if b ≤ 1
one_if-most b = ground arith

pub insert_row-IsTable :
    (peer : ℕ) (kind addr : Bytes) (at : ℤ) (via : Bytes) (t : EndpointTable)
    → any (conflicts peer kind addr) t.rows ≡ false
    → IsTable t
    → IsTable (insert_row peer kind addr at via t)
unfolding insert_row
insert_row-IsTable peer kind addr at via t fresh w =
    let row = new_row t.next_id peer kind addr at via in
    record {
      unused = λ i h.
          let other : (t.next_id == i) ≡ false = ground arith in
          omega (
            arith,
            count-insert_row (has_number i) peer kind addr at via t,
            w.unused i (omega (arith, h)),
            ap one_if other,
          );
      one_id = λ i. elim (Bool-cases (t.next_id == i)) [
        | inl same ↦ omega (
          arith,
          count-insert_row (has_number i) peer kind addr at via t,
          w.unused i (omega (arith, (nat_eqb_iff t.next_id i).0 same)),
          ap one_if same,
        )
        | inr other ↦ omega (
          arith,
          count-insert_row (has_number i) peer kind addr at via t,
          w.one_id i,
          ap one_if other,
        )
      ];
      one_addr = λ p k a. elim (Bool-cases (conflicts p k a row)) [
        | inl same ↦
            let (e, (e', e'')) = conflicts_iff p k a row same in
            let was_free : count (conflicts p k a) t.rows ≡ 0 =
              subst (λ p. count (conflicts p k a) t.rows ≡ 0) e
                (subst (λ k. count (conflicts peer k a) t.rows ≡ 0) e'
                  (subst (λ a. count (conflicts peer kind a) t.rows ≡ 0) e''
                    (count-none (conflicts peer kind addr) t.rows fresh))) in
            omega (
              arith,
              count-insert_row (conflicts p k a) peer kind addr at via t,
              was_free,
              ap one_if same,
            )
        | inr other ↦ omega (
          arith,
          count-insert_row (conflicts p k a) peer kind addr at via t,
          w.one_addr p k a,
          ap one_if other,
        )
      ];
    }
