-- ===== src/Torrent/Fields.antt =====
-- The accessors of a torrent: its hashes and the fields of its info dictionary. sha1, sha256 and the
-- hex crate's `encode` are parameters.
use mathlib.Core.Option
use sharerr_rs.Prelude.{
  Bool, Bytes, List, Option, [], codes, false, if◌then◌else◌, list_eq, ltb, nat_eq, none, not,
  option_eqb, some, take, ℕ, ◌++◌, ◌==◌, ◌||◌, ◌∷◌,
}
use sharerr_rs.Announce.Swarms.{announce}
use sharerr_rs.Bencode.Encode.{write_dict}
use sharerr_rs.Bencode.Value.{
  Items, Value, as_bytes, as_dict, as_int, as_list, as_str, cons, get_entry, nil,
}
use sharerr_rs.Endpoint.AnnounceList.{tiers}
use sharerr_rs.Paths.Resolver.{component_eq, unwrap_or}
use sharerr_rs.Prelude.HashMap.{filter_option, is_some}
use sharerr_rs.Prelude.Int.{i64_max, ltb_ℤ, negsuc, pos, ℤ, ◌+ℤ◌}
use sharerr_rs.Torrent.Metainfo.{Torrent, parse_tier}

unfoldable pub info_field : Torrent → Bytes → Option Value
unfolding get_entry
info_field t key = get_entry key t.info

abbrev pub bind_option {ℓ κ} : {A : Type ℓ} {B : Type κ} → Option A → (A → Option B) → Option B
bind_option none f = none
bind_option (some a) f = f a

module _ (sha1 sha256 hex_encode : Bytes → Bytes) where
  unfoldable pub info_hash : Torrent → Bytes
  unfolding write_dict
  info_hash t = hex_encode (sha1 (write_dict t.info))

  abbrev pub is_two : Option ℤ → Bool
  is_two none = false
  is_two (some (pos n)) = n == 2
  is_two (some (negsuc n)) = false

  unfoldable pub info_hash_v2 : Torrent → Option Bytes
  unfolding write_dict info_field as_int
  info_hash_v2 t =
      if not (is_two (bind_option (info_field t (codes "meta version")) as_int))
      then none
      else some (hex_encode (take 20 (sha256 (write_dict t.info))))

unfoldable pub name : Torrent → Option Bytes
unfolding info_field as_str
name t = bind_option (info_field t (codes "name")) as_str

-- `i64::checked_add`
unfoldable pub checked_add : ℤ → ℤ → Option ℤ
checked_add a b =
    let sum = a +ℤ b in
    if ltb_ℤ (pos i64_max) sum || ltb_ℤ sum (negsuc i64_max) then none else some sum

-- The `length` of one file of the list.
unfoldable pub file_length : Value → Option ℤ
unfolding as_dict get_entry as_int
file_length file =
    bind_option (as_dict file) λ es. bind_option (get_entry (codes "length") es) as_int

-- `try_fold`
unfoldable pub sum_lengths : ℤ → Items → Option ℤ
unfolding file_length checked_add
sum_lengths sum nil = some sum
sum_lengths sum (cons file files) =
    bind_option (file_length file)
      λ n. bind_option (checked_add sum n) λ next. sum_lengths next files

abbrev pub single_or : Option ℤ → Option ℤ → Option ℤ
single_or (some n) files = some n
single_or none files = files

-- Named as the method `length`; `length` is the list's here.
unfoldable pub total_length : Torrent → Option ℤ
unfolding info_field as_int as_list sum_lengths
total_length t = single_or (bind_option (info_field t (codes "length")) as_int) (
    bind_option (info_field t (codes "files"))
      λ v. bind_option (as_list v) λ files. sum_lengths (pos 0) files)

-- `u64::try_from`
abbrev pub to_u64 : ℤ → Option ℕ
to_u64 (pos n) = some n
to_u64 (negsuc n) = none

unfoldable pub content_length : Torrent → ℕ
unfolding total_length
content_length t = unwrap_or (bind_option (total_length t) to_u64) 0

unfoldable pub is_single_file : Torrent → Bool
unfolding info_field
is_single_file t = not (is_some (info_field t (codes "files")))

-- `join("/")`
abbrev pub join_slash : List Bytes → Bytes
join_slash [] = []
join_slash (part ∷ []) = part
join_slash (part ∷ next ∷ parts) = part ++ b'/' ∷ join_slash (next ∷ parts)

unfoldable pub file_path : Value → Option Bytes
unfolding as_dict get_entry as_list parse_tier
file_path file = bind_option (as_dict file) λ es.
    bind_option (get_entry (codes "path") es)
      λ v. bind_option (as_list v) λ parts. Option.map join_slash (parse_tier parts)

abbrev pub push_path : {A : Type 0} → Option A → List A → List A
push_path none rest = rest
push_path (some a) rest = a ∷ rest

unfoldable pub each_path : Items → List Bytes
unfolding file_path
each_path nil = []
each_path (cons file files) = push_path (file_path file) (each_path files)

unfoldable pub paths_or_none : Option Items → List Bytes
unfolding each_path
paths_or_none none = []
paths_or_none (some files) = each_path files

unfoldable pub file_paths : Torrent → List Bytes
unfolding info_field as_list each_path paths_or_none
file_paths t = paths_or_none (bind_option (info_field t (codes "files")) as_list)

unfoldable pub piece_length : Torrent → Option ℕ
unfolding info_field as_int
piece_length t =
    bind_option (info_field t (codes "piece length"))
      λ v. bind_option (as_int v) λ n. filter_option (λ size. ltb 0 size) (to_u64 n)

unfoldable pub pieces : Torrent → Option Bytes
unfolding info_field as_bytes
pieces t = bind_option (info_field t (codes "pieces")) as_bytes

unfoldable pub announce_tiers : Torrent → List (List Bytes)
announce_tiers t = elim t.announce_list [
  | some ([]) ↦ elim t.announce [ none ↦ [] | some announce ↦ (announce ∷ []) ∷ [] ]
  | some (tier ∷ tiers) ↦ tier ∷ tiers
  | none ↦ elim t.announce [ none ↦ [] | some announce ↦ (announce ∷ []) ∷ [] ]
]

unfoldable pub is_private : Torrent → Bool
unfolding info_field as_int
is_private t =
    option_eqb (bind_option (bind_option (info_field t (codes "private")) as_int) to_u64) (some 1)
