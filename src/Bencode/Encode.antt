-- ===== src/Bencode/Encode.antt =====
-- `encode` and the writers. A writer is what it appends.
use sharerr_rs.Prelude.{Bytes, List, [], length, ℕ, ◌++◌, ◌∷◌}
use sharerr_rs.Bencode.Decode.{value}
use sharerr_rs.Bencode.Value.{Entries, Items, Value, bytes, cons, dict, end, entry, int, list, nil}
use sharerr_rs.Prelude.Decimal.{decimal, decimal_ℤ}
use sharerr_rs.Prelude.Int.{ℤ}

unfoldable pub write_int : ℤ → Bytes
unfolding decimal_ℤ
write_int value = b'i' ∷ decimal_ℤ value ++ b'e' ∷ []

-- The `<len>:` prefix of a byte string.
unfoldable pub write_len : ℕ → Bytes
unfolding decimal
write_len len = decimal len ++ b':' ∷ []

unfoldable pub write_bytes : Bytes → Bytes
unfolding write_len
write_bytes b = write_len (length b) ++ b

unfoldable mutual
  unfolding write_int write_bytes

  pub write : Value → Bytes
  write (int n) = write_int n
  write (bytes b) = write_bytes b
  write (list xs) = b'l' ∷ write_items xs ++ b'e' ∷ []
  write (dict es) = b'd' ∷ write_entries es ++ b'e' ∷ []

  pub write_items : Items → Bytes
  write_items nil = []
  write_items (cons v xs) = write v ++ write_items xs

  pub write_entries : Entries → Bytes
  write_entries end = []
  write_entries (entry k v es) = write_bytes k ++ (write v ++ write_entries es)

unfoldable pub encode : Value → Bytes
unfolding write
encode v = write v

-- One value of a dictionary that is written from borrowed parts.
pub data Field : Type 0 where
  field_value : Value → Field
  field_dict : Entries → Field

abbrev pub Fields : Type 0
Fields = List (Bytes × Field)

unfoldable pub write_dict : Entries → Bytes
unfolding write
write_dict es = b'd' ∷ write_entries es ++ b'e' ∷ []

unfoldable pub write_field : Field → Bytes
unfolding write write_dict
write_field (field_value v) = write v
write_field (field_dict es) = write_dict es

unfoldable pub write_each : Fields → Bytes
unfolding write_bytes write_field
write_each [] = []
write_each ((key, field) ∷ fields) = write_bytes key ++ (write_field field ++ write_each fields)

unfoldable pub write_fields : Fields → Bytes
unfolding write_each
write_fields fields = b'd' ∷ write_each fields ++ b'e' ∷ []
