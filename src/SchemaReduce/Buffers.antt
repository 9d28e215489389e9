-- ===== src/SchemaReduce/Buffers.antt =====
-- What the reduce function uses of `serbuffer`: a row of values with their types, written in order and
-- read by index. A call with another type than the column's is an `Err`, which is `none`.
use rlink_rs.Prelude.{ℕ, ◌≡◌, Option, some, List, get_elem?, map}
use rlink_rs.SchemaReduce.{DataType, Value}

-- A value with its type
abbrev pub Cell : Type 0 → Type 0
Cell F = (t : DataType) × Value F t

abbrev pub type_of : {F : Type 0} → Cell F → DataType
type_of c = c.0

pub record Serbuffer (F : Type 0) : Type 1 where
  pub Buffer : Type 0
  -- `get_i8`, .., `get_binary`, by the type, with the type ids of the reader
  pub get : List DataType → Buffer → (t : DataType) → ℕ → Option (Value F t)
  -- A new buffer after `set_i8`, .., `set_binary` in turn, with the type ids of the writer
  pub write : List DataType → List (Cell F) → Option Buffer
  pub write-typed :
      (ts : List DataType) (cs : List (Cell F))
      → map type_of cs ≡ ts
      → (b : Buffer) × (write ts cs ≡ some b)
  pub get-write :
      (ts : List DataType) (cs : List (Cell F)) (b : Buffer) (i : ℕ) (c : Cell F)
      → write ts cs ≡ some b
      → map type_of cs ≡ ts
      → get_elem? cs i ≡ some c
      → get ts b c.0 i ≡ some c.1
