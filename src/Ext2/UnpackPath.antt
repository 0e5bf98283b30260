-- ===== src/Ext2/UnpackPath.antt =====
-- unpack_dir_path of fs/ext2/directory.c. `unpacked_path` is one array of 10 rows of 257 bytes, so
-- a column past 256 is the next row; a store past its end is undefined in C and gives `none`.
pub mod Rows
pub mod Bytes
pub mod Last
use ester.Prelude.{
  ℕ, zero, suc, ◌+◌, ◌-◌, ◌*◌, ◌%◌, ◌^◌, Option, none, some, true, false, Cells, ltb, ◌==◌,
  if◌then◌else◌, ◌>>=◌, update,
}

abbrev pub row_size : ℕ
row_size = 257

abbrev pub max_path_depth : ℕ
max_path_depth = 10

-- unpacked_path[j][k] = v
unfoldable pub put : Cells → ℕ → ℕ → ℕ → Option Cells
put rows j k v =
    if ltb (j * row_size + k) (max_path_depth * row_size)
    then some (update rows (j * row_size + k) v)
    else none

-- The variables of the loop.
pub record Cursor : Type 0 where
  pub i : ℕ
  pub j : ℕ
  pub k : ℕ
  pub rows : Cells

-- At a slash the row is closed: behind the slash in row 0, over it in any other.
unfoldable pub close_row : Cells → Cursor → Option Cursor
close_row path c =
    if path c.i == b'/'
    then (put c.rows c.j (if c.j == 0 then c.k + 1 else c.k) 0 >>= λ rows.
        some (record { i = c.i + 1; j = c.j + 1; k = 0; rows = rows }))
    else some (record { i = c.i + 1; j = c.j; k = c.k + 1; rows = c.rows })

-- The body of the loop at a character that is not the terminator. No index can wrap: a store
-- past the array comes first.
unfoldable pub unpack_char : Cells → Cursor → Option Cursor
unfolding put close_row
unpack_char path c = do
  rows ← put c.rows c.j c.k (path c.i)
  close_row path (record c { rows = rows })

-- Each round moves the place of the store up, so 2571 rounds are enough.
abbrev pub unpack_fuel : ℕ
unpack_fuel = 2571

unfoldable pub unpack_loop : ℕ → Cells → Cursor → Option Cursor
unpack_loop zero path c = none
unpack_loop (suc fuel) path c = elim (path c.i == 0) [
  | true ↦ some c
  | false ↦ unpack_char path c >>= unpack_loop fuel path
]

-- After the loop: a path with no slash at its end has one more row. The depth is a uint16_t.
-- On the empty path `dir_path[i - 1]` is read in front of the array.
unfoldable pub unpack_end : Cells → Cursor → Option (ℕ × Cells)
unpack_end path c =
    if c.i == 0
    then none
    else if path (c.i - 1) == b'/'
    then some (c.j % 2 ^ 16, c.rows)
    else (put c.rows c.j (c.k + 1) 0 >>= λ closed. some ((c.j + 1) % 2 ^ 16, closed))

unfoldable pub unpack_dir_path : Cells → Cells → Option (ℕ × Cells)
unpack_dir_path path rows = do
  c ← unpack_loop unpack_fuel path (record { i = 0; j = 0; k = 0; rows = rows })
  unpack_end path c
