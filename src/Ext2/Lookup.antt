-- ===== src/Ext2/Lookup.antt =====
-- Finding an inode by its path: ext2_inode_find of fs/ext2/inode.c and ext2_change_cwd of
-- fs/ext2/directory.c. The local arrays start with what they are given.
pub mod First
pub mod Path
use ester.Prelude.{
  ℕ, zero, suc, ◌+◌, ◌-◌, ◌*◌, ◌^◌, ◌&&◌, Bool, true, false, not, Option, none, some, Cells, ltb,
  ◌==◌, if◌then◌else◌, ◌>>=◌, update,
}
use ester.Kernel.Str.{strcmp, strlen}
use ester.Ext2.Layout.{BlockDevice, blit}
use ester.Ext2.Super.{Fs}
use ester.Ext2.UnpackPath.{unpack_dir_path, row_size}
use ester.Ext2.Directory.{DirEntry, Entries, ext2_list_directory}

-- Two arrays in one memory, farther apart than an index of strcmp reaches.
abbrev pub far : ℕ
far = 2 ^ 33

abbrev pub side_by_side : Cells → Cells → Cells
side_by_side a b i = if ltb i far then a i else b (i - far)

-- strcmp(a, b) == 0
unfoldable pub same_name : Cells → Cells → Option Bool
same_name a b = strcmp (side_by_side a b) 0 far >>= λ r. some (r == 0)

unfoldable pub found_or : Option (Option ℕ) → ℕ → Bool → Option (Option ℕ)
found_or rest dir_inode equal = if equal then some (some dir_inode) else rest

-- The inner loop, over the entries from `j` on: the first one with the name.
unfoldable pub match_entry : ℕ → ℕ → Cells → Entries → Option (Option ℕ)
match_entry zero j name entries = some none
match_entry (suc left) j name entries =
    let rest = match_entry left (j + 1) name entries in
    same_name name (entries j).dir_name >>= found_or rest (entries j).dir_inode

-- The inode so far, `__current_inode` and the array of entries.
pub record Walker : Type 0 where
  pub inode_num : ℕ
  pub current : Cells
  pub entries : Entries

abbrev entered : ℕ → Option ℕ → ℕ
entered old none = old
entered old (some n) = n

abbrev slash : Cells
slash i = if i == 0 then b'/' else 0

module _ {D : Type 0} (dev : BlockDevice D) (fs : Fs D) where
  -- One round of the outer loop: list the directory and look for the name.
  unfoldable pub step_into : Cells → Walker → Option Walker
  step_into name w =
      ext2_list_directory dev fs w.inode_num w.current w.entries >>= λ (count, entries, current).
      (match_entry count 0 name entries >>= λ hit.
      some (record { inode_num = entered w.inode_num hit; current = current; entries = entries }))

  unfoldable pub unless_same : ℕ → (Walker → Option Walker) → Walker → Option Walker
  unless_same old next w = if w.inode_num == old then some w else next w

  -- The loop of ext2_inode_find over the rows from `i` on; it stops where nothing was found.
  unfoldable pub find_loop : ℕ → ℕ → Cells → Walker → Option Walker
  find_loop zero i rows w = some w
  find_loop (suc left) i rows w =
      step_into (λ a. rows (i * row_size + a)) w
      >>= unless_same w.inode_num (find_loop left (i + 1) rows)

  -- The loop of ext2_change_cwd, which goes on.
  unfoldable pub cwd_loop : ℕ → ℕ → Cells → Walker → Option Walker
  cwd_loop zero i rows w = some w
  cwd_loop (suc left) i rows w =
      step_into (λ a. rows (i * row_size + a)) w >>= cwd_loop left (i + 1) rows

  -- The inode number and the new content of `__current_inode`.
  unfoldable pub ext2_inode_find : Cells → Cells → Cells → Entries → Option (ℕ × Cells)
  ext2_inode_find pathname rows current entries = do
    (path_depth, unpacked) ← unpack_dir_path pathname rows
    is_root ← same_name pathname slash
    let start : Walker = record { inode_num = 2; current = current; entries = entries }
    let walked = find_loop (path_depth - 1) 1 unpacked start
    w ← if is_root then some start else walked
    some (w.inode_num, w.current)

  -- cwd_t: the number and the name.
  unfoldable pub ext2_change_cwd :
      Cells → Cells → Cells → Cells → Entries → Option ((ℕ × Cells) × Cells)
  ext2_change_cwd cwd_name old_name rows current entries = do
    (path_depth, unpacked) ← unpack_dir_path cwd_name rows
    is_root ← same_name cwd_name slash
    let start : Walker = record { inode_num = 2; current = current; entries = entries }
    let walked = cwd_loop (path_depth - 1) 1 unpacked start
    w ← if is_root then some start else walked
    len ← strlen cwd_name 0
    let name = blit old_name 0 cwd_name 0 len
    some (
      (
        w.inode_num,
        if not is_root && (cwd_name (len - 1) == b'/') then update name (len - 1) 0 else name,
      ),
      w.current,
    )

-- The root directory: its number, and a name of one character without a terminator.
unfoldable ext2_init_cwd : Cells → ℕ × Cells
ext2_init_cwd cwd_name = (2, update cwd_name 0 b'/')
