-- ===== src/Tests/Paths.antt =====
-- unpack_dir_path on "/ab/c/" and on "/ab".
use ester.Prelude.{◌≡◌, refl, [], ◌∷◌, some, Cells, arith, ◌==◌, if◌then◌else◌}
use ester.Ext2.UnpackPath.{unpack_dir_path}
use ester.Ext2.UnpackPath.Rows.{Components, Unpacked, unpack_dir_path-Unpacked}

abbrev two_names : Cells
two_names i =
    if i == 0
    then b'/'
    else if i == 1
    then b'a'
    else if i == 2
    then b'b'
    else if i == 3
    then b'/'
    else if i == 4
    then b'c'
    else if i == 5
    then b'/'
    else 0

abbrev no_last_slash : Cells
no_last_slash i = if i == 0 then b'/' else if i == 1 then b'a' else if i == 2 then b'b' else 0

abbrev old_rows : Cells
old_rows a = 7

two_names-Components : Components two_names 1 (2 ∷ 1 ∷ [])
two_names-Components =
    Components.name {n = 4} (λ t h. (ground arith, ground arith)) refl (omega arith) refl
      (Components.name {n = 6} (λ t h. (ground arith, ground arith)) refl (omega arith) refl
        (Components.done refl))

unpack_dir_path-Unpacked_example :
    (rows' : Cells) × (unpack_dir_path two_names old_rows ≡ some (3, rows'))
    × (rows' 0 ≡ b'/')
    × (rows' 1 ≡ 0)
    × Unpacked two_names 1 1 (2 ∷ 1 ∷ []) rows'
unpack_dir_path-Unpacked_example =
    unpack_dir_path-Unpacked two_names (2 ∷ 1 ∷ []) old_rows refl two_names-Components (omega arith)
