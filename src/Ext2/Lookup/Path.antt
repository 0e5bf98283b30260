-- ===== src/Ext2/Lookup/Path.antt =====
-- Whole paths in ext2_inode_find of fs/ext2/inode.c.
use ester.Prelude.{
  ℕ, ◌+◌, ◌-◌, ◌*◌, ◌≤◌, ◌<◌, ◌≡◌, ◌≢◌, inl, inr, refl, ap, sym, ◌∙◌, false, some, List, [], ◌∷◌,
  length, Cells, arith, ◌==◌, Bool, Bool-cases,
}
use native.Mathlib.Nat.{zero-add}
use ester.Ext2.Layout.{BlockDevice}
use ester.Ext2.Super.{Fs}
use ester.Ext2.UnpackPath.{row_size, max_path_depth}
use ester.Ext2.UnpackPath.Rows.{Components, name, Unpacked, unpack_dir_path-Unpacked}
use ester.Ext2.UnpackPath.Bytes.{AreBytes, unpack_dir_path-AreBytes}
use ester.Ext2.Directory.{Entries, ext2_list_directory}
use ester.Ext2.Lookup.{Walker, unless_same, find_loop, same_name, slash, ext2_inode_find}
use ester.Ext2.Lookup.First.{IsName, HasNames, same_name_iff, step_into-entry}

-- The `l` characters of the path from index `i` on are an entry's name of `k` characters.
abbrev pub Matches : Cells → ℕ → ℕ → Cells → ℕ → Type 0
Matches path i l entry k = (l ≡ k) × ((c : ℕ) → c < l → path (i + c) ≡ entry c)

module _ {D : Type 0} (dev : BlockDevice D) (fs : Fs D) (path : Cells) where
  -- From a directory, the components of the path from index `i` on lead to the inode `goal`: each
  -- is the name of an entry of the directory before, and the first entry with that name has
  -- another inode's number.
  pub data Leads : ℕ → List ℕ → Walker → ℕ → Type 0 where
    arrived : {i : ℕ} {w : Walker} → Leads i [] w w.inode_num
    enters :
        {i l goal : ℕ} {ls : List ℕ} {w : Walker} (count t : ℕ) (entries' : Entries)
        (current' : Cells) (lens : ℕ → ℕ)
        → ext2_list_directory dev fs w.inode_num w.current w.entries
          ≡ some (count, entries', current')
        → HasNames entries' lens count
        → t < count
        → ((k : ℕ) → k < t → ¬ Matches path i l (entries' k).dir_name (lens k))
        → Matches path i l (entries' t).dir_name (lens t)
        → (entries' t).dir_inode ≢ w.inode_num
        → Leads
            (i + l + 1)
            ls
            (record { inode_num = (entries' t).dir_inode; current = current'; entries = entries' })
            goal
        → Leads i (l ∷ ls) w goal

  module _ (rows : Cells) (bytes : AreBytes rows) where
    abbrev row : ℕ → Cells
    row j a = rows (j * row_size + a)

    row-IsName :
        (i j l : ℕ)
        → ((t : ℕ) → t < l → (path (i + t) ≢ 0) × (path (i + t) ≢ b'/'))
        → l < row_size
        → ((t : ℕ) → t < l → rows (j * row_size + t) ≡ path (i + t))
        → rows (j * row_size + l) ≡ 0
        → IsName (row j) l
    row-IsName i j l chars short same end = record {
      string = record {
        ends = ap (row j) (zero-add l) ∙ end;
        inside = λ t h e. (chars t h).0 (sym (same t h) ∙ ap (row j) (sym (zero-add t)) ∙ e);
      };
      short = omega arith;
      bytes = λ a. bytes (j * row_size + a);
    }

    find_loop-Leads :
        (ls : List ℕ) (i j goal : ℕ) (w : Walker)
        → Components path i ls
        → Unpacked path i j ls rows
        → Leads i ls w goal
        → (w' : Walker) × (find_loop dev fs (length ls) j rows w ≡ some w') × (w'.inode_num ≡ goal)
    unfolding find_loop unless_same
    find_loop-Leads [] i j goal w names held arrived = (w, refl, refl)
    find_loop-Leads (l ∷ ls) i j goal w (name chars at_slash short next names) (same, end, held)
          (enters count t entries' current' lens listed hn lt before here moved leads) =
        let step =
          step_into-entry dev fs t l count (row j) current' w entries' lens listed
            (row-IsName i j l chars short same end) hn lt
            (λ k h both. before k h (both.0, λ c lt. sym (same c lt) ∙ both.1 c lt))
            (here.0, λ c lt. same c lt ∙ here.1 c lt) in
        let goes_on : ((entries' t).dir_inode == w.inode_num) ≡ false = ground (arith, moved) in
        let (w', e, is) =
          find_loop-Leads ls (i + l + 1) (j + 1) goal
            (record { inode_num = (entries' t).dir_inode; current = current'; entries = entries' })
            (rw next at names) held leads in
        (w', rw (step, goes_on) e, is)

  slash-IsName : IsName slash 1
  slash-IsName = record {
    string = record { ends = refl; inside = λ i h. ground arith };
    short = omega arith;
    bytes = λ i. ground arith;
  }

  not_root : (n : ℕ) → IsName path n → 1 < n → same_name path slash ≡ some false
  not_root n is_name long =
      let (e, ran, iff) = same_name_iff path slash n 1 is_name slash-IsName in
      elim (Bool-cases e) [
        | inl same ↦ absurd (omega (arith, (iff.0 same).0))
        | inr differs ↦ ran ∙ ap (λ (b : Bool). some b) differs
      ]

  -- For a path of bytes that starts with a slash and goes on with at most nine names of at most 256
  -- characters, each followed by a slash, and whose names lead from the root directory to an inode:
  -- in each directory on the way, the entries as ext2_list_directory leaves them in `dir_entries`,
  -- where a name lies without a terminator over what the array held before, are terminated there,
  -- and the first of them that equals the path's name has another inode's number than the
  -- directory. Then ext2_inode_find ends and returns the number of that inode, whatever bytes its
  -- array of path rows held before.
  pub inode_find-Leads :
      (n goal : ℕ) (ls : List ℕ) (old current : Cells) (entries : Entries)
      → IsName path n
      → 1 < n
      → AreBytes old
      → path 0 ≡ b'/'
      → Components path 1 ls
      → 1 + length ls ≤ max_path_depth
      → Leads 1 ls (record { inode_num = 2; current = current; entries = entries }) goal
      → (current' : Cells) × (ext2_inode_find dev fs path old current entries
          ≡ some (goal, current'))
  unfolding ext2_inode_find
  inode_find-Leads n goal ls old current entries is_name long bytes root names deep leads =
      let (rows, unpacked, _, _, held) = unpack_dir_path-Unpacked path ls old root names deep in
      let start : Walker = record { inode_num = 2; current = current; entries = entries } in
      let all_bytes =
        unpack_dir_path-AreBytes path is_name.bytes old rows (1 + length ls) unpacked bytes in
      let (w, e, is) = find_loop-Leads rows all_bytes ls 1 1 goal start names held leads in
      let left : 1 + length ls - 1 ≡ length ls = omega arith in
      (w.current, rw (unpacked, not_root n is_name long, left, e, is))
