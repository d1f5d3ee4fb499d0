-- ===== src/Wfs/Mapping.antt =====
-- Block mapping of kernel/fs/wfs.c: from a block of a file to a block of the volume, and the freeing of
-- all blocks of a file.
pub mod Found
pub mod There
use wos.Prelude.{
  ℕ, zero, suc, ◌+◌, ◌-◌, ◌*◌, ◌/◌, ◌%◌, ◌^◌, Bool, true, false, not, ◌||◌, leb, ltb, set, get_or,
  List, [], ◌∷◌, map, ◌==◌, if◌then◌else◌,
}
use wos.Abi.{Error, enospc, efbig, Result, ok, err}
use wos.Exec.{Exec, pure, raise, gets, attempt, modify, ignore, ◌>>=◌, ◌>>◌}
use wos.Wfs.Device.{Device, Bytes}
use wos.Wfs.Words.{get_word, put_word}
use wos.Wfs.Layout.{Super, Inode, direct_blocks, ptrs_per_block, double_blocks}
use wos.Wfs.Volume.{Volume, load, store, block_alloc, block_free}
use wos.Wfs.Inodes.{wfs_read_inode, write_inode}

-- A field of the inode that holds a block number.
pub data Pointer : Type 0 where
  in_direct : (i : ℕ) → Pointer
  in_indirect : Pointer
  in_double : Pointer

abbrev pub get_pointer : Inode → Pointer → ℕ
get_pointer node (in_direct i) = get_or node.direct i 0
get_pointer node in_indirect = node.indirect
get_pointer node in_double = node.double_indirect

abbrev pub set_pointer : Inode → Pointer → ℕ → Inode
set_pointer node (in_direct i) b = record node { direct = set node.direct i b }
set_pointer node in_indirect b = record node { indirect = b }
set_pointer node in_double b = record node { double_indirect = b }

-- The volume, and the caller's `in` and `dirty`, which `bmap` changes also where it fails.
pub record Mapping (d : Device) : Type 0 where
  pub volume : Volume d
  pub node : Inode
  pub dirty : Bool

abbrev pub emptied_node : (now : ℕ) → Inode → Inode
emptied_node now node = record node {
  size = 0;
  blocks = 0;
  mtime = now;
  direct = map (λ _. 0) node.direct;
  indirect = 0;
  double_indirect = 0;
}

module _ {d : Device} where
  unfoldable pub on_volume {ℓ} :
      {A : Type ℓ} → (Volume d → Result A × Volume d) → Mapping d → Result A × Mapping d
  on_volume m s = let (r, v) = m s.volume in (r, record s { volume = v })

  abbrev pub or_enospc : ℕ × Volume d → Result ℕ × Volume d
  or_enospc (zero, v) = (err enospc, v)
  or_enospc (suc b, v) = (ok (suc b), v)

  -- `block_alloc`, for a caller that returns -W_ENOSPC where it fails.
  unfoldable pub new_block : Exec (Volume d) ℕ
  new_block v = or_enospc (block_alloc v)

  abbrev pub counted : Mapping d → Mapping d
  counted s = record s {
    node = record (s.node) { blocks = (s.node.blocks + 1) % 2 ^ 32 };
    dirty = true;
  }

  abbrev pub pointing : Pointer → ℕ → Mapping d → Mapping d
  pointing p b s = record s { node = set_pointer s.node p b }

  unfoldable pub fill_slot : Pointer → (alloc : Bool) → Exec (Mapping d) (Unit {0})
  fill_slot p alloc = do
    s ← gets (λ s. s)
    if not (get_pointer s.node p == 0) || not alloc
        then pure tt
        else do b ← on_volume new_block; modify (λ s. counted (pointing p b s))

  unfoldable pub table_slot : (table_block index : ℕ) → (alloc : Bool) → Exec (Mapping d) ℕ
  table_slot table_block index alloc = do
    table ← on_volume (load table_block)
    if not (get_word table (index * 4) == 0) || not alloc
        then pure (get_word table (index * 4))
        else do
          b ← on_volume new_block
          modify counted
          on_volume (store table_block (put_word table (index * 4) b))
          pure b

  abbrev pub pointer_of : Pointer → Exec (Mapping d) ℕ
  pointer_of p = gets (λ s. get_pointer s.node p)

  -- The table of the first level, or of the second, if there is one.
  unfoldable pub through : (table_block index : ℕ) → (alloc : Bool) → Exec (Mapping d) ℕ
  through table_block index alloc =
      if table_block == 0 then pure 0 else table_slot table_block index alloc

  unfoldable pub bmap_direct : (index : ℕ) → (alloc : Bool) → Exec (Mapping d) ℕ
  bmap_direct index alloc = do fill_slot (in_direct index) alloc; pointer_of (in_direct index)

  unfoldable pub bmap_indirect : (index : ℕ) → (alloc : Bool) → Exec (Mapping d) ℕ
  bmap_indirect index alloc = do
    fill_slot in_indirect alloc
    b ← pointer_of in_indirect
    through b index alloc

  unfoldable pub bmap_double : (index : ℕ) → (alloc : Bool) → Exec (Mapping d) ℕ
  bmap_double index alloc = do
    fill_slot in_double alloc
    b ← pointer_of in_double
    middle ← through b (index / ptrs_per_block) alloc
    through middle (index % ptrs_per_block) alloc

  -- `out` 0 is a hole.
  unfoldable pub bmap : (index : ℕ) → (alloc : Bool) → Exec (Mapping d) ℕ
  bmap index alloc =
      if ltb index direct_blocks
      then bmap_direct index alloc
      else if ltb (index - direct_blocks) ptrs_per_block
      then bmap_indirect (index - direct_blocks) alloc
      else if leb double_blocks (index - direct_blocks - ptrs_per_block)
      then raise efbig
      else bmap_double (index - direct_blocks - ptrs_per_block) alloc

  -- `if (b) block_free(b)`
  unfoldable pub free_if : (b : ℕ) → Volume d → Volume d
  free_if b v = if b == 0 then v else block_free b v

  -- The loop of `free_table` over `count` entries from entry `i` on.
  unfoldable pub free_entries : (count i : ℕ) → Bytes → Volume d → Volume d
  free_entries zero i table v = v
  free_entries (suc n) i table v = free_entries n (i + 1) table (free_if (get_word table (i * 4)) v)

  unfoldable pub free_read : Result Bytes × Volume d → Volume d
  free_read (ok table, v) = free_entries ptrs_per_block 0 table v
  free_read (err e, v) = v

  unfoldable pub free_table : (table_block : ℕ) → Volume d → Volume d
  free_table table_block v = if table_block == 0 then v else free_read (load table_block v)

  unfoldable pub free_middle : (b : ℕ) → Volume d → Volume d
  free_middle b v = if b == 0 then v else block_free b (free_table b v)

  -- The loop of `wfs_truncate` over the outer table.
  unfoldable pub free_middles : (count i : ℕ) → Bytes → Volume d → Volume d
  free_middles zero i outer v = v
  free_middles (suc n) i outer v =
      free_middles n (i + 1) outer (free_middle (get_word outer (i * 4)) v)

  unfoldable pub free_outer : Result Bytes × Volume d → Volume d
  free_outer (ok outer, v) = free_middles ptrs_per_block 0 outer v
  free_outer (err e, v) = v

  unfoldable pub free_direct : List ℕ → Volume d → Volume d
  free_direct [] v = v
  free_direct (b ∷ bs) v = free_direct bs (free_if b v)

  unfoldable pub free_indirect : (b : ℕ) → Volume d → Volume d
  free_indirect b v = if b == 0 then v else block_free b (free_table b v)

  unfoldable pub free_double : (b : ℕ) → Volume d → Volume d
  free_double b v = if b == 0 then v else block_free b (free_outer (load b v))

  unfoldable pub wfs_truncate : (ino : ℕ) → Exec (Volume d) (Unit {0})
  wfs_truncate ino = do
    node ← wfs_read_inode ino
    modify (free_direct node.direct)
    modify (free_indirect node.indirect)
    modify (free_double node.double_indirect)
    now ← gets (λ v. v.now)
    write_inode ino (emptied_node now node)
