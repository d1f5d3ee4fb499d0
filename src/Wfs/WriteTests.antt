-- ===== src/Wfs/WriteTests.antt =====
-- The file of two blocks on the small volume, written by kernel/fs/wfs.c.
use wos.Prelude.{
  ℕ, zero, suc, ◌+◌, ◌-◌, ◌/◌, ◌≤◌, ◌≡◌, ◌≢◌, refl, subst, sym, ◌∙◌, inl, inr, List, [], ◌∷◌,
  get_or, arith, ltb, ◌==◌, if◌then◌else◌, Bool-cases,
}
use wos.Abi.{ok}
use wos.Exec.{◌>>=◌}
use wos.Wfs.Cache.{
  cache_reset, cache_find, victim_from, cache_victim, slot_for, fetch, read_at, block_read,
  after_write, block_write,
}
use wos.Wfs.Cache.Tests.{scratched_kept}
use wos.Wfs.Layout.{Inode, put_inode, get_inode, direct_blocks, ptrs_per_block}
use wos.Wfs.Layout.RoundTrip.{IsInode}
use wos.Wfs.Words.{get_word, put_word, get_words, put_words, copy_into}
use wos.Wfs.Volume.{load, store}
use wos.Wfs.Inodes.{wfs_read_inode, write_inode}
use wos.Wfs.Mapping.{
  on_volume, fill_slot, table_slot, through, bmap_direct, bmap_indirect, bmap_double, bmap,
}
use wos.Wfs.Mapping.Found.{block_at}
use wos.Wfs.Files.{
  with_node, old_block, write_chunk, write_mapped, write_round, write_loop, end_write, finish_write,
  write_all, wfs_write,
}
use wos.Wfs.Files.Runs.{IsPlaced}
use wos.Wfs.Files.Updated.{IsApart}
use wos.Wfs.Files.Outside.{IsOutside}
use wos.Wfs.Files.WriteBack.{CanWrite, Wrote, wfs_write-Wrote}
use wos.Wfs.ReadTests.{
  file_node, with_file, file_blocks, with_file-Represents, file-IsInTable, file_inode,
  file-IsPlaced,
}

abbrev AreZero : List ℕ → Type 0
AreZero [] = Unit {0}
AreZero (b ∷ bs) = (b ≡ 0) × AreZero bs

zero_at : (bs : List ℕ) (i : ℕ) → AreZero bs → get_or bs i 0 ≡ 0
zero_at [] i h = refl
zero_at (b ∷ bs) zero h = h.0
zero_at (b ∷ bs) (suc i) h = zero_at bs i h.1

-- The blocks of the file: 4, 5, and no others.
abbrev file_map : ℕ → ℕ
file_map i = if i == 0 then 4 else if i == 1 then 5 else 0

direct_map : (i : ℕ) → get_or file_node.direct i 0 ≡ file_map i
direct_map zero = refl
direct_map (suc zero) = refl
direct_map (suc (suc i)) =
    zero_at (0 ∷ 0 ∷ 0 ∷ 0 ∷ 0 ∷ 0 ∷ 0 ∷ 0 ∷ []) i (ground arith) ∙ ground arith

block_map : (i : ℕ) → block_at file_blocks file_node i ≡ file_map i
unfolding block_at
block_map i = elim (Bool-cases (ltb i direct_blocks)) [
  | inl y ↦ rw y (direct_map i)
  | inr n ↦ rw n (elim (Bool-cases (ltb (i - direct_blocks) ptrs_per_block)) [
    | inl y ↦ rw y (ground arith)
    | inr m ↦ rw m (ground arith)
  ])
]

file_node-IsInode : IsInode file_node
file_node-IsInode = record {
  type_fits = omega arith;
  links_fit = omega arith;
  size_fits = omega arith;
  blocks_fit = omega arith;
  mtime_fits = omega arith;
  direct_fit = ground arith;
  ten_direct = refl;
  indirect_fits = omega arith;
  double_fits = omega arith;
}

file_node-IsApart : IsApart file_blocks file_node
file_node-IsApart = record {
  one_each = λ i j there e. ground (arith, block_map i, block_map j);
  first = λ h. absurd (h refl);
  outer = λ h. absurd (h refl);
  middle = λ q h. absurd (h refl);
}

file_node-IsOutside : IsOutside file_blocks file_node 2
file_node-IsOutside = record {
  contents = λ i. ground (arith, block_map i);
  first = λ h. absurd (h refl);
  outer = λ h. absurd (h refl);
  middle = λ q h. absurd (h refl);
}

with_file-CanWrite : CanWrite scratched_kept file_blocks 2 1000 300 with_file
with_file-CanWrite = record {
  in_table = file-IsInTable;
  is_inode = subst IsInode (sym file_inode) file_node-IsInode;
  placed =
      subst (λ (n : Inode). IsPlaced file_blocks n with_file.io.partition) (sym file_inode)
        file-IsPlaced;
  apart = subst (λ (n : Inode). IsApart file_blocks n) (sym file_inode) file_node-IsApart;
  outside = subst (λ (n : Inode). IsOutside file_blocks n 2) (sym file_inode) file_node-IsOutside;
  there = λ i h.
      subst (λ (n : Inode). block_at file_blocks n ((1000 + i) / 1024) ≢ 0) (sym file_inode)
        (ground (arith, h, block_map ((1000 + i) / 1024)));
  small = omega arith;
  time = omega arith;
}

file_written : (wfs_write 2 1000 (λ i. 3) 300 with_file).0 ≡ ok 300
unfolding cache_reset cache_find victim_from cache_victim slot_for fetch read_at block_read
    after_write block_write put_inode get_inode get_word put_word get_words put_words copy_into load
    store wfs_read_inode write_inode on_volume fill_slot table_slot through bmap_direct
    bmap_indirect bmap_double bmap with_node old_block write_chunk write_mapped write_round
    write_loop end_write finish_write write_all wfs_write ◌>>=◌
file_written = refl

wfs_write-Wrote_example :
    (300 ≤ 300)
    × Wrote scratched_kept file_blocks 2 1000
        (λ i. 3)
        with_file
        300
        (wfs_write 2 1000 (λ i. 3) 300 with_file).1
wfs_write-Wrote_example =
    wfs_write-Wrote scratched_kept file_blocks 2 1000 300 300 (λ i. 3) with_file
      with_file-Represents with_file-CanWrite (omega arith) file_written
