-- ===== src/Wfs/Tests.antt =====
-- A small volume of kernel/fs/wfs.c: sixteen blocks, of which 0 is the superblock, 1 the bitmap, 2 the
-- inodes and 3 the root directory.
use wos.Prelude.{
  ℕ, ◌+◌, ◌-◌, ◌*◌, ◌≡◌, ◌<◌, ◌^◌, ◌%◌, ◌↔◌, refl, List, [], ◌∷◌, true, replicate, arith, ◌==◌,
  if◌then◌else◌,
}
use wos.Wfs.Device.{Bytes}
use wos.Wfs.Cache.{empty_slot, cache_blocks, cache_reset}
use wos.Wfs.Cache.Tests.{scratched, scratched_kept, sectors}
use wos.Wfs.Cache.Represented.{Represents, cache_reset-Represents}
use wos.Wfs.Layout.RoundTrip.{IsInode}
use wos.Wfs.Inodes.{write_inode}
use wos.Wfs.Inodes.Written.{IsInTable, Written, write_inode-Written}
use wos.Wfs.Volume.Alloc.{IsLaidOut, Allocates, block_alloc-Allocates}
use wos.Wfs.Paths.{wfs_lookup}
use wos.Wfs.Paths.Lookup.{components, descend, wfs_lookup-descend}
use wos.Wfs.Mount.{wfs_statfs}
use wos.Wfs.Mount.Usage.{total_of, free_of, wfs_statfs_iff}
use wos.Wfs.Layout.{Super, magic_v3, Inode, no_inode, type_dir, type_file, put_inode}
use wos.Wfs.Words.{zeroes}
use wos.Wfs.Volume.{Volume, block_alloc}
use wos.Wfs.Volume.Sound.{Sound}
use wos.Bits.{test_bit}
use wos.Wfs.Volume.Bitmap.{used, free_count}
use wos.Wfs.Calls.{Call, run, run-Sound}

abbrev pub small_super : Super
small_super = record {
  magic = magic_v3;
  block_bytes = 1024;
  total_blocks = 16;
  free_blocks = 12;
  total_inodes = 16;
  free_inodes = 14;
  bitmap_start = 1;
  bitmap_blocks = 1;
  inode_start = 2;
  inode_blocks = 1;
  data_start = 3;
  root_inode = 1;
}

abbrev pub root_node : Inode
root_node = record no_inode { type = type_dir; links = 1; size = 0 }

abbrev pub small : Volume scratched
small = record {
  sb = small_super;
  bitmap = λ i. if i == 0 then 15 else 0;
  mounted = true;
  io = record {
    partition = 100;
    cache = replicate cache_blocks empty_slot;
    clock = 0;
    disk = λ sector. if sector == 104 then put_inode zeroes 64 root_node else zeroes;
  };
  now = 1700000000;
  junk = zeroes;
}

abbrev pub file_a : List ℕ
file_a = 47 ∷ 97 ∷ []

abbrev some_calls : List Call
some_calls =
    Call.create file_a type_file
    ∷ Call.write 2 0 (λ i. 7) 1500
    ∷ Call.lookup file_a
    ∷ Call.unlink file_a
    ∷ []

small-Sound : Sound (record small_super { free_blocks = 0; free_inodes = 0 }) small
unfolding free_count used test_bit
small-Sound = record {
  geometry = refl;
  small = omega arith;
  bytes = λ i. ground arith;
  counted = refl;
}

run-Sound_example :
    Sound (record small_super { free_blocks = 0; free_inodes = 0 }) (run some_calls small)
run-Sound_example = run-Sound some_calls small small-Sound

-- The same volume with an empty cache, and its blocks.
abbrev pub fresh : Volume scratched
fresh = record small { io = cache_reset scratched small.io }

abbrev pub small_blocks : ℕ → Bytes
small_blocks b = sectors small.io.disk (100 + b * 2) 2

fresh-Represents : Represents scratched_kept small_blocks fresh.io
fresh-Represents = cache_reset-Represents scratched scratched_kept small.io

root-IsInTable : IsInTable fresh 1
unfolding cache_reset
root-IsInTable = (omega arith, omega arith, omega arith, omega arith)

abbrev longer_root : Inode
longer_root = record root_node { size = 32 }

longer_root-IsInode : IsInode longer_root
longer_root-IsInode = record {
  type_fits = omega arith;
  links_fit = omega arith;
  size_fits = omega arith;
  blocks_fit = omega arith;
  mtime_fits = omega arith;
  direct_fit = ground arith;
  ten_direct = refl;
  indirect_fits = omega arith;
  double_fits = omega arith;
}

write_inode-Written_example :
    Written scratched_kept small_blocks 1 longer_root fresh (write_inode 1 longer_root fresh)
write_inode-Written_example =
    write_inode-Written scratched_kept small_blocks 1 longer_root fresh fresh-Represents
      longer_root-IsInode root-IsInTable

fresh-IsLaidOut : IsLaidOut fresh
unfolding cache_reset
fresh-IsLaidOut = record {
  in_range = λ n h. omega arith;
  bitmap_below = λ n h. omega arith;
  small = omega arith;
}

block_alloc-Allocates_example : Allocates scratched_kept small_blocks fresh 3 16 (block_alloc fresh)
block_alloc-Allocates_example =
    block_alloc-Allocates scratched_kept small_blocks fresh fresh-Represents fresh-IsLaidOut
      (omega arith)

wfs_lookup-descend_example :
    wfs_lookup (47 ∷ 97 ∷ 47 ∷ 47 ∷ 98 ∷ []) small
    ≡ descend 1 (components (47 ∷ 97 ∷ 47 ∷ 47 ∷ 98 ∷ [])) small
wfs_lookup-descend_example = wfs_lookup-descend (47 ∷ 97 ∷ 47 ∷ 47 ∷ 98 ∷ []) small refl refl

wfs_statfs_iff_example :
    ((wfs_statfs small).total_bytes ≡ total_of small % 2 ^ 32)
    × ((wfs_statfs small).free_bytes ≡ free_of small % 2 ^ 32)
    × (((wfs_statfs small).total_bytes ≡ total_of small)
          × ((wfs_statfs small).free_bytes ≡ free_of small)
          × ((wfs_statfs small).used_bytes ≡ total_of small - free_of small)
        ↔ (total_of small < 2 ^ 32))
wfs_statfs_iff_example = wfs_statfs_iff small refl (omega arith)
