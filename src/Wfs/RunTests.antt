-- ===== src/Wfs/RunTests.antt =====
-- Runs of kernel/fs/wfs.c on the small volume.
use wos.Wfs.Cache.{
  cache_find, victim_from, cache_victim, slot_for, cache_reset, fetch, read_at, block_read,
  after_write, block_write, blocks_read,
}
use wos.Wfs.Words.{get_word, put_word, get_words, put_words, copy_into}
use wos.Wfs.Layout.{put_super, get_super, put_inode, get_inode}
use wos.Wfs.Volume.Bitmap.{used, use_bit, free_bit, free_count}
use wos.Wfs.Volume.{
  load, store, sync_superblock, sync_bitmap_for, sync_both, after_zeroing, take_block,
  block_alloc_from, block_alloc, block_free,
}
use wos.Wfs.Inodes.{
  wfs_read_inode, write_inode, claim_inode, inode_alloc_from, inode_alloc, inode_free, wfs_utime,
}
use wos.Wfs.Mapping.{
  on_volume, new_block, fill_slot, table_slot, through, bmap_direct, bmap_indirect, bmap_double,
  bmap, free_if, free_entries, free_read, free_table, free_middle, free_middles, free_outer,
  free_direct, free_indirect, free_double, wfs_truncate,
}
use wos.Wfs.Files.{
  with_node, find_block, run_from, run_of, load_run, read_round, read_loop, wfs_read, old_block,
  write_chunk, write_mapped, write_round, write_loop, end_write, finish_write, write_all, wfs_write,
}
use wos.Wfs.Directories.{
  string_at, put_string, dirent, scan, find_entry, dir_find, dir_add, dir_remove, dir_is_empty,
  list_found, wfs_readdir,
}
use wos.Wfs.Paths.{
  skip_slashes, take_name, split_last, enter, enter_next, walk, wfs_lookup, parent_of,
  resolve_split, resolve_parent, check_mounted, or_undo, add_dots, discard, wfs_create, wfs_unlink,
  below_parent, is_below, replace, move_entry, wfs_rename,
}
use wos.Bytes.{str_eq, strlcpy}
use wos.Bits.{test_bit, set_bit, clear_bit}
use wos.Prelude.{ℕ, ◌≡◌, refl, ◌%◌, true, false, arith, List, [], ◌∷◌, update}
use wos.Abi.{ok, err, einval, enoent, enospc}
use wos.Exec.{Exec, ◌>>=◌, ◌>>◌, pure, gets}
use wos.Wfs.Cache.Tests.{scratched}
use wos.Wfs.Tests.{small, root_node, file_a}
use wos.Wfs.Mapping.{Mapping}
use wos.Wfs.Files.Failed.{wfs_write-fails}
use wos.Wfs.Layout.{type_file, type_dir}
use wos.Wfs.Volume.{Volume}

abbrev file_b : List ℕ
file_b = 47 ∷ 98 ∷ []

-- A file over two blocks, read across their border.
write_and_read : Exec (Volume scratched) (ℕ × ℕ × ℕ)
write_and_read = do
  ino ← wfs_create file_a type_file
  wfs_write ino 0 (λ i. i % 7) 1500
  p ← wfs_read ino 1020 (λ i. 0) 1000
  pure (p.done, p.buffer 3, p.buffer 10)

write_and_read_run : (write_and_read small).0 ≡ ok (480, 1, 1)
unfolding cache_find victim_from cache_victim slot_for cache_reset fetch read_at block_read
    after_write block_write blocks_read get_word put_word get_words put_words copy_into put_super
    get_super put_inode get_inode used use_bit free_bit free_count load store sync_superblock
    sync_bitmap_for sync_both after_zeroing take_block block_alloc_from block_alloc block_free
    wfs_read_inode write_inode claim_inode inode_alloc_from inode_alloc inode_free wfs_utime
    on_volume new_block fill_slot table_slot through bmap_direct bmap_indirect bmap_double bmap
    free_if free_entries free_read free_table free_middle free_middles free_outer free_direct
    free_indirect free_double wfs_truncate with_node find_block run_from run_of load_run read_round
    read_loop wfs_read old_block write_chunk write_mapped write_round write_loop end_write
    finish_write write_all wfs_write string_at put_string dirent scan find_entry dir_find dir_add
    dir_remove dir_is_empty list_found wfs_readdir skip_slashes take_name split_last enter
    enter_next walk wfs_lookup parent_of resolve_split resolve_parent check_mounted or_undo add_dots
    discard wfs_create wfs_unlink below_parent is_below replace move_entry wfs_rename str_eq strlcpy
    test_bit set_bit clear_bit ◌>>=◌ update write_and_read
write_and_read_run = refl

-- A file with a new name is not found under the old one.
rename_and_look : Exec (Volume scratched) ℕ
rename_and_look = do
  ino ← wfs_create file_a type_dir
  wfs_rename file_a file_b
  same ← wfs_lookup file_b
  wfs_lookup (47 ∷ 98 ∷ 47 ∷ 46 ∷ 46 ∷ file_b)
  wfs_lookup file_a

rename_and_look_run : (rename_and_look small).0 ≡ err enoent
unfolding cache_find victim_from cache_victim slot_for cache_reset fetch read_at block_read
    after_write block_write blocks_read get_word put_word get_words put_words copy_into put_super
    get_super put_inode get_inode used use_bit free_bit free_count load store sync_superblock
    sync_bitmap_for sync_both after_zeroing take_block block_alloc_from block_alloc block_free
    wfs_read_inode write_inode claim_inode inode_alloc_from inode_alloc inode_free wfs_utime
    on_volume new_block fill_slot table_slot through bmap_direct bmap_indirect bmap_double bmap
    free_if free_entries free_read free_table free_middle free_middles free_outer free_direct
    free_indirect free_double wfs_truncate with_node find_block run_from run_of load_run read_round
    read_loop wfs_read old_block write_chunk write_mapped write_round write_loop end_write
    finish_write write_all wfs_write string_at put_string dirent scan find_entry dir_find dir_add
    dir_remove dir_is_empty list_found wfs_readdir skip_slashes take_name split_last enter
    enter_next walk wfs_lookup parent_of resolve_split resolve_parent check_mounted or_undo add_dots
    discard wfs_create wfs_unlink below_parent is_below replace move_entry wfs_rename str_eq strlcpy
    test_bit set_bit clear_bit ◌>>=◌ update rename_and_look
rename_and_look_run = refl

-- A directory cannot go below itself.
move_below : Exec (Volume scratched) (Unit {0})
move_below = do wfs_create file_a type_dir; wfs_rename file_a (47 ∷ 97 ∷ file_b)

move_below_run : (move_below small).0 ≡ err einval
unfolding cache_find victim_from cache_victim slot_for cache_reset fetch read_at block_read
    after_write block_write blocks_read get_word put_word get_words put_words copy_into put_super
    get_super put_inode get_inode used use_bit free_bit free_count load store sync_superblock
    sync_bitmap_for sync_both after_zeroing take_block block_alloc_from block_alloc block_free
    wfs_read_inode write_inode claim_inode inode_alloc_from inode_alloc inode_free wfs_utime
    on_volume new_block fill_slot table_slot through bmap_direct bmap_indirect bmap_double bmap
    free_if free_entries free_read free_table free_middle free_middles free_outer free_direct
    free_indirect free_double wfs_truncate with_node find_block run_from run_of load_run read_round
    read_loop wfs_read old_block write_chunk write_mapped write_round write_loop end_write
    finish_write write_all wfs_write string_at put_string dirent scan find_entry dir_find dir_add
    dir_remove dir_is_empty list_found wfs_readdir skip_slashes take_name split_last enter
    enter_next walk wfs_lookup parent_of resolve_split resolve_parent check_mounted or_undo add_dots
    discard wfs_create wfs_unlink below_parent is_below replace move_entry wfs_rename str_eq strlcpy
    test_bit set_bit clear_bit ◌>>=◌ update move_below
move_below_run = refl

-- Removing the file gives its blocks back: one is left to the root directory.
free_again : Exec (Volume scratched) ℕ
free_again = do
  ino ← wfs_create file_a type_file
  wfs_write ino 12000 (λ i. 5) 2000
  wfs_unlink file_a
  gets (λ v. v.sb.free_blocks)

free_again_run : (free_again small).0 ≡ ok 11
unfolding cache_find victim_from cache_victim slot_for cache_reset fetch read_at block_read
    after_write block_write blocks_read get_word put_word get_words put_words copy_into put_super
    get_super put_inode get_inode used use_bit free_bit free_count load store sync_superblock
    sync_bitmap_for sync_both after_zeroing take_block block_alloc_from block_alloc block_free
    wfs_read_inode write_inode claim_inode inode_alloc_from inode_alloc inode_free wfs_utime
    on_volume new_block fill_slot table_slot through bmap_direct bmap_indirect bmap_double bmap
    free_if free_entries free_read free_table free_middle free_middles free_outer free_direct
    free_indirect free_double wfs_truncate with_node find_block run_from run_of load_run read_round
    read_loop wfs_read old_block write_chunk write_mapped write_round write_loop end_write
    finish_write write_all wfs_write string_at put_string dirent scan find_entry dir_find dir_add
    dir_remove dir_is_empty list_found wfs_readdir skip_slashes take_name split_last enter
    enter_next walk wfs_lookup parent_of resolve_split resolve_parent check_mounted or_undo add_dots
    discard wfs_create wfs_unlink below_parent is_below replace move_entry wfs_rename str_eq strlcpy
    test_bit set_bit clear_bit ◌>>=◌ update free_again
free_again_run = refl

-- A path below a file that is no directory is accepted, and the entry is written into that file.
create_in_file : Exec (Volume scratched) (ℕ × ℕ)
create_in_file = do
  ino ← wfs_create file_a type_file
  below ← wfs_create (47 ∷ 97 ∷ file_b) type_file
  node ← wfs_read_inode ino
  pure (node.type, node.size)

create_in_file_run : (create_in_file small).0 ≡ ok (type_file, 32)
unfolding cache_find victim_from cache_victim slot_for cache_reset fetch read_at block_read
    after_write block_write blocks_read get_word put_word get_words put_words copy_into put_super
    get_super put_inode get_inode used use_bit free_bit free_count load store sync_superblock
    sync_bitmap_for sync_both after_zeroing take_block block_alloc_from block_alloc block_free
    wfs_read_inode write_inode claim_inode inode_alloc_from inode_alloc inode_free wfs_utime
    on_volume new_block fill_slot table_slot through bmap_direct bmap_indirect bmap_double bmap
    free_if free_entries free_read free_table free_middle free_middles free_outer free_direct
    free_indirect free_double wfs_truncate with_node find_block run_from run_of load_run read_round
    read_loop wfs_read old_block write_chunk write_mapped write_round write_loop end_write
    finish_write write_all wfs_write string_at put_string dirent scan find_entry dir_find dir_add
    dir_remove dir_is_empty list_found wfs_readdir skip_slashes take_name split_last enter
    enter_next walk wfs_lookup parent_of resolve_split resolve_parent check_mounted or_undo add_dots
    discard wfs_create wfs_unlink below_parent is_below replace move_entry wfs_rename str_eq strlcpy
    test_bit set_bit clear_bit ◌>>=◌ update create_in_file
create_in_file_run = refl

-- A volume without a free block: the write of a byte past the end fails, and the file is longer.
abbrev full : Volume scratched
full = record small { bitmap = λ i. 255 }

abbrev full_mapping : Mapping scratched
full_mapping = record { volume = (wfs_read_inode 1 full).1; node = root_node; dirty = false }

full_read : wfs_read_inode 1 full ≡ (ok root_node, (wfs_read_inode 1 full).1)
unfolding cache_find victim_from cache_victim slot_for cache_reset fetch read_at block_read
    after_write block_write blocks_read get_word put_word get_words put_words copy_into put_super
    get_super put_inode get_inode used use_bit free_bit free_count load store sync_superblock
    sync_bitmap_for sync_both after_zeroing take_block block_alloc_from block_alloc block_free
    wfs_read_inode write_inode claim_inode inode_alloc_from inode_alloc inode_free wfs_utime
    on_volume new_block fill_slot table_slot through bmap_direct bmap_indirect bmap_double bmap
    free_if free_entries free_read free_table free_middle free_middles free_outer free_direct
    free_indirect free_double wfs_truncate with_node find_block run_from run_of load_run read_round
    read_loop wfs_read old_block write_chunk write_mapped write_round write_loop end_write
    finish_write write_all wfs_write string_at put_string dirent scan find_entry dir_find dir_add
    dir_remove dir_is_empty list_found wfs_readdir skip_slashes take_name split_last enter
    enter_next walk wfs_lookup parent_of resolve_split resolve_parent check_mounted or_undo add_dots
    discard wfs_create wfs_unlink below_parent is_below replace move_entry wfs_rename str_eq strlcpy
    test_bit set_bit clear_bit ◌>>=◌ update write_and_read
full_read = refl

full_map : bmap 4 true full_mapping ≡ (err enospc, (bmap 4 true full_mapping).1)
unfolding cache_find victim_from cache_victim slot_for cache_reset fetch read_at block_read
    after_write block_write blocks_read get_word put_word get_words put_words copy_into put_super
    get_super put_inode get_inode used use_bit free_bit free_count load store sync_superblock
    sync_bitmap_for sync_both after_zeroing take_block block_alloc_from block_alloc block_free
    wfs_read_inode write_inode claim_inode inode_alloc_from inode_alloc inode_free wfs_utime
    on_volume new_block fill_slot table_slot through bmap_direct bmap_indirect bmap_double bmap
    free_if free_entries free_read free_table free_middle free_middles free_outer free_direct
    free_indirect free_double wfs_truncate with_node find_block run_from run_of load_run read_round
    read_loop wfs_read old_block write_chunk write_mapped write_round write_loop end_write
    finish_write write_all wfs_write string_at put_string dirent scan find_entry dir_find dir_add
    dir_remove dir_is_empty list_found wfs_readdir skip_slashes take_name split_last enter
    enter_next walk wfs_lookup parent_of resolve_split resolve_parent check_mounted or_undo add_dots
    discard wfs_create wfs_unlink below_parent is_below replace move_entry wfs_rename str_eq strlcpy
    test_bit set_bit clear_bit ◌>>=◌ update write_and_read
full_map = refl

full_size : (bmap 4 true full_mapping).1.node.size ≡ 0
unfolding cache_find victim_from cache_victim slot_for cache_reset fetch read_at block_read
    after_write block_write blocks_read get_word put_word get_words put_words copy_into put_super
    get_super put_inode get_inode used use_bit free_bit free_count load store sync_superblock
    sync_bitmap_for sync_both after_zeroing take_block block_alloc_from block_alloc block_free
    wfs_read_inode write_inode claim_inode inode_alloc_from inode_alloc inode_free wfs_utime
    on_volume new_block fill_slot table_slot through bmap_direct bmap_indirect bmap_double bmap
    free_if free_entries free_read free_table free_middle free_middles free_outer free_direct
    free_indirect free_double wfs_truncate with_node find_block run_from run_of load_run read_round
    read_loop wfs_read old_block write_chunk write_mapped write_round write_loop end_write
    finish_write write_all wfs_write string_at put_string dirent scan find_entry dir_find dir_add
    dir_remove dir_is_empty list_found wfs_readdir skip_slashes take_name split_last enter
    enter_next walk wfs_lookup parent_of resolve_split resolve_parent check_mounted or_undo add_dots
    discard wfs_create wfs_unlink below_parent is_below replace move_entry wfs_rename str_eq strlcpy
    test_bit set_bit clear_bit ◌>>=◌ update write_and_read
full_size = refl

wfs_write-fails_example :
    ((wfs_write 1 5000 (λ i. 1) 1 full).0 ≡ err enospc)
    × ((wfs_write 1 5000 (λ i. 1) 1 full).1
        ≡ (write_inode 1
            (record ((bmap 4 true full_mapping).1.node) { size = 5000 })
            (bmap 4 true full_mapping).1.volume).1)
wfs_write-fails_example =
    wfs_write-fails 1 5000 1 (λ i. 1) full (wfs_read_inode 1 full).1 root_node
      (bmap 4 true full_mapping).1 enospc full_read (omega arith) full_map (omega arith)
      (omega arith) (omega (arith, full_size))
