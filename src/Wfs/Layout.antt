-- ===== src/Wfs/Layout.antt =====
-- include/wfs.h: the structures of the volume, and where their fields lie in a block.
pub mod RoundTrip
use wos.Prelude.{ℕ, ◌+◌, ◌*◌, ◌/◌, ◌%◌, ◌^◌, List, [], ◌∷◌, ◌++◌, replicate, set, get_or}
use wos.Wfs.Device.{Bytes}
use wos.Wfs.Words.{zeroes, get_word, get_words, put_words}

-- WFS_BLOCK_SIZE, WFS_PTRS_PER_BLOCK, WFS_INODES_PER_BLOCK, WFS_INODE_SIZE, WFS_DIRECT
abbrev pub block_size : ℕ
block_size = 1024

abbrev pub ptrs_per_block : ℕ
ptrs_per_block = 256

abbrev pub inodes_per_block : ℕ
inodes_per_block = 16

abbrev pub inode_size : ℕ
inode_size = 64

abbrev pub direct_blocks : ℕ
direct_blocks = 10

-- WFS_DOUBLE_BLOCKS and WFS_MAX_FILE_SIZE
abbrev pub double_blocks : ℕ
double_blocks = ptrs_per_block * ptrs_per_block

abbrev pub max_file_size : ℕ
max_file_size = (direct_blocks + ptrs_per_block + double_blocks) * block_size

-- WFS_MAGIC
abbrev pub magic_v3 : ℕ
magic_v3 = 861095511

-- WFS_TYPE_FREE, WFS_TYPE_FILE and WFS_TYPE_DIR
abbrev pub type_free : ℕ
type_free = 0

abbrev pub type_file : ℕ
type_file = 1

abbrev pub type_dir : ℕ
type_dir = 2

-- WFS_INVALID_INO, WFS_ROOT_INO, WFS_NAME_MAX and WFS_DIRENT_SIZE
abbrev pub invalid_ino : ℕ
invalid_ino = 0

abbrev pub root_ino : ℕ
root_ino = 1

abbrev pub name_max : ℕ
name_max = 27

abbrev pub dirent_size : ℕ
dirent_size = 32

pub record Super : Type 0 where
  pub magic : ℕ
  pub block_bytes : ℕ
  pub total_blocks : ℕ
  pub free_blocks : ℕ
  pub total_inodes : ℕ
  pub free_inodes : ℕ
  pub bitmap_start : ℕ
  pub bitmap_blocks : ℕ
  pub inode_start : ℕ
  pub inode_blocks : ℕ
  pub data_start : ℕ
  pub root_inode : ℕ

-- The structure as its twelve words, and back.
unfoldable pub put_super : Super → Bytes
put_super sb = put_words zeroes 0 (
    sb.magic ∷ sb.block_bytes ∷ sb.total_blocks ∷ sb.free_blocks ∷ sb.total_inodes ∷ sb.free_inodes
    ∷ sb.bitmap_start ∷ sb.bitmap_blocks ∷ sb.inode_start ∷ sb.inode_blocks ∷ sb.data_start
    ∷ sb.root_inode ∷ [])

unfoldable pub get_super : Bytes → Super
get_super b = record {
  magic = get_word b 0;
  block_bytes = get_word b 4;
  total_blocks = get_word b 8;
  free_blocks = get_word b 12;
  total_inodes = get_word b 16;
  free_inodes = get_word b 20;
  bitmap_start = get_word b 24;
  bitmap_blocks = get_word b 28;
  inode_start = get_word b 32;
  inode_blocks = get_word b 36;
  data_start = get_word b 40;
  root_inode = get_word b 44;
}

-- `direct` has ten entries.
pub record Inode : Type 0 where
  pub type : ℕ
  pub links : ℕ
  pub size : ℕ
  pub blocks : ℕ
  pub mtime : ℕ
  pub direct : List ℕ
  pub indirect : ℕ
  pub double_indirect : ℕ

-- The first two fields have sixteen bits each, so the structure is sixteen words.
unfoldable pub put_inode : Bytes → (at : ℕ) → Inode → Bytes
put_inode b at node = put_words b at (
    (node.type + node.links * 2 ^ 16)
    ∷ node.size
    ∷ node.blocks
    ∷ node.mtime
    ∷ (node.direct ++ (node.indirect ∷ node.double_indirect ∷ [])))

unfoldable pub get_inode : Bytes → (at : ℕ) → Inode
get_inode b at = record {
  type = get_word b at % 2 ^ 16;
  links = get_word b at / 2 ^ 16;
  size = get_word b (at + 4);
  blocks = get_word b (at + 8);
  mtime = get_word b (at + 12);
  direct = get_words b (at + 16) direct_blocks;
  indirect = get_word b (at + 56);
  double_indirect = get_word b (at + 60);
}

-- `memset(&in, 0, sizeof(in))`
abbrev pub no_inode : Inode
no_inode = record {
  type = 0;
  links = 0;
  size = 0;
  blocks = 0;
  mtime = 0;
  direct = replicate direct_blocks 0;
  indirect = 0;
  double_indirect = 0;
}
