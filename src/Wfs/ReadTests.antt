-- ===== src/Wfs/ReadTests.antt =====
-- A file of two blocks on the small volume, read by kernel/fs/wfs.c.
use wos.Prelude.{
  ℕ, zero, suc, ◌+◌, ◌-◌, ◌*◌, ◌%◌, ◌≤◌, ◌≡◌, refl, subst, sym, inl, inr, List, [], ◌∷◌, get_or,
  arith, ltb, leb, ◌==◌, if◌then◌else◌, Bool-cases,
}
use wos.Wfs.Device.{Bytes}
use wos.Wfs.Cache.{cache_reset}
use wos.Wfs.Cache.Tests.{scratched, scratched_kept, sectors}
use wos.Wfs.Cache.Represented.{Represents, cache_reset-Represents}
use wos.Wfs.Layout.{Inode, no_inode, type_file, put_inode, get_inode, direct_blocks, ptrs_per_block}
use wos.Wfs.Words.{zeroes, get_word, put_word, get_words, put_words}
use wos.Wfs.Volume.{Volume}
use wos.Wfs.Volume.Gives.{Gives}
use wos.Wfs.Inodes.Written.{inode_at, IsInTable}
use wos.Wfs.Mapping.Found.{block_at}
use wos.Wfs.Files.{wfs_read}
use wos.Wfs.Files.Runs.{IsPlaced}
use wos.Wfs.Files.Reads.{ReadsFile, wfs_read-Gives}
use wos.Wfs.Tests.{small}

abbrev pub file_node : Inode
file_node = record no_inode {
  type = type_file;
  links = 1;
  size = 1500;
  direct = 4 ∷ 5 ∷ 0 ∷ 0 ∷ 0 ∷ 0 ∷ 0 ∷ 0 ∷ 0 ∷ 0 ∷ [];
}

-- Blocks 4 and 5 of the volume are at the sectors 108 to 111.
abbrev pub file_disk : ℕ → Bytes
file_disk sector =
    if sector == 104
    then put_inode zeroes 128 file_node
    else if leb 108 sector
    then (λ i. i % 7)
    else zeroes

abbrev pub with_file : Volume scratched
with_file = record small { io = cache_reset scratched (record (small.io) { disk = file_disk }) }

abbrev pub file_blocks : ℕ → Bytes
file_blocks b = sectors file_disk (100 + b * 2) 2

pub with_file-Represents : Represents scratched_kept file_blocks with_file.io
with_file-Represents =
    cache_reset-Represents scratched scratched_kept (record (small.io) { disk = file_disk })

pub file-IsInTable : IsInTable with_file 2
unfolding cache_reset
file-IsInTable = (omega arith, omega arith, omega arith, omega arith)

pub file_inode : inode_at with_file file_blocks 2 ≡ file_node
unfolding get_inode put_inode get_word put_word get_words put_words
file_inode = refl

abbrev AreLow : List ℕ → Type 0
AreLow [] = Unit {0}
AreLow (b ∷ bs) = (b ≤ 5) × AreLow bs

low : (bs : List ℕ) (i : ℕ) → AreLow bs → get_or bs i 0 ≤ 5
low [] i h = omega arith
low (b ∷ bs) zero h = h.0
low (b ∷ bs) (suc i) h = low bs i h.1

file_low : (i : ℕ) → get_or file_node.direct i 0 ≤ 5
file_low i = low file_node.direct i (ground arith)

block_low : (i : ℕ) → block_at file_blocks file_node i ≤ 5
unfolding block_at
block_low i = elim (Bool-cases (ltb i direct_blocks)) [
  | inl y ↦ rw y (file_low i)
  | inr n ↦ rw n (elim (Bool-cases (ltb (i - direct_blocks) ptrs_per_block)) [
    | inl y ↦ rw y (omega arith)
    | inr m ↦ rw m (omega arith)
  ])
]

pub file-IsPlaced : IsPlaced file_blocks file_node with_file.io.partition
unfolding cache_reset
file-IsPlaced = record {
  tables = record {
    first = λ h. absurd (h refl);
    outer = λ h. absurd (h refl);
    middle = λ i h. absurd (h refl);
  };
  contents = λ i h. let l = block_low i in omega (arith, l);
}

wfs_read-Gives_example :
    Gives scratched_kept file_blocks
      (ReadsFile scratched_kept file_blocks (inode_at with_file file_blocks 2) 1000 zeroes 900)
      with_file
      (wfs_read 2 1000 zeroes 900 with_file)
wfs_read-Gives_example =
    wfs_read-Gives scratched_kept file_blocks 2 1000 900 zeroes with_file with_file-Represents
      file-IsInTable
      (subst (λ (n : Inode). IsPlaced file_blocks n with_file.io.partition) (sym file_inode)
        file-IsPlaced)
      (omega arith)
