-- ===== src/Wfs/Mount.antt =====
-- Mounting and statistics of kernel/fs/wfs.c. The volume is on one of three devices.
pub mod Usage
use wos.Prelude.{
  ℕ, zero, suc, ◌+◌, ◌-◌, ◌*◌, ◌/◌, ◌%◌, ◌^◌, Bool, true, false, not, ◌||◌, ◌&&◌, leb, ltb, Option,
  none, some, ◌==◌, if◌then◌else◌,
}
use wos.Abi.{Error, eio, einval, enomem, Result, ok, err}
use wos.Exec.{Exec, pure, raise, lift, gets, attempt, modify, ignore, ◌>>=◌, ◌>>◌}
use wos.Wfs.Device.{Device, Bytes}
use wos.Wfs.Cache.{Io, cache_reset}
use wos.Wfs.Words.{get_word, copy_into}
use wos.Wfs.Layout.{Super, get_super, block_size, magic_v3}
use wos.Wfs.Volume.{Volume, load}

-- `wfs_source_t`
pub data Source : Type 0 where
  no_source ata usb ramdisk : Source

-- The three devices, and the one that `source` names.
pub record Drives (a b c : Device) : Type 0 where
  pub source : Source
  pub on_ata : a.State
  pub on_usb : b.State
  pub on_ramdisk : c.State

module _ {a b c : Device} where
  unfoldable pub read_on : Source → Drives a b c → (lba count : ℕ) → Option Bytes
  read_on no_source s lba count = none
  read_on ata s lba count = a.read s.on_ata lba count
  read_on usb s lba count = b.read s.on_usb lba count
  read_on ramdisk s lba count = c.read s.on_ramdisk lba count

  unfoldable pub write_on : Source → Drives a b c → (lba count : ℕ) → Bytes → Bool × Drives a b c
  write_on no_source s lba count bytes = (false, s)
  write_on ata s lba count bytes =
      let (r, s') = a.write s.on_ata lba count bytes in (r, record s { on_ata = s' })
  write_on usb s lba count bytes =
      let (r, s') = b.write s.on_usb lba count bytes in (r, record s { on_usb = s' })
  write_on ramdisk s lba count bytes =
      let (r, s') = c.write s.on_ramdisk lba count bytes in (r, record s { on_ramdisk = s' })

-- `sectors_read` and `sectors_write`.
abbrev pub drives : Device → Device → Device → Device
drives a b c = record {
  State = Drives a b c;
  read = λ s lba count. read_on s.source s lba count;
  write = λ s lba count bytes. write_on s.source s lba count bytes;
}

-- `wdiskinfo_t`
pub record DiskInfo : Type 0 where
  pub total_bytes : ℕ
  pub used_bytes : ℕ
  pub free_bytes : ℕ
  pub block_bytes : ℕ
  pub total_blocks : ℕ
  pub free_blocks : ℕ
  pub total_inodes : ℕ
  pub free_inodes : ℕ

abbrev pub no_info : DiskInfo
no_info = record {
  total_bytes = 0;
  used_bytes = 0;
  free_bytes = 0;
  block_bytes = 0;
  total_blocks = 0;
  free_blocks = 0;
  total_inodes = 0;
  free_inodes = 0;
}

-- The products have 32 bits, the difference has 64.
unfoldable pub wfs_statfs : {d : Device} → Volume d → DiskInfo
wfs_statfs v =
    let total = v.sb.total_blocks * v.sb.block_bytes % 2 ^ 32 in
    let free = v.sb.free_blocks * v.sb.block_bytes % 2 ^ 32 in
    if not v.mounted then no_info else record {
      total_bytes = total;
      used_bytes = (total + 2 ^ 64 - free) % 2 ^ 64;
      free_bytes = free;
      block_bytes = v.sb.block_bytes;
      total_blocks = v.sb.total_blocks;
      free_blocks = v.sb.free_blocks;
      total_inodes = v.sb.total_inodes;
      free_inodes = v.sb.free_inodes;
    }

-- The first sector of a partition, and its length, from entry `i` of the partition table.
abbrev pub start_of : Bytes → (i : ℕ) → ℕ
start_of mbr i = get_word mbr (446 + i * 16 + 8)

abbrev pub length_of : Bytes → (i : ℕ) → ℕ
length_of mbr i = get_word mbr (446 + i * 16 + 12)

abbrev pub is_table : Bytes → Bool
is_table mbr = (mbr 510 == 85) && (mbr 511 == 170)

module _ {d : Device} where
  unfoldable pub keep_superblock : Result Bytes → Exec (Volume d) Bool
  keep_superblock (err e) = pure false
  keep_superblock (ok b) = do
    modify (λ v. record v { sb = get_super b })
    pure (get_word b 0 == magic_v3)

  -- A volume is looked for from this sector on.
  abbrev pub placed : (sector : ℕ) → Volume d → Volume d
  placed sector v = record v { io = cache_reset d (record (v.io) { partition = sector }) }

  unfoldable pub superblock_ok : Exec (Volume d) Bool
  superblock_ok = do r ← attempt (load 0); keep_superblock r

  -- `block_read` of the blocks of the bitmap, `count` of them from number `i` on.
  unfoldable pub read_bitmap : (count i : ℕ) → Exec (Volume d) (Unit {0})
  read_bitmap zero i = pure tt
  read_bitmap (suc n) i = do
    start ← gets (λ v. v.sb.bitmap_start)
    b ← load ((start + i) % 2 ^ 32)
    modify (λ v. record v { bitmap = copy_into v.bitmap (i * block_size) b 0 block_size })
    read_bitmap n (i + 1)

  unfoldable pub adopt_read : Result (Unit {0}) → Exec (Volume d) Bool
  adopt_read (err e) = pure false
  adopt_read (ok u) = do modify (λ v. record v { mounted = true }); pure true

  -- `memory`: whether `kmalloc` has room for the bitmap. Without success the bitmap is of no use.
  unfoldable pub adopt_volume : (memory : Bool) → Exec (Volume d) Bool
  adopt_volume memory = do
    v ← gets (λ v. v)
    if not (v.sb.block_bytes == block_size) || not memory
        then pure false
        else do r ← attempt (read_bitmap v.sb.bitmap_blocks 0); adopt_read r

module _ {a b c : Device} where
  abbrev pub on_source : Source → Volume (drives a b c) → Volume (drives a b c)
  on_source source v = record v {
    io = record (v.io) { disk = record (v.io.disk) { source = source } };
  }

  abbrev pub lost : Volume (drives a b c) → Volume (drives a b c)
  lost v = let v' = on_source no_source v in record v' { io = record (v'.io) { partition = 0 } }

  -- The loop over the entries of the partition table, `count` of them from entry `i` on.
  unfoldable pub find_partition : (count i : ℕ) → Bytes → Exec (Volume (drives a b c)) Bool
  find_partition zero i mbr = do modify lost; pure false
  find_partition (suc n) i mbr =
      if (start_of mbr i == 0) || (length_of mbr i == 0) then find_partition n (i + 1) mbr else do
        modify (placed (start_of mbr i))
        found ← superblock_ok
        if found then pure true else find_partition n (i + 1) mbr

  unfoldable pub find_in_table : Option Bytes → Exec (Volume (drives a b c)) Bool
  find_in_table none = pure false
  find_in_table (some mbr) = if is_table mbr then find_partition 4 0 mbr else pure false

  unfoldable pub find_volume : Source → Exec (Volume (drives a b c)) Bool
  find_volume source = do
    modify (λ v. placed 0 (on_source source v))
    whole ← superblock_ok
    if whole then pure true else do v ← gets (λ v. v); find_in_table (read_on source v.io.disk 0 1)

  -- One device, if it is present, all the way to a working mount.
  unfoldable pub try_source :
      (present memory : Source → Bool) → Source → Exec (Volume (drives a b c)) Bool
  try_source present memory source =
      if not (present source)
      then pure false
      else do found ← find_volume source; if found then adopt_volume (memory source) else pure false

  unfoldable pub wfs_mount : (present memory : Source → Bool) → Exec (Volume (drives a b c)) Bool
  wfs_mount present memory = do
    on_disk ← try_source present memory ata
    if on_disk then pure true else do
      on_stick ← try_source present memory usb
      if on_stick then pure true else do
        in_memory ← try_source present memory ramdisk
        if in_memory then pure true else do modify (on_source no_source); pure false
