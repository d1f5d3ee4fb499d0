-- ===== src/Wfs/Mount/Usage.antt =====
-- What `wfs_statfs` of kernel/fs/wfs.c reports.
use wos.Prelude.{ℕ, ◌-◌, ◌*◌, ◌^◌, ◌%◌, ◌≤◌, ◌<◌, ◌≡◌, ◌↔◌, true, arith}
use wos.Wfs.Device.{Device}
use wos.Wfs.Volume.{Volume}
use wos.Wfs.Mount.{wfs_statfs}

-- The usage as numbers without a bound.
abbrev pub total_of : {d : Device} → Volume d → ℕ
total_of v = v.sb.total_blocks * v.sb.block_bytes

abbrev pub free_of : {d : Device} → Volume d → ℕ
free_of v = v.sb.free_blocks * v.sb.block_bytes

-- On a mounted volume with no more free bytes than bytes, `wfs_statfs` reports the size of the volume and
-- its free part modulo 2 ^ 32. So its three figures are the size, the free part and their difference
-- exactly where the volume has less than 4 GiB.
pub wfs_statfs_iff :
    {d : Device} (v : Volume d)
    → v.mounted ≡ true
    → free_of v ≤ total_of v
    → ((wfs_statfs v).total_bytes ≡ total_of v % 2 ^ 32)
      × ((wfs_statfs v).free_bytes ≡ free_of v % 2 ^ 32)
      × (((wfs_statfs v).total_bytes ≡ total_of v)
            × ((wfs_statfs v).free_bytes ≡ free_of v)
            × ((wfs_statfs v).used_bytes ≡ total_of v - free_of v)
          ↔ (total_of v < 2 ^ 32))
unfolding wfs_statfs
wfs_statfs_iff v m h = (ground (arith, m), ground (arith, m), ground (arith, m, h))
