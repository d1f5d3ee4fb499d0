-- ===== src/Shm/Tests.antt =====
-- kernel/mm/shm.c: a table with two mappings and a gap of one page between them.
use wos.Prelude.{◌+◌, ◌≡◌, refl, List, [], ◌∷◌, none, some, arith}
use wos.Shm.{Mapping, mmap_base, find_region}
use wos.Shm.Regions.{Region, find_region-Region}

abbrev two_mappings : List Mapping
two_mappings =
    record { shm = some 1; base = mmap_base + 12288; pages = 1 }
    ∷ record { shm = none; base = 0; pages = 0 }
    ∷ record { shm = some 2; base = mmap_base; pages = 2 }
    ∷ []

one_page : find_region two_mappings 1 ≡ mmap_base + 8192
unfolding find_region
one_page = refl

two_pages : find_region two_mappings 2 ≡ mmap_base + 16384
unfolding find_region
two_pages = refl

find_region-Region_example : Region 8192 two_mappings (find_region two_mappings 2)
find_region-Region_example =
    find_region-Region two_mappings 2 (omega arith, (omega arith, (omega arith, tt))) (omega arith)
