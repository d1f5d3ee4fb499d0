-- ===== src/Shm/Objects/Tests.antt =====
-- kernel/mm/shm.c: objects that are mapped, in an address space with room for some pages.
use wos.Prelude.{
  List, Option, ℕ, ◌+◌, ◌-◌, ◌≡◌, refl, [], ◌∷◌, true, false, none, some, arith, ltb, if◌then◌else◌,
  update,
}
use wos.Frames.{Frames}
use wos.Shm.{Mapping, mmap_base, find_region}
use wos.Shm.Objects.{shm_unmap, shm_unref, Paging, Shared, shm_create, shm_bytes, shm_map}
use wos.Shm.Objects.Kept.{Call, map_object, unmap, unref, run, Orderly, run-Orderly}

-- The state counts the pages that are mapped.
abbrev room_for : ℕ → Paging
room_for room = record {
  Space = ℕ;
  map = λ n virt phys. if ltb n room then (true, n + 1) else (false, n);
  unmap_keep = λ n virt. n - 1;
}

-- Frames 1 and 2 are in use: they are those of the object.
abbrev eight_frames : Frames
eight_frames = record {
  bitmap = λ i. 6;
  total = 8;
  usable = 8;
  holes = 0;
  used = 2;
  reserved = 0;
  heap_base = 0;
  next_hint = 1;
  next_hint_low = 1;
}

abbrev unused : Mapping
unused = record { shm = none; base = 0; pages = 0 }

abbrev start : (room : ℕ) → Shared (room_for room)
start room = record {
  objects = λ h. record { refs = 1; pages = 2; frame = 4096 ∷ 8192 ∷ [] };
  frames = eight_frames;
  memory = λ a. 7;
  maps = unused ∷ unused ∷ [];
  space = 0;
}

second_fails : (shm_map (some 5) (shm_map (some 5) (start 3)).1).1.space ≡ 2
unfolding find_region update shm_map
second_fails = refl

too_large : shm_create (some 5) true 33554433 (start 3) ≡ some (none, start 3)
unfolding shm_create
too_large = refl

create_size : shm_bytes (some 5) (start 3) ≡ 8192
unfolding shm_bytes
create_size = refl

-- Two mappings, of which the first goes, and then the reference that is no mapping's; and a third one.
abbrev calls : List Call
calls =
    map_object (some 5)
    ∷ map_object (some 5)
    ∷ unmap mmap_base
    ∷ unref (some 5)
    ∷ map_object (some 5)
    ∷ []

abbrev maps_of : {g : Paging} → Option (Shared g) → List Mapping
maps_of none = []
maps_of (some s) = s.maps

-- The run does not panic, and two mappings stand at its end.
calls_end :
    maps_of (run calls (start 8))
    ≡ record { shm = some 5; base = mmap_base; pages = 2 }
      ∷ record { shm = some 5; base = mmap_base + 8192; pages = 2 }
      ∷ []
unfolding find_region update shm_map shm_unmap shm_unref
calls_end = refl

run-Orderly_example : Orderly (run calls (start 8))
run-Orderly_example = run-Orderly calls (start 8) (
  λ h. omega arith,
  ((omega arith, (omega arith, tt)), (((λ u v. absurd (ground arith)), tt), (tt, tt))),
)
