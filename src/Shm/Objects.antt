-- ===== src/Shm/Objects.antt =====
-- kernel/mm/shm.c: the objects, and their mappings in the address space of a process.
mod Apart
mod Kept
mod Tests
use wos.Prelude.{
  ℕ, zero, suc, ◌+◌, ◌-◌, ◌*◌, ◌/◌, ◌%◌, ◌^◌, Bool, true, false, ◌||◌, Option, none, some, List, [],
  ◌∷◌, ◌++◌, ltb, ◌==◌, if◌then◌else◌, get_or, get_elem?, set, take, update,
}
use wos.Abi.{page_size, Result, ok, err, einval, emfile, enomem}
use wos.Frames.{Frames, align_up, alloc_frame, free_frame, low_memory_limit}
use wos.Memory.{Mem, memset}
use wos.Shm.{Mapping, add64, in_use, find_region}

abbrev pub shm_max_bytes : ℕ
shm_max_bytes = 32 * 1024 * 1024

-- `struct shm`
pub record Object : Type 0 where
  pub refs : ℕ
  pub pages : ℕ
  pub frame : List ℕ

-- What stands for an object that was freed.
abbrev pub no_object : Object
no_object = record { refs = 0; pages = 0; frame = [] }

-- `paging_map` and `paging_unmap_keep` on the address space of the process.
pub record Paging : Type 1 where
  pub Space : Type 0
  pub map : Space → (virt phys : ℕ) → Bool × Space
  pub unmap_keep : Space → (virt : ℕ) → Space

-- The objects by their addresses, the allocator of frames, physical memory, and the process's table
-- of mappings with its address space.
pub record Shared (g : Paging) : Type 0 where
  pub objects : ℕ → Object
  pub frames : Frames
  pub memory : Mem
  pub maps : List Mapping
  pub space : g.Space

pub free_frames : List ℕ → Frames → Option Frames
free_frames [] p = some p
free_frames (f ∷ fs) p = elim (free_frame p f) [ none ↦ none | some q ↦ free_frames fs q ]

pub zeroed : ℕ → Mem → Mem
zeroed f m = if ltb f low_memory_limit then memset f 0 page_size m else m

-- What the loop over the pages leaves: their frames, or none where there were too few.
abbrev pub Pages : Type 0
Pages = Option (List ℕ) × (Frames × Mem)

abbrev pub undone : Mem → Option Frames → Option Pages
undone m none = none
undone m (some p) = some (none, (p, m))

-- The loop, with `n` pages to come after those that it got.
pub alloc_pages : (n : ℕ) → (got : List ℕ) → Frames → Mem → Option Pages
unfolding zeroed free_frames
alloc_pages zero got p m = some (some got, (p, m))
alloc_pages (suc n) got p m =
    let r = alloc_frame p in
    let rest = alloc_pages n (got ++ (r.0 ∷ [])) r.1 (zeroed r.0 m) in
    if r.0 == 0 then undone m (free_frames got r.1) else rest

pub free_slot : List Mapping → Option ℕ
free_slot [] = none
free_slot (m ∷ ms) =
    if in_use m.shm then elim (free_slot ms) [ none ↦ none | some i ↦ some (suc i) ] else some 0

pub find_mapping : (addr : ℕ) → List Mapping → Option (ℕ × Mapping)
find_mapping addr [] = none
find_mapping addr (m ∷ ms) =
    let rest : Option (ℕ × Mapping) = elim (find_mapping addr ms) [
      | none ↦ none
      | some (i, found) ↦ some (suc i, found)
    ] in
    elim (in_use m.shm) [ true ↦ if m.base == addr then some (0, m) else rest | false ↦ rest ]

-- `n` pages from the one with number `j`.
pub unmap_pages : (g : Paging) → (n j base : ℕ) → g.Space → g.Space
unmap_pages g zero j base space = space
unmap_pages g (suc n) j base space =
    unmap_pages g n (j + 1) base (g.unmap_keep space (add64 base (j * page_size)))

pub map_pages : (g : Paging) → (n i base : ℕ) → (frame : List ℕ) → g.Space → Bool × g.Space
unfolding unmap_pages
map_pages g zero i base frame space = (true, space)
map_pages g (suc n) i base frame space =
    let r = g.map space (add64 base (i * page_size)) (get_or frame i 0) in
    let rest = map_pages g n (i + 1) base frame r.1 in
    if r.0 then rest else (false, unmap_pages g i 0 base r.1)

abbrev pub base_at : List Mapping → ℕ → Option ℕ
base_at [] i = none
base_at (m ∷ ms) zero = elim (in_use m.shm) [ true ↦ some m.base | false ↦ none ]
base_at (m ∷ ms) (suc i) = base_at ms i

module _ {g : Paging} where
  abbrev pub created : (h pages : ℕ) → Shared g → Option Pages → Option (Option ℕ × Shared g)
  created h pages s none = none
  created h pages s (some (none, (p, m))) = some (none, record s { frames = p; memory = m })
  created h pages s (some (some frame, (p, m))) = some (
    some h,
    record s {
      frames = p;
      memory = m;
      objects = update s.objects h (record { refs = 1; pages = pages; frame = frame });
    },
  )

  -- The first `kzalloc` returns `object`, and the second one finds room or not.
  pub shm_create :
      (object : Option ℕ) (array : Bool) (bytes : ℕ) → Shared g → Option (Option ℕ × Shared g)
  unfolding alloc_pages
  shm_create none array bytes s = some (none, s)
  shm_create (some h) array bytes s =
      let pages = align_up bytes page_size / page_size in
      if bytes == 0 || ltb shm_max_bytes bytes
      then some (none, s)
      else if array
      then created h pages s (alloc_pages pages [] s.frames s.memory)
      else some (none, s)

  pub shm_bytes : Option ℕ → Shared g → ℕ
  shm_bytes none s = 0
  shm_bytes (some h) s = (s.objects h).pages * page_size % 2 ^ 32

  pub shm_ref : Option ℕ → Shared g → Shared g
  shm_ref none s = s
  shm_ref (some h) s =
      let o = s.objects h in
      record s { objects = update s.objects h (record o { refs = o.refs + 1 }) }

  abbrev pub released : ℕ → Shared g → Option Frames → Option (Shared g)
  released h s none = none
  released h s (some p) = some (record s { frames = p; objects = update s.objects h no_object })

  -- None is a panic of `pmm_free_frame`.
  pub shm_unref : Option ℕ → Shared g → Option (Shared g)
  unfolding free_frames
  shm_unref none s = some s
  shm_unref (some h) s =
      let o = s.objects h in
      if ltb 1 o.refs
      then some (record s { objects = update s.objects h (record o { refs = o.refs - 1 }) })
      else released h s (free_frames (take o.pages o.frame) s.frames)

  pub map_at : (h slot base : ℕ) → Shared g → Result ℕ × Shared g
  unfolding map_pages shm_ref
  map_at h slot base s =
      let o = s.objects h in
      let r = map_pages g o.pages 0 base o.frame s.space in
      let s' = record s { space = r.1 } in
      if base == 0
      then (err enomem, s)
      else if r.0
      then (
        ok base,
        record (shm_ref (some h) s') {
          maps = set s.maps slot (record { shm = some h; base = base; pages = o.pages });
        },
      )
      else (err enomem, s')

  abbrev pub map_in : (h : ℕ) → Option ℕ → Shared g → Result ℕ × Shared g
  map_in h none s = (err emfile, s)
  map_in h (some slot) s = map_at h slot (find_region s.maps (s.objects h).pages) s

  pub shm_map : Option ℕ → Shared g → Result ℕ × Shared g
  unfolding map_at free_slot find_region
  shm_map none s = (err einval, s)
  shm_map (some h) s = map_in h (free_slot s.maps) s

  abbrev pub unmapped :
      (slot : ℕ) → Mapping → Option (Shared g) → Option (Result (Unit {0}) × Shared g)
  unmapped slot m none = none
  unmapped slot m (some s) =
      some (ok tt, record s { maps = set s.maps slot (record m { shm = none }) })

  abbrev pub unmap_found : Option (ℕ × Mapping) → Shared g → Option (Result (Unit {0}) × Shared g)
  unmap_found none s = some (err einval, s)
  unmap_found (some (slot, m)) s =
      unmapped slot m
        (shm_unref m.shm (record s { space = unmap_pages g m.pages 0 m.base s.space }))

  pub shm_unmap : (addr : ℕ) → Shared g → Option (Result (Unit {0}) × Shared g)
  unfolding find_mapping shm_unref unmap_pages
  shm_unmap addr s = unmap_found (find_mapping addr s.maps) s

  -- `n` slots of the table from the one with number `i`.
  pub unmap_slots : (n i : ℕ) → Shared g → Option (Shared g)
  unfolding shm_unmap
  unmap_slots zero i s = some s
  unmap_slots (suc n) i s = elim (base_at s.maps i) [
    | none ↦ unmap_slots n (i + 1) s
    | some base ↦ elim (shm_unmap base s) [ none ↦ none | some r ↦ unmap_slots n (i + 1) r.1 ]
  ]

  pub shm_unmap_all : Shared g → Option (Shared g)
  unfolding unmap_slots
  shm_unmap_all s = unmap_slots 32 0 s
