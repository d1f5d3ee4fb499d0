-- ===== src/Shm/Objects/Kept.antt =====
-- kernel/mm/shm.c: what the calls leave of the table of mappings.
use wos.Prelude.{
  ℕ, zero, suc, ◌+◌, ◌*◌, ◌^◌, ◌<◌, inl, inr, List, [], ◌∷◌, Option, none, some, arith, Bool-cases,
  ltb, ◌==◌, update, take,
}
use wos.Frames.{Frames}
use wos.Abi.{Result, page_size}
use wos.Shm.{Mapping}
use wos.Shm.Objects.{
  Object, Shared, Paging, free_slot, map_pages, map_at, map_in, shm_map, shm_ref, shm_unref,
  released, find_mapping, unmapped, unmap_found, unmap_pages, shm_unmap, base_at, unmap_slots,
  shm_unmap_all, free_frames,
}
use wos.Shm.Regions.{Region, find_region-Region}
use wos.Shm.Objects.Apart.{
  Bounded, set-IsTable, free-Apart, cleared-Apart, Region-top, Region-free, Within,
  find_mapping-Within, IsTable,
}

module _ {g : Paging} where
  -- The number of pages is a value of type uint32_t.
  abbrev pub IsSized : Shared g → Type 0
  IsSized s = (h : ℕ) → (s.objects h).pages < 2 ^ 32

  abbrev pub IsOrderly : Shared g → Type 0
  IsOrderly s = IsSized s × IsTable s.maps

  -- None is a panic.
  abbrev pub Orderly : Option (Shared g) → Type 0
  Orderly none = Unit {0}
  Orderly (some s) = IsOrderly s

  -- What a call leaves, besides its answer.
  abbrev After {ℓ} : {A : Type ℓ} → Option (A × Shared g) → Type 0
  After none = Unit {0}
  After (some (r, s)) = IsOrderly s

  update-IsSized :
      (s : Shared g) (h : ℕ) (o : Object)
      → IsSized s
      → o.pages < 2 ^ 32
      → (j : ℕ) → (update s.objects h o j).pages < 2 ^ 32
  unfolding update
  update-IsSized s h o sized small j = elim (Bool-cases (j == h)) [
    | inl same ↦ ground (arith, small)
    | inr other ↦ ground (arith, sized j)
  ]

  map_at-IsOrderly :
      (h slot base : ℕ) (s : Shared g)
      → IsOrderly s
      → Region ((s.objects h).pages * page_size) s.maps base
      → IsOrderly (map_at h slot base s).1
  unfolding map_at shm_ref
  map_at-IsOrderly h slot base s t r = elim (Bool-cases (base == 0)) [
    | inl gone ↦ rw gone t
    | inr there ↦
        elim (Bool-cases (map_pages g (s.objects h).pages 0 base (s.objects h).frame s.space).0) [
          | inl done ↦
              rw (there, done)
                (
                  update-IsSized s h _ t.0 (t.0 h),
                  set-IsTable s.maps slot _ t.1 (Region-top r there) (
                      free-Apart (record { shm = some h; base = base; pages = (s.objects h).pages })
                        s.maps (Region-free r there)),
                )
          | inr failed ↦ rw (there, failed) t
        ]
  ]

  map_in-IsOrderly :
      (h : ℕ) (slot : Option ℕ) (s : Shared g) → IsOrderly s → IsOrderly (map_in h slot s).1
  map_in-IsOrderly h none s t = t
  map_in-IsOrderly h (some slot) s t =
      map_at-IsOrderly h slot _ s t (find_region-Region s.maps (s.objects h).pages t.1.0 (t.0 h))

  shm_map-IsOrderly : (h : Option ℕ) (s : Shared g) → IsOrderly s → IsOrderly (shm_map h s).1
  unfolding shm_map
  shm_map-IsOrderly none s t = t
  shm_map-IsOrderly (some h) s t = map_in-IsOrderly h (free_slot s.maps) s t

  shm_unref-Orderly : (h : Option ℕ) (s : Shared g) → IsOrderly s → Orderly (shm_unref h s)
  unfolding shm_unref
  shm_unref-Orderly none s t = t
  shm_unref-Orderly (some h) s t =
      let o = s.objects h in
      elim (Bool-cases (ltb 1 o.refs)) [
        | inl more ↦ rw more (update-IsSized s h _ t.0 (t.0 h), t.1)
        | inr last ↦ rw last (released-Orderly (free_frames (take o.pages o.frame) s.frames))
      ]
    where
      released-Orderly : (p : Option Frames) → Orderly (released h s p)
      released-Orderly none = tt
      released-Orderly (some p) = (update-IsSized s h _ t.0 (omega arith), t.1)

  unmapped-Orderly :
      (slot : ℕ) (m : Mapping) (s : Option (Shared g))
      → Bounded m
      → Orderly s
      → After (unmapped slot m s)
  unmapped-Orderly slot m none b t = tt
  unmapped-Orderly slot m (some s) b t =
      (t.0, set-IsTable s.maps slot (record m { shm = none }) t.1 b (cleared-Apart m s.maps))

  unmap_found-After :
      (found : Option (ℕ × Mapping)) (s : Shared g)
      → Within found
      → IsOrderly s
      → After (unmap_found found s)
  unmap_found-After none s w t = t
  unmap_found-After (some (slot, m)) s w t =
      unmapped-Orderly slot m _ w
        (shm_unref-Orderly m.shm (record s { space = unmap_pages g m.pages 0 m.base s.space }) t)

  shm_unmap-After : (addr : ℕ) (s : Shared g) → IsOrderly s → After (shm_unmap addr s)
  unfolding shm_unmap
  shm_unmap-After addr s t =
      unmap_found-After (find_mapping addr s.maps) s (find_mapping-Within addr s.maps t.1.0) t

  unmap_slots-Orderly : (n i : ℕ) (s : Shared g) → IsOrderly s → Orderly (unmap_slots n i s)
  unfolding unmap_slots
  unmap_slots-Orderly zero i s t = t
  unmap_slots-Orderly (suc n) i s t =
      each (base_at s.maps i) (λ s' t'. unmap_slots-Orderly n (i + 1) s' t')
    where
      next :
          ((s' : Shared g) → IsOrderly s' → Orderly (unmap_slots n (i + 1) s'))
          → (r : Option (Result (Unit {0}) × Shared g)) → After r
          → Orderly (elim r [ none ↦ none | some q ↦ unmap_slots n (i + 1) q.1 ])
      next later none a = tt
      next later (some (r, s')) a = later s' a

      each :
          (b : Option ℕ)
          → ((s' : Shared g) → IsOrderly s' → Orderly (unmap_slots n (i + 1) s'))
          → Orderly (elim b [
            | none ↦ unmap_slots n (i + 1) s
            | some base ↦ elim (shm_unmap base s) [
              | none ↦ none
              | some r ↦ unmap_slots n (i + 1) r.1
            ]
          ])
      each none later = later s t
      each (some base) later = next later (shm_unmap base s) (shm_unmap-After base s t)

-- The calls that change the table or the counts.
pub data Call : Type 0 where
  map_object : Option ℕ → Call
  unmap : (addr : ℕ) → Call
  unmap_all : Call
  ref : Option ℕ → Call
  unref : Option ℕ → Call

module _ {g : Paging} where
  abbrev pub left {ℓ} : {A : Type ℓ} → Option (A × Shared g) → Option (Shared g)
  left none = none
  left (some (r, s)) = some s

  abbrev pub call : Call → Shared g → Option (Shared g)
  call (map_object h) s = some (shm_map h s).1
  call (unmap addr) s = left (shm_unmap addr s)
  call unmap_all s = shm_unmap_all s
  call (ref h) s = some (shm_ref h s)
  call (unref h) s = shm_unref h s

  left-Orderly {ℓ} : {A : Type ℓ} (r : Option (A × Shared g)) → After r → Orderly (left r)
  left-Orderly none a = tt
  left-Orderly (some (r, s)) a = a

  shm_ref-IsOrderly : (h : Option ℕ) (s : Shared g) → IsOrderly s → IsOrderly (shm_ref h s)
  unfolding shm_ref
  shm_ref-IsOrderly none s t = t
  shm_ref-IsOrderly (some h) s t = (update-IsSized s h _ t.0 (t.0 h), t.1)

  shm_unmap_all-Orderly : (s : Shared g) → IsOrderly s → Orderly (shm_unmap_all s)
  unfolding shm_unmap_all
  shm_unmap_all-Orderly s t = unmap_slots-Orderly 32 0 s t

  call-Orderly : (c : Call) (s : Shared g) → IsOrderly s → Orderly (call c s)
  call-Orderly (map_object h) s t = shm_map-IsOrderly h s t
  call-Orderly (unmap addr) s t = left-Orderly (shm_unmap addr s) (shm_unmap-After addr s t)
  call-Orderly unmap_all s t = shm_unmap_all-Orderly s t
  call-Orderly (ref h) s t = shm_ref-IsOrderly h s t
  call-Orderly (unref h) s t = shm_unref-Orderly h s t

  abbrev pub run : List Call → Shared g → Option (Shared g)
  run [] s = some s
  run (c ∷ cs) s = elim (call c s) [ none ↦ none | some s' ↦ run cs s' ]

  -- In any sequence of shm_map, shm_unmap, shm_unmap_all, shm_ref and shm_unref that does not panic, the
  -- mappings of the process go on to end at USER_MMAP_TOP at the latest, and no two of them that are in
  -- use have an address in common, where this holds at the start and the numbers of pages have 32 bits.
  pub run-Orderly : (cs : List Call) (s : Shared g) → IsOrderly s → Orderly (run cs s)
  run-Orderly [] s t = t
  run-Orderly (c ∷ cs) s t = after (call c s) (call-Orderly c s t) (λ s' t'. run-Orderly cs s' t')
    where
      after :
          (o : Option (Shared g))
          → Orderly o
          → ((s' : Shared g) → IsOrderly s' → Orderly (run cs s'))
          → Orderly (elim o [ none ↦ none | some s' ↦ run cs s' ])
      after none t later = tt
      after (some s') t later = later s' t
