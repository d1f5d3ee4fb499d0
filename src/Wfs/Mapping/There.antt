-- ===== src/Wfs/Mapping/There.antt =====
-- `bmap` of kernel/fs/wfs.c with allocation, for a block of the file that is there already.
use wos.Prelude.{
  ℕ, ◌-◌, ◌*◌, ◌/◌, ◌%◌, ◌≡◌, ◌≢◌, ◌⊎◌, refl, sym, subst, ◌∙◌, inl, inr, true, false, not, ◌||◌,
  leb, ltb, ◌==◌, if◌then◌else◌, arith, Bool-cases, get_or,
}
use wos.Abi.{eio, Result, ok, err}
use wos.Exec.{continue, pure, modify, ◌>>=◌}
use wos.Wfs.Device.{Device, Bytes, Keeps}
use wos.Wfs.Cache.Represented.{Represents}
use wos.Wfs.Cache.Coherent.{InRange}
use wos.Wfs.Words.{get_word, put_word}
use wos.Wfs.Layout.{direct_blocks, ptrs_per_block, double_blocks}
use wos.Wfs.Volume.{load, store}
use wos.Wfs.Volume.Stored.{load-Loads}
use wos.Wfs.Mapping.{
  Pointer, get_pointer, Mapping, on_volume, new_block, counted, fill_slot, table_slot, through,
  bmap_direct, bmap_indirect, bmap_double, bmap,
}
use wos.Wfs.Mapping.Found.{
  entry, block_at, HasTables, Finds, word_of, fill_slot_lem, table_slot_lem, through-Finds,
  bmap-Finds,
}

module _ {d : Device} where
  there_slot :
      (p : Pointer) (s : Mapping d)
      → get_pointer s.node p ≢ 0
      → fill_slot p true s ≡ fill_slot p false s
  unfolding fill_slot ◌>>=◌
  there_slot p s h = let e : (get_pointer s.node p == 0) ≡ false = ground (arith, h) in rw e refl

  module _ (k : Keeps d) where
    there_rest :
        (blocks : ℕ → Bytes) (t i : ℕ) (r : Result Bytes) (s : Mapping d)
        → (r ≡ err eio) ⊎ (r ≡ ok (blocks t))
        → get_word (blocks t) (i * 4) ≢ 0
        → continue r
            (λ table.
              if not (get_word table (i * 4) == 0) || not true
              then pure (get_word table (i * 4))
              else (on_volume new_block >>= λ b. modify counted >>= λ _.
                  on_volume (store t (put_word table (i * 4) b)) >>= λ _. pure b))
            s
          ≡ word_of i (r, s)
    unfolding ◌>>=◌
    there_rest blocks t i (err e) s l h = refl
    there_rest blocks t i (ok table) s (inl l) h = absurd cc
    there_rest blocks t i (ok table) s (inr l) h =
        let same : table ≡ blocks t = cc in
        let e : (get_word (blocks t) (i * 4) == 0) ≡ false = ground (arith, h) in rw (same, e) refl

    there_table :
        (blocks : ℕ → Bytes) (t i : ℕ) (s : Mapping d)
        → Represents k blocks s.volume.io
        → InRange s.volume.io.partition t
        → get_word (blocks t) (i * 4) ≢ 0
        → table_slot t i true s ≡ table_slot t i false s
    unfolding table_slot ◌>>=◌ on_volume
    there_table blocks t i s r range h =
        let (r', s') = on_volume (load t) s in
        let loads = load-Loads k blocks t s.volume r range in
        there_rest blocks t i r' s' loads.0 h ∙ sym (table_slot_lem t i s)

    there_through :
        (blocks : ℕ → Bytes) (t i : ℕ) (s : Mapping d)
        → Represents k blocks s.volume.io
        → (t ≢ 0 → InRange s.volume.io.partition t)
        → entry blocks t i ≢ 0
        → through t i true s ≡ through t i false s
    unfolding through
    there_through blocks t i s r range h = elim (Bool-cases (t == 0)) [
      | inl y ↦ absurd (h (rw y refl))
      | inr n ↦
          let h' : get_word (blocks t) (i * 4) ≢ 0 = λ e. h (rw n e) in
          rw n (there_table blocks t i s r (range (ground arith)) h')
    ]

    there_then :
        (blocks : ℕ → Bytes) (i : ℕ) (s : Mapping d) (m : ℕ) (out : Result ℕ × Mapping d)
        → Finds k blocks s m out
        → (m ≢ 0 → InRange s.volume.io.partition m)
        → entry blocks m i ≢ 0
        → continue out.0 (λ b. through b i true) out.1
          ≡ continue out.0 (λ b. through b i false) out.1
    there_then blocks i s m (err e, s') f range h = refl
    there_then blocks i s m (ok b, s') f range h =
        let same : b ≡ m = f.answer b refl in
        let range' : m ≢ 0 → InRange s'.volume.io.partition m =
          λ n. subst (λ (p : ℕ). InRange p m) (sym f.stands.same_partition) (range n) in
        rw same (there_through blocks m i s' f.stands.represents range' h)

    entry-there : (blocks : ℕ → Bytes) (t i : ℕ) → entry blocks t i ≢ 0 → t ≢ 0
    entry-there blocks t i h e = h (rw e refl)

    there_double :
        (blocks : ℕ → Bytes) (i : ℕ) (s : Mapping d)
        → Represents k blocks s.volume.io
        → HasTables blocks s.node s.volume.io.partition
        → entry blocks
            (entry blocks s.node.double_indirect (i / ptrs_per_block))
            (i % ptrs_per_block)
          ≢ 0
        → bmap_double i true s ≡ bmap_double i false s
    unfolding bmap_double ◌>>=◌
    there_double blocks i s r h there =
        let outer = s.node.double_indirect in
        let q = i / ptrs_per_block in
        let middle_there = entry-there blocks (entry blocks outer q) (i % ptrs_per_block) there in
        let outer_there = entry-there blocks outer q middle_there in
        rw
          (
            there_slot Pointer.in_double s outer_there,
            fill_slot_lem Pointer.in_double s,
            there_through blocks outer q s r h.outer middle_there,
          )
          (there_then blocks (i % ptrs_per_block) s _ _ (through-Finds k blocks outer q s r h.outer)
            (h.middle q) there)

    there_indirect :
        (blocks : ℕ → Bytes) (i : ℕ) (s : Mapping d)
        → Represents k blocks s.volume.io
        → HasTables blocks s.node s.volume.io.partition
        → entry blocks s.node.indirect i ≢ 0
        → bmap_indirect i true s ≡ bmap_indirect i false s
    unfolding bmap_indirect ◌>>=◌
    there_indirect blocks i s r h there =
        rw
          (
            there_slot Pointer.in_indirect s (entry-there blocks s.node.indirect i there),
            fill_slot_lem Pointer.in_indirect s,
          )
          (there_through blocks s.node.indirect i s r h.first there)

    there_direct :
        (i : ℕ) (s : Mapping d)
        → get_or s.node.direct i 0 ≢ 0
        → bmap_direct i true s ≡ bmap_direct i false s
    unfolding bmap_direct ◌>>=◌
    there_direct i s there = rw (there_slot (Pointer.in_direct i) s there) refl

    -- Nothing is allocated for a block of a file that is there.
    pub bmap-there :
        (blocks : ℕ → Bytes) (i : ℕ) (s : Mapping d)
        → Represents k blocks s.volume.io
        → HasTables blocks s.node s.volume.io.partition
        → block_at blocks s.node i ≢ 0
        → bmap i true s ≡ bmap i false s
    unfolding bmap block_at
    bmap-there blocks i s r h there = elim (Bool-cases (ltb i direct_blocks)) [
      | inl y ↦ rw y (there_direct i s (λ e. there (rw y e)))
      | inr n ↦ rw n (elim (Bool-cases (ltb (i - direct_blocks) ptrs_per_block)) [
        | inl y ↦ rw y (there_indirect blocks (i - direct_blocks) s r h (λ e. there (rw (n, y) e)))
        | inr m ↦ rw m (elim (Bool-cases (leb double_blocks (i - direct_blocks - ptrs_per_block))) [
          | inl y ↦ rw y refl
          | inr b ↦ rw b (
              there_double blocks (i - direct_blocks - ptrs_per_block) s r h
                (λ e. there (rw (n, m) e)))
        ])
      ])
    ]

    pub bmap_there-Finds :
        (blocks : ℕ → Bytes) (i : ℕ) (s : Mapping d)
        → Represents k blocks s.volume.io
        → HasTables blocks s.node s.volume.io.partition
        → block_at blocks s.node i ≢ 0
        → Finds k blocks s (block_at blocks s.node i) (bmap i true s)
    bmap_there-Finds blocks i s r h there =
        rw (bmap-there blocks i s r h there) (bmap-Finds k blocks i s r h)
