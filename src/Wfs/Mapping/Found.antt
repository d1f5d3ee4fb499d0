-- ===== src/Wfs/Mapping/Found.antt =====
-- `bmap` of kernel/fs/wfs.c without allocation, against the tables of block numbers as the blocks of
-- the volume have them.
use wos.Prelude.{
  ℕ, ◌-◌, ◌*◌, ◌/◌, ◌%◌, ◌≡◌, ◌≢◌, refl, sym, subst, ◌∙◌, inl, inr, Bool, true, false, not, ◌||◌,
  leb, ltb, ◌==◌, if◌then◌else◌, arith, Bool-cases, get_or,
}
use wos.Abi.{Result, ok, err}
use wos.Exec.{continue, pure, modify, ◌>>=◌}
use wos.Wfs.Device.{Device, Bytes, Keeps}
use wos.Wfs.Cache.Coherent.{InRange}
use wos.Wfs.Cache.Represented.{Represents}
use wos.Wfs.Words.{get_word, put_word}
use wos.Wfs.Layout.{Inode, direct_blocks, ptrs_per_block, double_blocks}
use wos.Wfs.Volume.{Volume, load, store}
use wos.Wfs.Volume.Stored.{Stands, Loads, load-Loads, Stands-trans}
use wos.Wfs.Mapping.{
  Pointer, get_pointer, Mapping, on_volume, new_block, counted, fill_slot, table_slot, through,
  bmap_direct, bmap_indirect, bmap_double, bmap,
}

-- An entry of a table of block numbers; there is none where the table is a hole.
abbrev pub entry : (ℕ → Bytes) → (table i : ℕ) → ℕ
entry blocks table i = if table == 0 then 0 else get_word (blocks table) (i * 4)

-- The block of the volume that has the block `index` of a file, 0 for a hole.
unfoldable pub block_at : (ℕ → Bytes) → Inode → (index : ℕ) → ℕ
block_at blocks node index =
    let second = index - direct_blocks - ptrs_per_block in
    if ltb index direct_blocks
    then get_or node.direct index 0
    else if ltb (index - direct_blocks) ptrs_per_block
    then entry blocks node.indirect (index - direct_blocks)
    else entry blocks (entry blocks node.double_indirect (second / ptrs_per_block))
        (second % ptrs_per_block)

-- The tables of the file have sectors with numbers of 32 bits.
pub record HasTables (blocks : ℕ → Bytes) (node : Inode) (partition : ℕ) : Type 0 where
  pub first : node.indirect ≢ 0 → InRange partition node.indirect
  pub outer : node.double_indirect ≢ 0 → InRange partition node.double_indirect
  pub middle :
      (i : ℕ)
      → entry blocks node.double_indirect i ≢ 0
      → InRange partition (entry blocks node.double_indirect i)

or-true : (b : Bool) → (b || true) ≡ true
or-true true = refl
or-true false = refl

module _ {d : Device} where
  abbrev pub word_of : (i : ℕ) → Result Bytes × Mapping d → Result ℕ × Mapping d
  word_of i (ok table, s) = (ok (get_word table (i * 4)), s)
  word_of i (err e, s) = (err e, s)

  pub fill_slot_lem : (p : Pointer) (s : Mapping d) → fill_slot p false s ≡ (ok tt, s)
  unfolding fill_slot ◌>>=◌
  fill_slot_lem p s = rw (or-true (not (get_pointer s.node p == 0))) refl

  table_rest :
      (t i : ℕ) (r : Result Bytes) (s : Mapping d)
      → continue r
          (λ table.
            if not (get_word table (i * 4) == 0) || not false
            then pure (get_word table (i * 4))
            else (on_volume new_block >>= λ b. modify counted >>= λ _.
                on_volume (store t (put_word table (i * 4) b)) >>= λ _. pure b))
          s
        ≡ word_of i (r, s)
  unfolding ◌>>=◌
  table_rest t i (ok table) s = rw (or-true (not (get_word table (i * 4) == 0))) refl
  table_rest t i (err e) s = refl

  pub table_slot_lem :
      (t i : ℕ) (s : Mapping d) → table_slot t i false s ≡ word_of i (on_volume (load t) s)
  unfolding table_slot ◌>>=◌
  table_slot_lem t i s = let (r, s') = on_volume (load t) s in table_rest t i r s'

  module _ (k : Keeps d) where
    -- The answer, if there is one, is `b`, and nothing but the cache and the device changes.
    pub record Finds (blocks : ℕ → Bytes) (s : Mapping d) (b : ℕ) (out : Result ℕ × Mapping d)
        : Type 0 where
      pub answer : (x : ℕ) → out.0 ≡ ok x → x ≡ b
      pub stands : Stands k blocks s.volume out.1.volume
      pub same_node : out.1.node ≡ s.node

    word_of-Finds :
        (blocks : ℕ → Bytes) (t i : ℕ) (s : Mapping d) (out : Result Bytes × Volume d)
        → Loads k blocks t s.volume out
        → Finds blocks s
            (get_word (blocks t) (i * 4))
            (word_of i (out.0, record s { volume = out.1 }))
    word_of-Finds blocks t i s (ok table, v) (inl e, st) = absurd cc
    word_of-Finds blocks t i s (ok table, v) (inr e, st) =
        let same : table ≡ blocks t = cc in
        record { answer = λ x h. rw (sym same) cc; stands = st; same_node = refl }
    word_of-Finds blocks t i s (err e, v) l = record {
      answer = λ x h. absurd cc;
      stands = l.1;
      same_node = refl;
    }

    here-Finds :
        (blocks : ℕ → Bytes) (s : Mapping d) (b : ℕ)
        → Represents k blocks s.volume.io
        → Finds blocks s b (ok b, s)
    here-Finds blocks s b r = record {
      answer = λ x h. cc;
      stands = record { represents = r; same_partition = refl; rest = refl };
      same_node = refl;
    }

    pub through-Finds :
        (blocks : ℕ → Bytes) (t i : ℕ) (s : Mapping d)
        → Represents k blocks s.volume.io
        → (t ≢ 0 → InRange s.volume.io.partition t)
        → Finds blocks s (entry blocks t i) (through t i false s)
    unfolding through on_volume ◌>>=◌
    through-Finds blocks t i s r range = elim (Bool-cases (t == 0)) [
      | inl y ↦ rw y (here-Finds blocks s 0 r)
      | inr n ↦
          rw (n, table_slot_lem t i s)
            (word_of-Finds blocks t i s (load t s.volume)
              (load-Loads k blocks t s.volume r (range (ground arith))))
    ]

    -- The answer of the first step is where the second looks.
    then_through :
        (blocks : ℕ → Bytes) (i : ℕ) (s : Mapping d) (m : ℕ) (out : Result ℕ × Mapping d)
        → Finds blocks s m out
        → (m ≢ 0 → InRange s.volume.io.partition m)
        → Finds blocks s (entry blocks m i) (continue out.0 (λ b. through b i false) out.1)
    then_through blocks i s m (err e, s') f range = record {
      answer = λ x h. absurd cc;
      stands = f.stands;
      same_node = f.same_node;
    }
    then_through blocks i s m (ok b, s') f range =
        let same : b ≡ m = f.answer b refl in
        let range' : m ≢ 0 → InRange s'.volume.io.partition m =
          λ h. subst (λ (p : ℕ). InRange p m) (sym f.stands.same_partition) (range h) in
        let g = through-Finds blocks m i s' f.stands.represents range' in
        rw same (record {
          answer = g.answer;
          stands = Stands-trans k f.stands g.stands;
          same_node = g.same_node ∙ f.same_node;
        })

    bmap_double-Finds :
        (blocks : ℕ → Bytes) (i : ℕ) (s : Mapping d)
        → Represents k blocks s.volume.io
        → HasTables blocks s.node s.volume.io.partition
        → Finds blocks s
            (entry blocks
              (entry blocks s.node.double_indirect (i / ptrs_per_block))
              (i % ptrs_per_block))
            (bmap_double i false s)
    unfolding bmap_double ◌>>=◌
    bmap_double-Finds blocks i s r h = rw (fill_slot_lem Pointer.in_double s) (
        then_through blocks (i % ptrs_per_block) s _ _
          (through-Finds blocks s.node.double_indirect (i / ptrs_per_block) s r h.outer)
          (h.middle (i / ptrs_per_block)))

    bmap_indirect-Finds :
        (blocks : ℕ → Bytes) (i : ℕ) (s : Mapping d)
        → Represents k blocks s.volume.io
        → HasTables blocks s.node s.volume.io.partition
        → Finds blocks s (entry blocks s.node.indirect i) (bmap_indirect i false s)
    unfolding bmap_indirect ◌>>=◌
    bmap_indirect-Finds blocks i s r h =
        rw (fill_slot_lem Pointer.in_indirect s)
          (through-Finds blocks s.node.indirect i s r h.first)

    bmap_direct-Finds :
        (blocks : ℕ → Bytes) (i : ℕ) (s : Mapping d)
        → Represents k blocks s.volume.io
        → Finds blocks s (get_or s.node.direct i 0) (bmap_direct i false s)
    unfolding bmap_direct ◌>>=◌
    bmap_direct-Finds blocks i s r =
        rw (fill_slot_lem (Pointer.in_direct i) s) (here-Finds blocks s _ r)

    -- A look for a block of a file finds the one that the tables on the volume name, a hole where a table
    -- is missing; and nothing but the cache and the device changes.
    pub bmap-Finds :
        (blocks : ℕ → Bytes) (i : ℕ) (s : Mapping d)
        → Represents k blocks s.volume.io
        → HasTables blocks s.node s.volume.io.partition
        → Finds blocks s (block_at blocks s.node i) (bmap i false s)
    unfolding bmap block_at ◌>>=◌
    bmap-Finds blocks i s r h = elim (Bool-cases (ltb i direct_blocks)) [
      | inl y ↦ rw y (bmap_direct-Finds blocks i s r)
      | inr n ↦ rw n (elim (Bool-cases (ltb (i - direct_blocks) ptrs_per_block)) [
        | inl y ↦ rw y (bmap_indirect-Finds blocks (i - direct_blocks) s r h)
        | inr m ↦ rw m (elim (Bool-cases (leb double_blocks (i - direct_blocks - ptrs_per_block))) [
          | inl y ↦ rw y (record {
            answer = λ x e. absurd cc;
            stands = record { represents = r; same_partition = refl; rest = refl };
            same_node = refl;
          })
          | inr b ↦ rw b (bmap_double-Finds blocks (i - direct_blocks - ptrs_per_block) s r h)
        ])
      ])
    ]
