-- ===== src/Wfs/Files/Updated.antt =====
-- What a write of kernel/fs/wfs.c into blocks that are there does to the bytes of a file.
use wos.Prelude.{
  ℕ, ◌+◌, ◌-◌, ◌*◌, ◌/◌, ◌%◌, ◌≤◌, ◌<◌, ◌≡◌, ◌≢◌, ◌⊎◌, refl, sym, ap, subst, ◌∙◌, inl, inr, true,
  ◌&&◌, leb, ltb, update, ◌==◌, if◌then◌else◌, arith, Bool-cases,
}
use wos.Wfs.Device.{Bytes}
use wos.Wfs.Cache.Coherent.{InRange, update-ne}
use wos.Wfs.Cache.Represented.{update-eq}
use wos.Wfs.Words.{copy_into, get_word}
use wos.Wfs.Layout.{Inode, block_size, direct_blocks, ptrs_per_block}
use wos.Wfs.Mapping.Found.{entry, block_at, HasTables}

-- No two places of the file share a block, and no table is one of its blocks.
pub record IsApart (blocks : ℕ → Bytes) (node : Inode) : Type 0 where
  pub one_each :
      (i j : ℕ)
      → block_at blocks node i ≢ 0
      → block_at blocks node i ≡ block_at blocks node j
      → i ≡ j
  pub first : node.indirect ≢ 0 → (i : ℕ) → block_at blocks node i ≢ node.indirect
  pub outer : node.double_indirect ≢ 0 → (i : ℕ) → block_at blocks node i ≢ node.double_indirect
  pub middle :
      (q : ℕ)
      → entry blocks node.double_indirect q ≢ 0
      → (i : ℕ) → block_at blocks node i ≢ entry blocks node.double_indirect q

-- The blocks `x` have what the blocks `y` have in the tables of the file.
pub record AgreeOnTables (x y : ℕ → Bytes) (node : Inode) : Type 0 where
  pub first : node.indirect ≢ 0 → x node.indirect ≡ y node.indirect
  pub outer : node.double_indirect ≢ 0 → x node.double_indirect ≡ y node.double_indirect
  pub middle :
      (q : ℕ)
      → entry y node.double_indirect q ≢ 0
      → x (entry y node.double_indirect q) ≡ y (entry y node.double_indirect q)

agree_entry : (x y : ℕ → Bytes) (t j : ℕ) → (t ≢ 0 → x t ≡ y t) → entry x t j ≡ entry y t j
agree_entry x y t j h = elim (Bool-cases (t == 0)) [
  | inl e ↦ rw e refl
  | inr n ↦ rw n (ap (λ (b : Bytes). get_word b (j * 4)) (h (ground arith)))
]

-- Then the blocks of the file are the same ones.
pub agree_block :
    (x y : ℕ → Bytes) (node : Inode) (i : ℕ)
    → AgreeOnTables x y node
    → block_at x node i ≡ block_at y node i
unfolding block_at
agree_block x y node i a = elim (Bool-cases (ltb i direct_blocks)) [
  | inl e ↦ rw e refl
  | inr n ↦ rw n (elim (Bool-cases (ltb (i - direct_blocks) ptrs_per_block)) [
    | inl e ↦ rw e (agree_entry x y node.indirect (i - direct_blocks) a.first)
    | inr m ↦
        rw
          (
            m,
            agree_entry x y node.double_indirect
                ((i - direct_blocks - ptrs_per_block) / ptrs_per_block) a.outer,
          )
          (agree_entry x y _ _ (a.middle ((i - direct_blocks - ptrs_per_block) / ptrs_per_block)))
  ])
]

module _ (blocks : ℕ → Bytes) (node : Inode) (src : Bytes) (offset : ℕ) where
  -- `done` bytes from `offset` on are those of `src`, and nothing else has changed.
  pub record Updated (cur : ℕ → Bytes) (done : ℕ) : Type 0 where
    pub others : (b : ℕ) → ((i : ℕ) → block_at blocks node i ≢ b) → cur b ≡ blocks b
    pub contents :
        (i : ℕ)
        → block_at blocks node (i / block_size) ≢ 0
        → cur (block_at blocks node (i / block_size)) (i % block_size) ≡ (
            if leb offset i && ltb i (offset + done)
            then src (i - offset)
            else blocks (block_at blocks node (i / block_size)) (i % block_size))

  pub unchanged-Updated : Updated blocks 0
  unchanged-Updated = record { others = λ b h. refl; contents = λ i h. ground arith }

  Updated-AgreeOnTables :
      (cur : ℕ → Bytes) (done : ℕ)
      → IsApart blocks node
      → Updated cur done
      → AgreeOnTables cur blocks node
  Updated-AgreeOnTables cur done a u = record {
    first = λ h. u.others node.indirect (a.first h);
    outer = λ h. u.others node.double_indirect (a.outer h);
    middle = λ q h. u.others _ (a.middle q h);
  }

  same_middle :
      (cur : ℕ → Bytes) (done q : ℕ)
      → IsApart blocks node
      → Updated cur done
      → entry cur node.double_indirect q ≡ entry blocks node.double_indirect q
  same_middle cur done q a u =
      agree_entry cur blocks node.double_indirect q (λ h. u.others node.double_indirect (a.outer h))

  -- The tables are as they were.
  pub same_block :
      (cur : ℕ → Bytes) (done i : ℕ)
      → IsApart blocks node
      → Updated cur done
      → block_at cur node i ≡ block_at blocks node i
  same_block cur done i a u = agree_block cur blocks node i (Updated-AgreeOnTables cur done a u)

  pub same-HasTables :
      (cur : ℕ → Bytes) (done partition : ℕ)
      → IsApart blocks node
      → Updated cur done
      → HasTables blocks node partition
      → HasTables cur node partition
  same-HasTables cur done partition a u h = record {
    first = h.first;
    outer = h.outer;
    middle = λ i n.
        let e = same_middle cur done i a u in
        subst (InRange partition) (sym e) (h.middle i (λ z. n (e ∙ z)));
  }

  -- The block before the new bytes: as it is, unless it is replaced whole.
  abbrev pub IsOld : (cur : ℕ → Bytes) (block chunk : ℕ) → Bytes → Type 0
  IsOld cur block chunk old = (chunk ≡ block_size) ⊎ (old ≡ cur block)

  new_byte :
      (cur : ℕ → Bytes) (done chunk i : ℕ) (old : Bytes)
      → Updated cur done
      → block_at blocks node (i / block_size) ≢ 0
      → IsOld cur (block_at blocks node (i / block_size)) chunk old
      → chunk ≤ block_size - (offset + done) % block_size
      → i / block_size ≡ (offset + done) / block_size
      → copy_into old ((offset + done) % block_size) src done chunk (i % block_size) ≡ (
          if leb offset i && ltb i (offset + (done + chunk))
          then src (i - offset)
          else blocks (block_at blocks node (i / block_size)) (i % block_size))
  unfolding copy_into
  new_byte cur done chunk i old u there (inl whole) small same =
      let e : done + (i % block_size - (offset + done) % block_size) ≡ i - offset = omega arith in
      ground (arith, e)
  new_byte cur done chunk i old u there (inr kept) small same =
      let start = (offset + done) % block_size in
      elim (Bool-cases (leb start (i % block_size) && ltb (i % block_size) (start + chunk))) [
        | inl y ↦
            let e : done + (i % block_size - start) ≡ i - offset = ground arith in
            let t : (leb offset i && ltb i (offset + (done + chunk))) ≡ true = ground arith in
            rw (y, t, e) refl
        | inr n ↦
            let t : (leb offset i && ltb i (offset + (done + chunk)))
                ≡ (leb offset i && ltb i (offset + done)) =
              ground arith in
            rw (n, t, kept) (u.contents i there)
      ]

  other_byte :
      (done chunk i : ℕ)
      → chunk ≤ block_size - (offset + done) % block_size
      → i / block_size ≢ (offset + done) / block_size
      → (leb offset i && ltb i (offset + (done + chunk))) ≡ (leb offset i && ltb i (offset + done))
  other_byte done chunk i small h =
      let apart : (i < offset + done) ⊎ (offset + done + chunk ≤ i) = ground (arith, h, small) in
      ground (arith, apart)

  -- A chunk of the next block.
  pub chunk-Updated :
      (cur : ℕ → Bytes) (done chunk : ℕ) (old left : Bytes)
      → IsApart blocks node
      → Updated cur done
      → block_at blocks node ((offset + done) / block_size) ≢ 0
      → IsOld cur (block_at blocks node ((offset + done) / block_size)) chunk old
      → chunk ≤ block_size - (offset + done) % block_size
      → left ≡ copy_into old ((offset + done) % block_size) src done chunk
      → Updated
          (update cur (block_at blocks node ((offset + done) / block_size)) left)
          (done + chunk)
  chunk-Updated cur done chunk old left a u there is_old small e =
      let block = block_at blocks node ((offset + done) / block_size) in
      record {
        others = λ b h.
            update-ne cur block left b (λ f. h ((offset + done) / block_size) (sym f))
            ∙ u.others b h;
        contents = λ i there'. elim (Bool-cases (i / block_size == (offset + done) / block_size)) [
          | inl y ↦
              let same : i / block_size ≡ (offset + done) / block_size = ground arith in
              let same_block' : block_at blocks node (i / block_size) ≡ block =
                ap (block_at blocks node) same in
              ap (λ (n : ℕ). update cur block left n (i % block_size)) same_block'
              ∙ ap (λ (c : Bytes). c (i % block_size)) (update-eq cur block left ∙ e)
              ∙ new_byte cur done chunk i old u there'
                  (subst (λ (n : ℕ). IsOld cur n chunk old) (sym same_block') is_old) small same
          | inr n ↦
              let apart : i / block_size ≢ (offset + done) / block_size = ground arith in
              let other : block_at blocks node (i / block_size) ≢ block =
                λ f. apart (a.one_each _ _ there' f) in
              ap (λ (c : Bytes). c (i % block_size)) (update-ne cur block left _ other)
              ∙ rw (other_byte done chunk i small apart) (u.contents i there')
        ];
      }
