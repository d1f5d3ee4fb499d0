-- ===== src/Wfs/Files/Outside.antt =====
-- The bytes of a file after a write of kernel/fs/wfs.c and the write of its inode.
use wos.Prelude.{
  inl, inr, Bool-cases, ◌≤◌, ◌<◌, ℕ, ◌+◌, ◌-◌, ◌/◌, ◌%◌, ◌≡◌, ◌≢◌, refl, ap, ◌∙◌, ◌&&◌, leb, ltb,
  ◌==◌, if◌then◌else◌, arith,
}
use wos.Wfs.Device.{Bytes}
use wos.Wfs.Layout.{Inode, block_size}
use wos.Wfs.Mapping.Found.{block_at, entry}
use wos.Wfs.Files.Contents.{file_byte}
use wos.Wfs.Files.Updated.{IsApart, Updated, AgreeOnTables, agree_block}

-- The block of the inode is neither a table nor a block of the file.
pub record IsOutside (blocks : ℕ → Bytes) (node : Inode) (block : ℕ) : Type 0 where
  pub contents : (i : ℕ) → block_at blocks node i ≢ block
  pub first : node.indirect ≢ 0 → node.indirect ≢ block
  pub outer : node.double_indirect ≢ 0 → node.double_indirect ≢ block
  pub middle :
      (q : ℕ)
      → entry blocks node.double_indirect q ≢ 0
      → entry blocks node.double_indirect q ≢ block

module _ (blocks : ℕ → Bytes) (node : Inode) (src : Bytes) (offset : ℕ) where
  -- The bytes of the file: `n` new ones from `offset` on, and the others as they were.
  abbrev pub HasNew : (n : ℕ) → (ℕ → Bytes) → Type 0
  HasNew n after =
      (i : ℕ)
      → file_byte after node i
        ≡ (if leb offset i && ltb i (offset + n) then src (i - offset) else file_byte blocks node i)

  outside-AgreeOnTables :
      (cur after : ℕ → Bytes) (n block : ℕ)
      → IsApart blocks node
      → IsOutside blocks node block
      → Updated blocks node src offset cur n
      → ((b : ℕ) → b ≢ block → after b ≡ cur b)
      → AgreeOnTables after blocks node
  outside-AgreeOnTables cur after n block a o u same = record {
    first = λ h. same _ (o.first h) ∙ u.others _ (a.first h);
    outer = λ h. same _ (o.outer h) ∙ u.others _ (a.outer h);
    middle = λ q h. same _ (o.middle q h) ∙ u.others _ (a.middle q h);
  }

  pub outside-HasNew :
      (cur after : ℕ → Bytes) (n block : ℕ)
      → IsApart blocks node
      → IsOutside blocks node block
      → Updated blocks node src offset cur n
      → ((b : ℕ) → b ≢ block → after b ≡ cur b)
      → ((i : ℕ) → offset ≤ i → i < offset + n → block_at blocks node (i / block_size) ≢ 0)
      → HasNew n after
  unfolding file_byte
  outside-HasNew cur after n block a o u same there i =
      let e =
        agree_block after blocks node (i / block_size)
          (outside-AgreeOnTables cur after n block a o u same) in
      elim (Bool-cases (block_at blocks node (i / block_size) == 0)) [
        | inr solid ↦
            rw (e, solid)
              (ap (λ (b : Bytes). b (i % block_size)) (same _ (o.contents (i / block_size)))
                ∙ u.contents i (ground (arith, solid)))
        | inl hole ↦
            rw (e, hole)
              (elim (Bool-cases (leb offset i && ltb i (offset + n))) [
                | inl new ↦ absurd (there i (ground arith) (ground arith) (ground arith))
                | inr old ↦ rw old refl
              ])
      ]
