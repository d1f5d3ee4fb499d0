-- ===== src/Wfs/Files/WriteLoop.antt =====
-- The loop of `wfs_write` of kernel/fs/wfs.c over blocks that are there.
use wos.Prelude.{
  ℕ, zero, suc, ◌+◌, ◌-◌, ◌/◌, ◌%◌, ◌^◌, ◌≤◌, ◌<◌, ◌≡◌, ◌⊎◌, refl, subst, ◌∙◌, inl, inr, true, ltb,
  Option, none, some, arith, Bool-cases,
}
use wos.Abi.{Error, Result, ok, err}
use wos.Exec.{Exec, continue, pure, ◌>>=◌}
use wos.Wfs.Device.{Device, Bytes, Keeps}
use wos.Wfs.Layout.{Inode, block_size}
use wos.Wfs.Volume.{Volume}
use wos.Wfs.Volume.Stored.{Stands-trans}
use wos.Wfs.Mapping.{Mapping, bmap}
use wos.Wfs.Files.{chunk_of, write_mapped, write_round, after_round, write_loop}
use wos.Wfs.Files.Runs.{IsPlaced}
use wos.Wfs.Files.Updated.{IsApart}
use wos.Wfs.Files.Writes.{At, IsThere, block_of_at, found-At, chunk-At}

module _ {d : Device} (k : Keeps d) (blocks : ℕ → Bytes) (node : Inode) (src : Bytes) (offset : ℕ)
    (start : Volume d) where
  abbrev Reached : ℕ → Mapping d → Type 0
  Reached done s = (after : ℕ → Bytes) × At k blocks node src offset start after done s

  -- A round writes its chunk, or ends the loop with what was done before.
  abbrev RoundAt : (done chunk : ℕ) → Result (Option Error) × Mapping d → Type 0
  RoundAt done chunk out =
      (o : Option Error)
      → out.0 ≡ ok o
      → ((o ≡ none) × Reached (done + chunk) out.1)
        ⊎ ((e : Error) × (o ≡ some e) × Reached done out.1)

  end_chunk :
      (done chunk : ℕ) (wrote : Result (Unit {0}) × Mapping d)
      → (wrote.0 ≡ ok tt → Reached (done + chunk) wrote.1)
      → RoundAt done chunk (continue wrote.0 (λ _. pure none) wrote.1)
  unfolding ◌>>=◌
  end_chunk done chunk (err e, s) h o f = absurd cc
  end_chunk done chunk (ok u, s) h o f = inl (cc, h refl)

  mapped_then :
      (cur : ℕ → Bytes) (done chunk : ℕ) (r : Result ℕ) (s : Mapping d)
      → IsPlaced blocks node start.io.partition
      → IsApart blocks node
      → IsThere k blocks node src offset start (offset + done)
      → chunk ≤ block_size - (offset + done) % block_size
      → ((b : ℕ) → r ≡ ok b → b ≡ block_of_at k blocks node src offset start done)
      → At k blocks node src offset start cur done s
      → RoundAt done chunk (write_mapped r (offset + done) done chunk src s)
  unfolding write_mapped ◌>>=◌
  mapped_then cur done chunk (err e) s placed apart there small found a =
      λ o f. inr (e, cc, (cur, a))
  mapped_then cur done chunk (ok b) s placed apart there small found a = rw (found b refl) (
      end_chunk done chunk _
        (chunk-At k blocks node src offset start cur done chunk s placed apart there small a))

  round-At :
      (cur : ℕ → Bytes) (done chunk : ℕ) (s : Mapping d)
      → IsPlaced blocks node start.io.partition
      → IsApart blocks node
      → IsThere k blocks node src offset start (offset + done)
      → chunk ≤ block_size - (offset + done) % block_size
      → At k blocks node src offset start cur done s
      → RoundAt done chunk (write_round (offset + done) done chunk src s)
  unfolding write_round ◌>>=◌
  round-At cur done chunk s placed apart there small a =
      let f = found-At k blocks node src offset start cur done s placed apart there a in
      let (r, s') = bmap ((offset + done) / block_size) true s in
      mapped_then cur done chunk r s' placed apart there small f.answer (record {
        stands = Stands-trans k a.stands f.stands;
        same_node = f.same_node ∙ a.same_node;
        updated = a.updated;
      })

  -- What the loop has written when it ends, by itself or for want of a block.
  abbrev pub LoopAt : (done len : ℕ) → Result (ℕ × Option Error) × Mapping d → Type 0
  LoopAt done len out =
      (c : ℕ) (o : Option Error)
      → out.0 ≡ ok (c, o)
      → (done ≤ c)
        × (c ≤ len)
        × ((after : ℕ → Bytes) × At k blocks node src offset start after c out.1)

  loop_then :
      (done chunk len : ℕ) (round : Result (Option Error) × Mapping d)
      (more : Exec (Mapping d) (ℕ × Option Error))
      → RoundAt done chunk round
      → done ≤ len
      → ((cur : ℕ → Bytes) (s : Mapping d)
          → At k blocks node src offset start cur (done + chunk) s
          → LoopAt (done + chunk) len (more s))
      → LoopAt done len (continue round.0 (λ o. after_round o done more) round.1)
  unfolding ◌>>=◌
  loop_then done chunk len (err e, s) more r low rest c o f = absurd cc
  loop_then done chunk len (ok none, s) more r low rest c o f = elim (r none refl) [
    | inl (e, (cur, a)) ↦
        let (further, high, reached) = rest cur s a c o f in (omega arith, high, reached)
    | inr (e, g, h) ↦ absurd cc
  ]
  loop_then done chunk len (ok (some e), s) more r low rest c o f = elim (r (some e) refl) [
    | inl (g, h) ↦ absurd cc
    | inr (e', g, (cur, a)) ↦
        let same : done ≡ c = cc in
        (
          omega arith,
          omega arith,
          (cur, subst (λ (n : ℕ). At k blocks node src offset start cur n s) same a),
        )
  ]

  -- On fuel for every byte that is left, the loop ends with what it has written.
  pub write_loop-At :
      (n len : ℕ) (cur : ℕ → Bytes) (done : ℕ) (s : Mapping d)
      → IsPlaced blocks node start.io.partition
      → IsApart blocks node
      → ((i : ℕ) → i < len → IsThere k blocks node src offset start (offset + i))
      → offset + len < 2 ^ 32
      → done ≤ len
      → At k blocks node src offset start cur done s
      → LoopAt done len (write_loop n offset len done src s)
  unfolding write_loop ◌>>=◌
  write_loop-At zero len cur done s placed apart there small low a = λ c o f.
      let same : done ≡ c = cc in
      (
        omega arith,
        omega arith,
        (cur, subst (λ (n : ℕ). At k blocks node src offset start cur n s) same a),
      )
  write_loop-At (suc n) len cur done s placed apart there small low a =
      elim (Bool-cases (ltb done len)) [
        | inr m ↦ rw m (λ c o f.
            let same : done ≡ c = cc in
            (
              omega arith,
              omega arith,
              (cur, subst (λ (n : ℕ). At k blocks node src offset start cur n s) same a),
            ))
        | inl y ↦
            let place : (offset + done) % 2 ^ 32 ≡ offset + done = omega arith in
            let chunk = chunk_of (offset + done) (len - done) in
            rw (y, place)
              (loop_then done chunk len _ (write_loop n offset len (done + chunk) src)
                (round-At cur done chunk s placed apart (there done (ground arith)) (omega arith) a)
                low
                (λ cur' s' a'.
                  write_loop-At n len cur' (done + chunk) s' placed apart there small (ground arith)
                    a'))
      ]
