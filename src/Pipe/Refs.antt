-- ===== src/Pipe/Refs.antt =====
-- The reference counts of a pipe's two ends, and readiness for writing.
use wos.Prelude.{
  ℕ, zero, suc, ◌≡◌, ◌⊎◌, refl, inl, inr, Bool, true, false, not, some, [], ◌∷◌, arith, Bool-cases,
  ◌==◌, ltb,
}
use wos.Ring.{fill, put, Inv}
use wos.Pipe.{
  ℤ, pos, negsuc, Pipe, cap, is_pos, incr, decr, Write, ref, unref, write, write_loop, pollout,
}

incr-decr : (x : ℤ) → decr (incr x) ≡ x
incr-decr (pos n) = refl
incr-decr (negsuc zero) = refl
incr-decr (negsuc (suc n)) = refl

-- A reference to either end that is taken and given back leaves the pipe as it was, if one end is
-- open.
pub unref-ref :
    (p : Pipe) (write_end : Bool)
    → (is_pos p.readers ≡ true) ⊎ (is_pos p.writers ≡ true)
    → unref (ref (some p) write_end) write_end ≡ some p
unfolding unref ref
unref-ref p true live = ground (arith, incr-decr p.writers)
unref-ref p false live = ground (arith, incr-decr p.readers)

abbrev pub waits : Write → Bool
waits (Write.blocked q rest n) = true
waits _ = false

-- `pipe_pollout` is true exactly when a write of one byte would not wait.
pub pollout-write :
    (p : Pipe) (byte : ℕ)
    → Inv cap p.ring
    → pollout (some p) ≡ not (waits (write (some p) (byte ∷ [])))
unfolding pollout write write_loop fill put
pollout-write p byte v = elim (Bool-cases (is_pos p.readers)) [
  | inr gone ↦ rw gone (elim (Bool-cases (ltb p.ring.count cap)) [ inl t ↦ rw t | inr t ↦ rw t ])
  | inl live ↦ rw live (elim (Bool-cases (p.ring.count == cap)) [
    | inl full ↦ rw full (ground arith)
    | inr room ↦ let t : ltb p.ring.count cap ≡ true = ground (arith, v.count_in) in rw (room, t)
  ])
]
