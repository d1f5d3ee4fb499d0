-- ===== src/User/Storage.antt =====
-- The calls of the filesystem that kernel/fs/user.c makes, as an interface, and the helpers of that
-- file over it.
use wos.Prelude.{ℕ, List, [], ◌∷◌, Bool, true, false, length, ◌==◌, if◌then◌else◌}
use wos.Abi.{Error, enoent, eio, Result, ok, err}

-- `wfs_lookup`, `wfs_create`, `wfs_truncate`, `wfs_write` and `wfs_read` (the last two from offset
-- 0), and the size that `wfs_read_inode` gives.
pub record Disk : Type 1 where
  pub State : Type 0
  pub lookup : State → List ℕ → Result ℕ
  pub create : State → List ℕ → (is_dir : Bool) → Result ℕ × State
  pub truncate : State → ℕ → Result (Unit {0}) × State
  pub write : State → ℕ → List ℕ → Result ℕ × State
  pub size : State → ℕ → Result ℕ
  pub read : State → ℕ → (max : ℕ) → Result (List ℕ)

abbrev pub is_missing : Error → Bool
is_missing enoent = true
is_missing _ = false

-- `r < 0` ends a chain of calls with that error; otherwise the next one is made.
unfoldable pub and_then : {S A B : Type 0} → Result A × S → (A → S → Result B × S) → Result B × S
and_then (ok a, s) f = f a s
and_then (err e, s) f = (err e, s)

abbrev pub done : Result ℕ → Result (Unit {0})
done (ok _) = ok tt
done (err e) = err e

-- `(r == (int)len) ? 0 : (r < 0 ? r : -W_EIO)`
abbrev pub all_of : (len : ℕ) → Result ℕ → Result (Unit {0})
all_of len (ok n) = if n == len then ok tt else err eio
all_of len (err e) = err e

module _ (d : Disk) where
  open d use {State, lookup, create, truncate, write}

  unfoldable pub ensure_dir : State → List ℕ → Result (Unit {0}) × State
  ensure_dir s path = elim (lookup s path) [
    | ok _ ↦ (ok tt, s)
    | err _ ↦ let (r, t) = create s path true in (done r, t)
  ]

  unfoldable pub write_whole : State → ℕ → List ℕ → Result (Unit {0}) × State
  write_whole s ino [] = (ok tt, s)
  write_whole s ino (c ∷ cs) = let (r, t) = write s ino (c ∷ cs) in (all_of (length (c ∷ cs)) r, t)

  unfoldable pub open_file : State → List ℕ → Result ℕ × State
  open_file s path = elim (lookup s path) [
    | ok ino ↦ (ok ino, s)
    | err e ↦ if is_missing e then create s path false else (err e, s)
  ]

  unfoldable pub write_file : State → List ℕ → List ℕ → Result (Unit {0}) × State
  write_file s path text =
      and_then (open_file s path)
        (λ ino t. and_then (truncate t ino) (λ _ u. write_whole u ino text))
