-- ===== src/Abi.antt =====
-- include/wabi.h: the error codes that a call returns (negated), and the constants of the ABI.
use wos.Prelude.{ℕ}

-- The `W_E...` codes, each by its name.
pub data Error : Type 0 where
  eperm enoent eio enoexec ebadf enomem eacces ebusy eexist einval enfile emfile : Error
  enospc epipe enametoolong enotdir eisdir enotempty efbig : Error

-- What a call returns: a value, or one of the codes.
pub data Result {ℓ} (A : Type ℓ) : Type ℓ where
  ok : A → Result A
  err : Error → Result A

abbrev pub page_size : ℕ
page_size = 4096
