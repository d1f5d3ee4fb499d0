-- ===== src/Memory/Tests.antt =====
-- Runs of the memory routines, and their theorems at concrete areas.
use wos.Prelude.{◌+◌, ◌-◌, ◌≡◌, refl, if◌then◌else◌, update}
use wos.Memory.{Mem, memcpy, memmove, copy_aligned, copy_words, copy_bytes, move_word, store}
use wos.Memory.Copy.{inside, memmove-copies}

abbrev tape : Mem
tape a = a

memmove-copies_example :
    memmove 20 16 13 tape 30 ≡ (if inside 20 13 30 then tape (16 + (30 - 20)) else tape 30)
memmove-copies_example = memmove-copies 20 16 13 tape 30

memcpy_word : memcpy 64 16 9 tape 72 ≡ 24
unfolding memcpy copy_aligned copy_words copy_bytes move_word store update
memcpy_word = refl
