-- ===== src/Frames/Tests.antt =====
-- Runs of the frame allocator, and its theorems at a machine of 70 frames.
use wos.Prelude.{ℕ, ◌≡◌, ◌*◌, refl, none, some, arith}
use wos.Bits.{test_bit, set_bit}
use wos.Frames.Bitmap.{Words, test, assign, popcount, assign-IsWords}
use wos.Frames.{Frames, taken, alloc_frame, free_frame, alloc_contiguous}
use wos.Frames.Alloc.{
  IsValid, Allocates, Frees, alloc_frame-Allocates, free_frame-Frees, free-alloc,
}
use wos.Frames.Runs.{AllocatesRun, alloc_contiguous-AllocatesRun}

-- Frame 0 and frame 65 are in use.
abbrev words : Words
words = assign (assign (λ _. 0) 0) 65

abbrev machine : Frames
machine = record {
  bitmap = words;
  total = 70;
  usable = 70;
  holes = 0;
  used = 2;
  reserved = 1;
  heap_base = 0;
  next_hint = 65;
  next_hint_low = 0;
}

machine-IsValid : IsValid machine
unfolding popcount test test_bit assign set_bit
machine-IsValid = record {
  words = assign-IsWords _ 65 (assign-IsWords _ 0 (λ i. omega arith));
  counted = refl;
}

next_free : (alloc_frame machine).0 ≡ 66 * 4096
unfolding alloc_frame test test_bit assign set_bit
next_free = refl

pair : (alloc_contiguous machine 4 4).0 ≡ 4 * 4096
unfolding alloc_contiguous test test_bit assign set_bit
pair = refl

double_free : free_frame machine 4096 ≡ none
unfolding free_frame test test_bit assign set_bit
double_free = refl

alloc_frame-Allocates_example : Allocates machine 70 (alloc_frame machine)
alloc_frame-Allocates_example = alloc_frame-Allocates machine machine-IsValid

free_frame-Frees_example : Frees machine 65 (free_frame machine (65 * 4096))
free_frame-Frees_example = free_frame-Frees machine (65 * 4096) machine-IsValid

free-alloc_example :
    (r : Frames) × (free_frame (record (taken machine 66) { next_hint = 67 }) (66 * 4096) ≡ some r)
    × ((g : ℕ) → test r.bitmap g ≡ test words g)
    × (r.used ≡ 2)
unfolding alloc_frame test test_bit assign set_bit
free-alloc_example = free-alloc machine _ (66 * 4096) machine-IsValid refl (omega arith)

alloc_contiguous-AllocatesRun_example : AllocatesRun machine 4 4 (alloc_contiguous machine 4 4)
alloc_contiguous-AllocatesRun_example =
    alloc_contiguous-AllocatesRun machine 4 2 machine-IsValid (omega arith) (omega arith)
      (omega arith)
