-- ===== src/Kernel/Strings/Tests.antt =====
-- The string routines on a small memory.
use meph_i_semester_4_acos.Base.{◌%◌, ◌≡◌, refl}
use meph_i_semester_4_acos.Kernel.Strings.{
  Memory, memset, memmove, stosb, move_down, move_up, memcmp, strncmp, strncpy, pad,
}
use meph_i_semester_4_acos.Kernel.Strings.Move.{Copied, memmove-Copied}
use meph_i_semester_4_acos.Kernel.Strings.Fill.{memset-stosb}

-- every byte is the low byte of its address
abbrev memory : Memory
memory x = x % 256

-- the ranges overlap, and the destination is the higher one
memmove-Copied_example : Copied 102 100 5 memory (memmove 102 100 5 memory)
memmove-Copied_example = memmove-Copied 102 100 5 memory

memmove-overlap : memmove 102 100 5 memory 106 ≡ 104
unfolding memmove move_down move_up
memmove-overlap = refl

memset-stosb_example : memset 16 300 8 memory ≡ stosb 16 300 8 memory
memset-stosb_example = memset-stosb 16 300 8 memory

-- the source ends after its first byte, so the rest is filled with 0
strncpy-fill : strncpy 16 255 3 memory 18 ≡ 0
unfolding strncpy pad
strncpy-fill = refl

memcmp-differ : memcmp 16 17 3 memory ≡ (16, 17)
unfolding memcmp
memcmp-differ = refl

strncmp-same : strncmp 16 272 3 memory ≡ (0, 0)
unfolding strncmp
strncmp-same = refl
