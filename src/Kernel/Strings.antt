-- ===== src/Kernel/Strings.antt =====
-- alarm/string.c: the string routines of the kernel, on a memory of bytes. A `char` is its byte
-- from 0 to 255, and no address wraps at 2 ^ 32.
pub mod Move
pub mod Fill
mod Tests
use meph_i_semester_4_acos.Base.{
  ℕ, zero, suc, ◌+◌, ◌-◌, ◌*◌, ◌/◌, ◌%◌, ◌^◌, Bool, true, false, ◌||◌, ◌&&◌, not, ◌==◌, ltb, leb,
  if◌then◌else◌, update,
}

abbrev pub Memory : Type 0
Memory = ℕ → ℕ

-- `stosb`: `n` bytes
pub stosb : ℕ → ℕ → ℕ → Memory → Memory
stosb dst c zero m = m
stosb dst c (suc n) m = stosb (dst + 1) c n (update m dst (c % 256))

-- `stosl`: `n` words of 4 bytes, the lowest byte first
pub stosl : ℕ → ℕ → ℕ → Memory → Memory
stosl dst w zero m = m
stosl dst w (suc n) m = stosl (dst + 4) w n (
    update
      (update (update (update m dst (w % 256)) (dst + 1) (w / 2 ^ 8 % 256)) (dst + 2)
        (w / 2 ^ 16 % 256))
      (dst + 3) (w / 2 ^ 24 % 256))

-- `(c<<24)|(c<<16)|(c<<8)|c` of a byte
abbrev pub word_of : ℕ → ℕ
word_of c = c * 2 ^ 24 + c * 2 ^ 16 + c * 2 ^ 8 + c

-- `memset`
pub memset : ℕ → ℕ → ℕ → Memory → Memory
memset dst c n m =
    if dst % 4 == 0 && n % 4 == 0 then stosl dst (word_of (c % 256)) (n / 4) m else stosb dst c n m

-- `memcmp`: the two bytes that differ, whose difference it returns, or 0 and 0
pub memcmp : ℕ → ℕ → ℕ → Memory → ℕ × ℕ
memcmp s1 s2 zero m = (0, 0)
memcmp s1 s2 (suc n) m =
    let rest = memcmp (s1 + 1) (s2 + 1) n m in if m s1 == m s2 then rest else (m s1, m s2)

-- the loop of memmove from the end, with the pointers behind the bytes to go
pub move_down : ℕ → ℕ → ℕ → Memory → Memory
move_down d s zero m = m
move_down d s (suc n) m = move_down (d - 1) (s - 1) n (update m (d - 1) (m (s - 1)))

-- the loop of memmove from the start
pub move_up : ℕ → ℕ → ℕ → Memory → Memory
move_up d s zero m = m
move_up d s (suc n) m = move_up (d + 1) (s + 1) n (update m d (m s))

-- `memmove`
pub memmove : ℕ → ℕ → ℕ → Memory → Memory
memmove dst src n m =
    if ltb src dst && ltb dst (src + n)
    then move_down (dst + n) (src + n) n m
    else move_up dst src n m

-- `memcpy`
abbrev pub memcpy : ℕ → ℕ → ℕ → Memory → Memory
memcpy = memmove

-- `strncmp`: the two bytes whose difference it returns
pub strncmp : ℕ → ℕ → ℕ → Memory → ℕ × ℕ
strncmp p q zero m = (0, 0)
strncmp p q (suc n) m =
    let rest = strncmp (p + 1) (q + 1) n m in
    if not (m p == 0) && m p == m q then rest else (m p, m q)

-- the second loop of strncpy
pub pad : ℕ → ℕ → Memory → Memory
pad s zero m = m
pad s (suc n) m = pad (s + 1) n (update m s 0)

-- `strncpy`: the loop that copies, and behind the end of `t` the one that fills up
pub strncpy : ℕ → ℕ → ℕ → Memory → Memory
strncpy s t zero m = m
strncpy s t (suc n) m =
    let m' = update m s (m t) in
    let rest = strncpy (s + 1) (t + 1) n m' in if m t == 0 then pad (s + 1) n m' else rest

-- the loop of safestrcpy, with `n` bytes to go behind the present one, and the final 0
pub copy_safe : ℕ → ℕ → ℕ → Memory → Memory
copy_safe s t zero m = update m s 0
copy_safe s t (suc n) m =
    let m' = update m s (m t) in
    let rest = copy_safe (s + 1) (t + 1) n m' in if m t == 0 then update m' (s + 1) 0 else rest

-- `safestrcpy`
pub safestrcpy : ℕ → ℕ → ℕ → Memory → Memory
safestrcpy s t zero m = m
safestrcpy s t (suc n) m = copy_safe s t n m
