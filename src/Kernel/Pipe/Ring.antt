-- ===== src/Kernel/Pipe/Ring.antt =====
-- The bytes of a pipe as a queue.
use meph_i_semester_4_acos.Base.{
  ℕ, zero, suc, ◌+◌, ◌-◌, ◌%◌, ◌^◌, ◌<◌, ◌≤◌, ◌≡◌, ◌∙◌, refl, ap, ap₂, true, false, List, [], ◌∷◌,
  ◌++◌, get_or, set, length, length-set, get_or-set_self, get_or-set_ne, arith,
}
use meph_i_semester_4_acos.Kernel.Pipe.{Pipe, pipe_size, u32, is_full, is_empty, put, front, skip}

-- how many bytes the pipe holds
abbrev pub used : Pipe → ℕ
used p = u32 (p.nwrite + 2 ^ 32 - p.nread)

-- the ring is there, the counters are 32-bit words, and at most 512 bytes are held
pub record IsValid (p : Pipe) : Type 0 where
  pub ring : length p.buf ≡ pipe_size
  pub read_word : p.nread < 2 ^ 32
  pub write_word : p.nwrite < 2 ^ 32
  pub bound : used p ≤ pipe_size

-- `n` bytes of the ring, from counter `r` on
abbrev pub window : List ℕ → ℕ → ℕ → List ℕ
window buf r zero = []
window buf r (suc n) = get_or buf (r % pipe_size) 0 ∷ window buf (r + 1) n

abbrev pub contents : Pipe → List ℕ
contents p = window p.buf p.nread (used p)

-- A window depends on its counter modulo the size alone, so the wrap at 2 ^ 32 does no harm.
window-mod :
    (buf : List ℕ) (n r q : ℕ) → r % pipe_size ≡ q % pipe_size → window buf r n ≡ window buf q n
window-mod buf zero r q e = refl
window-mod buf (suc n) r q e =
    ap₂ ◌∷◌ (ap (λ i. get_or buf i 0) e) (window-mod buf n (r + 1) (q + 1) (omega arith))

window-set :
    (buf : List ℕ) (x n r i : ℕ)
    → length buf ≡ pipe_size
    → n < pipe_size
    → i ≡ (r + n) % pipe_size
    → window (set buf i x) r (suc n) ≡ window buf r n ++ (x ∷ [])
window-set buf x zero r i l h e =
    let here : r % pipe_size ≡ i = omega arith in
    rw here (ap (λ b. b ∷ []) (get_or-set_self buf i x 0 (omega arith)))
window-set buf x (suc n) r i l h e =
    ap₂ ◌∷◌ (get_or-set_ne buf i (r % pipe_size) x 0 (λ q. omega arith))
      (window-set buf x n (r + 1) i l (omega arith) (omega arith))

-- Where the pipe is not full, a byte is added behind those that it holds.
pub put-contents :
    (x : ℕ) (p : Pipe)
    → IsValid p
    → is_full p ≡ false
    → (contents (put x p) ≡ contents p ++ (x ∷ []))
      × IsValid (put x p)
      × (used (put x p) ≡ used p + 1)
unfolding put
put-contents x p v h =
    let less : used p < pipe_size = ground (arith, v) in
    let more : used (put x p) ≡ suc (used p) = ground (arith, v) in
    (
      rw more (
          window-set p.buf x (used p) p.nread (p.nwrite % pipe_size) v.ring less
            (ground (arith, v))),
      record {
        ring = length-set p.buf (p.nwrite % pipe_size) x ∙ v.ring;
        read_word = v.read_word;
        write_word = omega arith;
        bound = omega arith;
      },
      omega arith,
    )

-- Where the pipe is not empty, the byte read is the first that it holds.
pub skip-contents :
    (p : Pipe)
    → IsValid p
    → is_empty p ≡ false
    → (contents p ≡ front p ∷ contents (skip p)) × IsValid (skip p) × (used p ≡ suc (used (skip p)))
unfolding skip
skip-contents p v h =
    let less : used p ≡ suc (used (skip p)) = ground (arith, v) in
    (
      rw less (
          ap (λ xs. front p ∷ xs)
            (window-mod p.buf (used (skip p)) (p.nread + 1) (u32 (p.nread + 1)) (omega arith))),
      record {
        ring = v.ring;
        read_word = omega arith;
        write_word = v.write_word;
        bound = omega (arith, v.bound);
      },
      less,
    )

pub is_empty-contents : (p : Pipe) → IsValid p → is_empty p ≡ true → contents p ≡ []
is_empty-contents p v h = let e : used p ≡ 0 = ground (arith, v) in rw e
