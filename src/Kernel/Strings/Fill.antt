-- ===== src/Kernel/Strings/Fill.antt =====
-- memset by words and by bytes, and the bounds of safestrcpy.
use meph_i_semester_4_acos.Base.{
  ℕ, zero, suc, ◌+◌, ◌*◌, ◌/◌, ◌%◌, ◌^◌, ◌<◌, ◌≤◌, ◌≡◌, ◌⊎◌, ◌∙◌, inl, inr, refl, sym, ap, ◌&&◌,
  ◌==◌, update, update_ne, update_self, arith, Bool-cases,
}
use meph_i_semester_4_acos.Kernel.Strings.{
  Memory, stosb, stosl, word_of, memset, copy_safe, safestrcpy,
}

four_bytes :
    (dst c k : ℕ) (m : Memory)
    → let b = c % 256 in
      stosb dst c (suc (suc (suc (suc k)))) m
      ≡ stosb
          (dst + 4)
          c
          k
          (update (update (update (update m dst b) (dst + 1) b) (dst + 2) b) (dst + 3) b)
unfolding stosb
four_bytes dst c k m =
    let b = c % 256 in
    let stored : ℕ → ℕ → Memory =
      λ p q. update (update (update (update m dst b) (dst + 1) b) p b) q b in
    let two : dst + 1 + 1 ≡ dst + 2 = omega arith in
    let three : dst + 1 + 1 + 1 ≡ dst + 3 = omega arith in
    let four : dst + 1 + 1 + 1 + 1 ≡ dst + 4 = omega arith in
    ap (λ p. stosb p c k (stored (dst + 1 + 1) (dst + 1 + 1 + 1))) four
    ∙ ap (λ p. stosb (dst + 4) c k (stored p (dst + 1 + 1 + 1))) two
    ∙ ap (λ p. stosb (dst + 4) c k (stored (dst + 2) p)) three

-- a word made of a byte is stored as that byte, four times
stosl-stosb : (dst c n : ℕ) (m : Memory) → stosl dst (word_of (c % 256)) n m ≡ stosb dst c (n * 4) m
unfolding stosl stosb
stosl-stosb dst c zero m = refl
stosl-stosb dst c (suc n) m =
    let b = c % 256 in
    let four : suc n * 4 ≡ suc (suc (suc (suc (n * 4)))) = omega arith in
    let b0 : word_of b % 256 ≡ b = omega arith in
    let b1 : word_of b / 2 ^ 8 % 256 ≡ b = omega arith in
    let b2 : word_of b / 2 ^ 16 % 256 ≡ b = omega arith in
    let b3 : word_of b / 2 ^ 24 % 256 ≡ b = omega arith in
    rw (four, b0, b1, b2, b3) (stosl-stosb (dst + 4) c n _ ∙ sym (four_bytes dst c (n * 4) m))

-- memset stores the same bytes where it stores words as where it stores bytes.
pub memset-stosb : (dst c n : ℕ) (m : Memory) → memset dst c n m ≡ stosb dst c n m
unfolding memset
memset-stosb dst c n m = elim (Bool-cases (dst % 4 == 0 && n % 4 == 0)) [
  | inr z ↦ rw z refl
  | inl y ↦
      let whole : n / 4 * 4 ≡ n = ground arith in
      rw y (stosl-stosb dst c (n / 4) m ∙ ap (λ k. stosb dst c k m) whole)
]

-- `m'` differs from `m` in the `n` bytes from `s` on at most, and one of them is 0.
pub record Ends (s n : ℕ) (m m' : Memory) : Type 0 where
  pub at : ℕ
  pub near : at < n
  pub ends : m' (s + at) ≡ 0
  pub kept : (x : ℕ) → (x < s) ⊎ (s + n ≤ x) → m' x ≡ m x

copy_safe-Ends : (s t n : ℕ) (m : Memory) → Ends s (suc n) m (copy_safe s t n m)
unfolding copy_safe
copy_safe-Ends s t zero m = record {
  at = 0;
  near = omega arith;
  ends = let e : s + 0 ≡ s = omega arith in rw e (update_self m s 0);
  kept = λ x o. update_ne m s 0 x (ground arith);
}
copy_safe-Ends s t (suc n) m =
    let m1 = update m s (m t) in
    let r = copy_safe-Ends (s + 1) (t + 1) n m1 in
    elim (Bool-cases (m t == 0)) [
      | inr z ↦ rw z (record {
        at = suc r.at;
        near = omega (arith, r.near);
        ends = let e : s + suc r.at ≡ s + 1 + r.at = omega arith in rw e r.ends;
        kept = λ x o. r.kept x (ground arith) ∙ update_ne m s (m t) x (ground arith);
      })
      | inl y ↦ rw y (record {
        at = 1;
        near = omega arith;
        ends = update_self m1 (s + 1) 0;
        kept =
            λ x o. update_ne m1 (s + 1) 0 x (ground arith) ∙ update_ne m s (m t) x (ground arith);
      })
    ]

-- For a buffer of at least one byte, safestrcpy leaves a 0 in the buffer and changes no byte
-- outside of it, however long the source is and wherever it lies.
pub safestrcpy-Ends : (s t n : ℕ) (m : Memory) → 0 < n → Ends s n m (safestrcpy s t n m)
unfolding safestrcpy
safestrcpy-Ends s t zero m h = absurd (omega arith)
safestrcpy-Ends s t (suc n) m h = copy_safe-Ends s t n m
