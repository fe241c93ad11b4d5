-- ===== src/Kernel/Strings/Move.antt =====
-- memmove copies also where the two ranges overlap.
use meph_i_semester_4_acos.Base.{
  ℕ, zero, suc, ◌+◌, ◌-◌, ◌<◌, ◌≤◌, ◌≡◌, ◌⊎◌, ◌∙◌, inl, inr, refl, ap, ◌&&◌, ltb, update, update_ne,
  update_self, arith, Bool-cases, Nat-cases,
}
use meph_i_semester_4_acos.Kernel.Strings.{Memory, move_up, move_down, memmove}

-- The bytes of `[d, d + n)` are those that were in `[s, s + n)`, and the others are unchanged.
pub record Copied (d s n : ℕ) (m m' : Memory) : Type 0 where
  pub copied : (k : ℕ) → k < n → m' (d + k) ≡ m (s + k)
  pub kept : (x : ℕ) → (x < d) ⊎ (d + n ≤ x) → m' x ≡ m x

move_up-Copied : (d s n : ℕ) (m : Memory) → (d ≤ s) ⊎ (s + n ≤ d) → Copied d s n m (move_up d s n m)
unfolding move_up
move_up-Copied d s zero m h = record { copied = λ k b. absurd (omega arith); kept = λ x o. refl }
move_up-Copied d s (suc n) m h =
    let m1 = update m d (m s) in
    let c = move_up-Copied (d + 1) (s + 1) n m1 (ground arith) in
    record {
      copied = λ k b. elim (Nat-cases k 0) [
        | inl e ↦
            let at_start : d + k ≡ d = omega arith in
            let from_start : s ≡ s + k = omega arith in
            ap (move_up d s (suc n) m) at_start
            ∙ c.kept d (inl (omega arith))
            ∙ update_self m d (m s)
            ∙ ap m from_start
        | inr e ↦
            let later : d + k ≡ d + 1 + (k - 1) = omega arith in
            let from_later : s + 1 + (k - 1) ≡ s + k = omega arith in
            ap (move_up d s (suc n) m) later
            ∙ c.copied (k - 1) (omega arith)
            ∙ update_ne m d (m s) (s + 1 + (k - 1)) (ground arith)
            ∙ ap m from_later
      ];
      kept = λ x o. c.kept x (ground arith) ∙ update_ne m d (m s) x (ground arith);
    }

move_down-Copied : (d s n : ℕ) (m : Memory) → s < d → Copied d s n m (move_down (d + n) (s + n) n m)
unfolding move_down
move_down-Copied d s zero m h = record { copied = λ k b. absurd (omega arith); kept = λ x o. refl }
move_down-Copied d s (suc n) m h =
    let m1 = update m (d + n) (m (s + n)) in
    let c = move_down-Copied d s n m1 h in
    let to_last : d + suc n - 1 ≡ d + n = omega arith in
    let from_last : s + suc n - 1 ≡ s + n = omega arith in
    record {
      copied = λ k b.
          rw (to_last, from_last)
            (elim (Nat-cases k n) [
              | inl e ↦
                  rw e (c.kept (d + n) (inr (omega arith)) ∙ update_self m (d + n) (m (s + n)))
              | inr e ↦
                  c.copied k (omega arith) ∙ update_ne m (d + n) (m (s + n)) (s + k) (ground arith)
            ]);
      kept = λ x o.
          rw (to_last, from_last)
            (c.kept x (ground arith) ∙ update_ne m (d + n) (m (s + n)) x (ground arith));
    }

-- memmove copies the bytes of the source as they were before, wherever the two ranges lie, and
-- changes no byte outside of the destination.
pub memmove-Copied : (dst src n : ℕ) (m : Memory) → Copied dst src n m (memmove dst src n m)
unfolding memmove
memmove-Copied dst src n m = elim (Bool-cases (ltb src dst && ltb dst (src + n))) [
  | inl y ↦ rw y (move_down-Copied dst src n m (ground arith))
  | inr z ↦ rw z (move_up-Copied dst src n m (ground arith))
]
