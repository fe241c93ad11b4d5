-- ===== src/Backtrace/Frames.antt =====
-- What Backtrace stores for a chain of frames.
use meph_i_semester_4_acos.Base.{
  ℕ, zero, suc, ◌+◌, ◌-◌, ◌≤◌, ◌<◌, ◌%◌, ◌^◌, ◌≡◌, ◌≢◌, ◌∙◌, refl, ap, ap₂, sym, false, inl, inr,
  List, [], ◌∷◌, take, max, ◌==◌, leb, arith, Bool-cases,
}
use meph_i_semester_4_acos.Backtrace.{frames_from, backtrace}

-- Frames from `rbp` on, each with the address of the next one, which is no multiple of 2 ^ 32, and then
-- its return address, and a last one, whose word is 0.
abbrev pub Chain : (ℕ → ℕ) → ℕ → List ℕ → Type 0
Chain stack rbp [] = stack rbp ≡ 0
Chain stack rbp (ret ∷ rets) =
    (stack rbp % 2 ^ 32 ≢ 0) × (stack (rbp + 8) ≡ ret) × Chain stack (stack rbp) rets

take-nil : (n : ℕ) → take {A = ℕ} n [] ≡ []
take-nil zero = refl
take-nil (suc n) = refl

one_left : (lim cnt : ℕ) → lim ≤ cnt + 1 → max 1 (lim - cnt) ≡ 1
one_left lim cnt h = omega (arith, h)

more_left : (lim cnt : ℕ) → cnt + 1 < lim → max 1 (lim - cnt) ≡ suc (max 1 (lim - (cnt + 1)))
more_left lim cnt h = omega (arith, h)

frames_from-Chain :
    (n : ℕ) (stack : ℕ → ℕ) (rbp cnt lim : ℕ) (rets : List ℕ)
    → max 1 (lim - cnt) ≤ n
    → Chain stack rbp rets
    → frames_from n stack rbp cnt lim ≡ take (max 1 (lim - cnt)) rets
unfolding frames_from
frames_from-Chain zero stack rbp cnt lim rets l h = absurd (omega (arith, l))
frames_from-Chain (suc n) stack rbp cnt lim [] l h = rw h (sym (take-nil (max 1 (lim - cnt))))
frames_from-Chain (suc n) stack rbp cnt lim (ret ∷ rets) l (z, e, h) =
    let t : stack rbp % 2 ^ 32 == 0 ≡ false = ground (arith, z) in
    elim (Bool-cases (leb lim (cnt + 1))) [
      | inl y ↦
          rw (t, y)
            (ap (λ x. x ∷ []) e
              ∙ ap (λ k. take k (ret ∷ rets)) (sym (one_left lim cnt (ground (arith, y)))))
      | inr m ↦
          rw (t, m)
            (ap₂ (λ x xs. x ∷ xs) e
                (frames_from-Chain n stack (stack rbp) (cnt + 1) lim rets (ground (arith, l, m)) h)
              ∙ ap (λ k. take k (ret ∷ rets)) (sym (more_left lim cnt (ground (arith, m)))))
    ]

-- For a stack with a chain of frames: Backtrace stores the return addresses of the innermost frames, in
-- order, as many as there are or as the array takes, and one where the limit is 0 and there is a frame.
pub backtrace-Chain :
    (stack : ℕ → ℕ) (rbp limit : ℕ) (rets : List ℕ)
    → Chain stack rbp rets
    → backtrace stack rbp limit ≡ take (max 1 limit) rets
backtrace-Chain stack rbp limit rets h =
    frames_from-Chain (limit + 1) stack rbp 0 limit rets (omega arith) h
    ∙ ap (λ k. take (max 1 k) rets) (omega arith)
