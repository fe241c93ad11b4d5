-- ===== src/Atomic/Threads.antt =====
-- Threads as a list of the places where they stand: sums over them, and what holds of each.
use meph_i_semester_4_acos.Base.{
  ℕ, zero, suc, ◌+◌, ◌<◌, ◌≤◌, ◌≡◌, List, [], ◌∷◌, length, get_or, set, arith, All, replicate,
  dec_le, ap, refl,
}

module _ {A : Type 0} where
  -- how many threads stand at a place, as a sum
  abbrev pub total : (A → ℕ) → List A → ℕ
  total f [] = 0
  total f (a ∷ as') = f a + total f as'

  pub total-set :
      (f : A → ℕ) (as' : List A) (i : ℕ) (b d : A)
      → i < length as'
      → total f (set as' i b) + f (get_or as' i d) ≡ total f as' + f b
  total-set f [] i b d h = absurd (omega arith)
  total-set f (a ∷ as') zero b d h = omega arith
  total-set f (a ∷ as') (suc i) b d h = omega (arith, total-set f as' i b d (omega arith))

  pub All-set :
      (P : A → Type 0) (as' : List A) (i : ℕ) (b : A) → All P as' → P b → All P (set as' i b)
  All-set P [] i b h k = tt
  All-set P (a ∷ as') zero b h k = (k, h.1)
  All-set P (a ∷ as') (suc i) b h k = (h.0, All-set P as' i b h.1 k)

  pub All-get_or :
      (P : A → Type 0) (as' : List A) (i : ℕ) (d : A) → All P as' → P d → P (get_or as' i d)
  All-get_or P [] i d h k = k
  All-get_or P (a ∷ as') zero d h k = h.0
  All-get_or P (a ∷ as') (suc i) d h k = All-get_or P as' i d h.1 k

  pub All-mono : (P Q : A → Type 0) (as' : List A) → ((a : A) → P a → Q a) → All P as' → All Q as'
  All-mono P Q [] f h = tt
  All-mono P Q (a ∷ as') f h = (f a h.0, All-mono P Q as' f h.1)

  pub All-replicate : (P : A → Type 0) (n : ℕ) (a : A) → P a → All P (replicate n a)
  All-replicate P zero a h = tt
  All-replicate P (suc n) a h = (h, All-replicate P n a h)

  -- a thread at a place is counted there
  pub total-get_or :
      (f : A → ℕ) (as' : List A) (i : ℕ) (d : A) → i < length as' → f (get_or as' i d) ≤ total f as'
  total-get_or f [] i d h = absurd (omega arith)
  total-get_or f (a ∷ as') zero d h = omega arith
  total-get_or f (a ∷ as') (suc i) d h = omega (arith, total-get_or f as' i d (omega arith))

  pub total-replicate : (f : A → ℕ) (n : ℕ) (a : A) → f a ≡ 0 → total f (replicate n a) ≡ 0
  total-replicate f zero a h = omega arith
  total-replicate f (suc n) a h = omega (arith, total-replicate f n a h)

  pub total_mono : (f g : A → ℕ) (as' : List A) → ((a : A) → f a ≤ g a) → total f as' ≤ total g as'
  total_mono f g [] h = omega arith
  total_mono f g (a ∷ as') h = omega (arith, h a, total_mono f g as' h)

  -- where something is counted a thread stands
  pub total-find :
      (f : A → ℕ) (as' : List A) (d : A)
      → 1 ≤ total f as'
      → (i : ℕ) × (i < length as') × (1 ≤ f (get_or as' i d))
  total-find f [] d h = absurd (omega arith)
  total-find f (a ∷ as') d h = elim (dec_le 1 (f a)) [
    | yes k ↦ (0, omega arith, k)
    | no n ↦
        (let (i, l, k) = total-find f as' d (omega (arith, h, n)) in (suc i, omega (arith, l), k))
  ]

  pub set-get_or : (as' : List A) (i : ℕ) (d : A) → set as' i (get_or as' i d) ≡ as'
  set-get_or [] i d = refl
  set-get_or (a ∷ as') zero d = refl
  set-get_or (a ∷ as') (suc i) d = ap (λ bs. a ∷ bs) (set-get_or as' i d)
