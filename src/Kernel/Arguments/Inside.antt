-- ===== src/Kernel/Arguments/Inside.antt =====
-- What the kernel gets from a process lies inside its memory.
use meph_i_semester_4_acos.Base.{
  ℕ, zero, suc, ◌+◌, ◌-◌, ◌^◌, ◌≤◌, ◌<◌, ◌≡◌, ◌≢◌, ◌∙◌, inl, inr, refl, ap, sym, subst, false, ◌||◌,
  Option, none, some, ◌==◌, ltb, leb, arith, Bool-cases, Nat-cases, from_some-eq, guard-some,
}
use meph_i_semester_4_acos.Kernel.Arguments.{
  Proc, u32, fetchint, scan_nul, with_pointer, fetchstr, argint, checked, argptr,
}

-- the first 0 from an address on, below another
pub record IsText (bytes : ℕ → ℕ) (s n limit : ℕ) : Type 0 where
  pub inside : s + n < limit
  pub ends : bytes (s + n) ≡ 0
  pub before : (i : ℕ) → i < n → bytes (s + i) ≢ 0

scan_nul-some :
    (n s addr r : ℕ) (bytes : ℕ → ℕ)
    → addr ≤ s
    → ((i : ℕ) → addr + i < s → bytes (addr + i) ≢ 0)
    → scan_nul n s addr bytes ≡ some r
    → IsText bytes addr r (s + n)
unfolding scan_nul
scan_nul-some zero s addr r bytes l b h = absurd (ground (arith, h))
scan_nul-some (suc n) s addr r bytes l b h = elim (Bool-cases (bytes s == 0)) [
  | inl y ↦
      let e : s - addr ≡ r = from_some-eq (rw y at h) in
      let q : addr + r ≡ s = omega (arith, e, l) in
      record {
        inside = omega (arith, q);
        ends = ap bytes q ∙ ground (arith, y);
        before = λ i k. b i (omega (arith, k, q));
      }
  | inr m ↦
      let t =
        scan_nul-some n (s + 1) addr r bytes (omega (arith, l))
          (λ i k. elim (Nat-cases (addr + i) s) [
            | inl e ↦ (λ z. ground (arith, m, ap bytes e, z))
            | inr d ↦ b i (omega (arith, k, d))
          ])
          (rw m at h) in
      record { inside = omega (arith, t.inside); ends = t.ends; before = t.before }
]

-- nothing is found only where there is no 0
scan_nul-none :
    (n s addr : ℕ) (bytes : ℕ → ℕ)
    → scan_nul n s addr bytes ≡ none
    → (i : ℕ) → s ≤ i
    → i < s + n
    → bytes i ≢ 0
unfolding scan_nul
scan_nul-none zero s addr bytes h i l k = absurd (omega (arith, l, k))
scan_nul-none (suc n) s addr bytes h i l k = elim (Bool-cases (bytes s == 0)) [
  | inl y ↦ absurd (ground (arith, rw y at h))
  | inr m ↦ elim (Nat-cases i s) [
    | inl e ↦ (λ z. ground (arith, m, ap bytes e, z))
    | inr d ↦
        scan_nul-none n (s + 1) addr bytes (rw m at h) i (omega (arith, l, d)) (omega (arith, k))
  ]
]

fetchstr_at :
    (addr limit : ℕ) (o : Option ℕ) (bytes : ℕ → ℕ)
    → addr ≤ limit
    → scan_nul (limit - addr) addr addr bytes ≡ o
    → ((r : ℕ × ℕ) → with_pointer addr o ≡ some r → (r.0 ≡ addr) × IsText bytes addr (r.1) limit)
      × (with_pointer addr o ≡ none → (i : ℕ) → addr ≤ i → i < limit → bytes i ≢ 0)
fetchstr_at addr limit none bytes l e = (
  (λ r h. absurd (ground (arith, h))),
  (λ h i k m. scan_nul-none (limit - addr) addr addr bytes e i k (omega (arith, m, l))),
)
fetchstr_at addr limit (some n) bytes l e = (
  (λ r h.
      let q = from_some-eq h in
      let t =
        scan_nul-some (limit - addr) addr addr n bytes (omega arith)
          (λ i k. absurd (omega (arith, k))) e in
      (
        sym (ap (λ x. x.0) q),
        subst (λ m. IsText bytes addr m limit) (ap (λ x. x.1) q)
            (record { inside = omega (arith, t.inside, l); ends = t.ends; before = t.before }),
      )),
  (λ h. absurd (ground (arith, h))),
)

checked-inside :
    (p : Proc) (size i : ℕ) (o : Option ℕ)
    → p.sz ≤ 2 ^ 31
    → checked size p o ≡ some i
    → i + size ≤ p.sz
checked-inside p size i none l h = absurd (ground (arith, h))
checked-inside p size i (some j) l h =
    let (k, e) = guard-some (leb (2 ^ 31) size || (leb p.sz j || ltb p.sz (u32 j size))) h in
    let q = from_some-eq e in ground (arith, l, k, q)

-- For a process of at most 2 ^ 31 bytes: an int is fetched only if its four bytes are in the process,
-- and argptr gives a pointer only if the whole block is; fetchstr gives a text that ends in the process,
-- with its length up to its first 0, and fails, for an address in the process, only where there is no 0
-- up to the end of the process.
pub fetch-IsText :
    (p : Proc) (addr n size : ℕ)
    → p.sz ≤ 2 ^ 31
    → ((x : ℕ) → fetchint addr p ≡ some x → addr + 4 ≤ p.sz)
      × ((i : ℕ) → argptr n size p ≡ some i → i + size ≤ p.sz)
      × ((r : ℕ × ℕ) → fetchstr addr p ≡ some r → (r.0 ≡ addr) × IsText p.bytes addr (r.1) p.sz)
      × (addr < p.sz → fetchstr addr p ≡ none → (i : ℕ) → addr ≤ i → i < p.sz → p.bytes i ≢ 0)
fetch-IsText p addr n size l = (
  (λ x h. ground (arith, l, (guard-some (leb p.sz addr || ltb p.sz (u32 addr 4)) h).0)),
  (λ i h. checked-inside p size i (argint n p) l h),
  (λ r h.
      let (k, e) = guard-some (leb p.sz addr) h in
      (fetchstr_at addr p.sz (scan_nul (p.sz - addr) addr addr p.bytes) p.bytes (ground (arith, k))
          refl).0
        r e),
  (λ k h i m o.
      let b : leb p.sz addr ≡ false = ground (arith, k) in
      (fetchstr_at addr p.sz (scan_nul (p.sz - addr) addr addr p.bytes) p.bytes (omega (arith, k))
          refl).1
        (rw b at h) i m o),
)
