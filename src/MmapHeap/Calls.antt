-- ===== src/MmapHeap/Calls.antt =====
-- Each call of the allocator keeps what is mapped exact.
use meph_i_semester_4_acos.Base.{
  ℕ, ◌+◌, ◌-◌, ◌^◌, ◌≤◌, ◌<◌, ◌≡◌, ◌≢◌, ◌⊎◌, ◌∙◌, inl, inr, refl, ap, ap₂, sym, subst, Bool, true,
  false, Option, none, some, List, [], ◌∷◌, map, ◌==◌, arith, Bool-cases,
}
use meph_i_semester_4_acos.MmapHeap.{
  word, add, Os, State, header, malloc, unmapped, free, returns_null, realloc,
}
use meph_i_semester_4_acos.MmapHeap.Blocks.{
  Has, without, Unused, Documented, region, Headed, IsExact, Headed-cons,
}

Has-region :
    (p n : ℕ) (live : List (ℕ × ℕ)) → Has p n live → Has (p - word) (n + word) (map region live)
Has-region p n ((q, m) ∷ live) (inl (e, f)) = inl (ap (λ x. x - word) e, ap (λ x. x + word) f)
Has-region p n ((q, m) ∷ live) (inr h) = inr (Has-region p n live h)
Has-region p n [] h = absurd h

module _ (os : Os) (doc : Documented os) where
  Has-Headed :
      (memory : ℕ → ℕ) (p n : ℕ) (live : List (ℕ × ℕ))
      → Headed os doc memory live
      → Has p n live
      → (word ≤ p) × (memory (p - word) ≡ n + word)
  Has-Headed memory p n [] h k = absurd k
  Has-Headed memory p n ((q, m) ∷ live) h (inl (e, f)) = rw (e, f) (h.0)
  Has-Headed memory p n ((q, m) ∷ live) h (inr k) = Has-Headed memory p n live (h.1) k

  Headed-without :
      (memory : ℕ → ℕ) (p : ℕ) (live : List (ℕ × ℕ))
      → Headed os doc memory live
      → Headed os doc memory (without p live)
  Headed-without memory p [] h = tt
  Headed-without memory p ((q, m) ∷ live) h = elim (Bool-cases (p == q)) [
    | inl y ↦ rw y (h.1)
    | inr n ↦ rw n (h.0, Headed-without memory p live (h.1))
  ]

  without-region :
      (memory : ℕ → ℕ) (p : ℕ) (live : List (ℕ × ℕ))
      → word ≤ p
      → Headed os doc memory live
      → without (p - word) (map region live) ≡ map region (without p live)
  without-region memory p [] l h = refl
  without-region memory p ((q, m) ∷ live) l h = elim (Bool-cases (p == q)) [
    | inl y ↦ let e : p - word == q - word ≡ true = ground (arith, y) in rw (y, e) refl
    | inr n ↦
        let e : p - word == q - word ≡ false = ground (arith, n, l, (h.0).0) in
        rw (n, e) (ap (λ r. region (q, m) ∷ r) (without-region memory p live l (h.1)))
  ]

  -- what malloc returns: NULL, or a block that is live from then on
  abbrev pub Allocated : ℕ → List (ℕ × ℕ) → ℕ × State os → Type 0
  Allocated size live (p, t) =
      ((p ≡ 0) × IsExact os doc t live) ⊎ ((p ≢ 0) × IsExact os doc t ((p, size) ∷ live))

  header_at :
      (size a : ℕ) (memory : ℕ → ℕ) (t : os.Kernel) (live : List (ℕ × ℕ))
      → a + (size + word) < 2 ^ 64
      → doc.mapped t ≡ (a, size + word) ∷ map region live
      → Unused a (map region live)
      → Headed os doc memory live
      → (let (p, u) = header os size memory (some a, t) in
          (p ≢ 0) × IsExact os doc u ((p, size) ∷ live))
  header_at size a memory t live l m u h =
      let e : add a word ≡ a + word = ground (arith, l) in
      let f : add size word ≡ size + word = ground (arith, l) in
      rw (e, f) ((λ z. omega (arith, z)), Headed-cons os doc memory a size live t l m u h)

  malloc_at :
      (size : ℕ) (s : State os) (live : List (ℕ × ℕ)) (r : Option ℕ × os.Kernel)
      → IsExact os doc s live
      → os.mmap (size + word) s.kernel ≡ r
      → Allocated size live (header os size s.memory r)
  malloc_at size s live (none, t) v e =
      inl (
        refl,
        record { all = doc.mmap_fails (size + word) s.kernel t e ∙ v.all; headed = v.headed },
      )
  malloc_at size s live (some a, t) v e =
      let (m, l, u) = doc.mmap_maps (size + word) a s.kernel t e in
      inr (
        header_at size a s.memory t live l (m ∙ ap (λ x. (a, size + word) ∷ x) v.all)
          (subst (Unused a) v.all u) v.headed)

  pub malloc-Allocated :
      (size : ℕ) (s : State os) (live : List (ℕ × ℕ))
      → IsExact os doc s live
      → size + word < 2 ^ 64
      → Allocated size live (malloc os size s)
  malloc-Allocated size s live v l =
      let f : add size word ≡ size + word = ground (arith, l) in
      malloc_at size s live (os.mmap (add size word) s.kernel) v
        (ap (λ n. os.mmap n s.kernel) (sym f))

  unmapped_at :
      (p n : ℕ) (s : State os) (live : List (ℕ × ℕ)) (r : Bool × os.Kernel)
      → IsExact os doc s live
      → Has p n live
      → os.munmap (p - word) (n + word) s.kernel ≡ r
      → (t : State os) × (unmapped os s.memory r ≡ some t) × IsExact os doc t (without p live)
  unmapped_at p n s live (false, t) v h e = absurd (
      ground (
        arith,
        (doc.munmap_unmaps (p - word) (n + word) s.kernel t false
            (subst (Has (p - word) (n + word)) (sym v.all) (Has-region p n live h)) e).0,
      ))
  unmapped_at p n s live (true, t) v h e =
      let (ok, m) =
        doc.munmap_unmaps (p - word) (n + word) s.kernel t true
          (subst (Has (p - word) (n + word)) (sym v.all) (Has-region p n live h)) e in
      (
        record { memory = s.memory; kernel = t },
        refl,
        record {
          all =
              m
              ∙ ap (without (p - word)) v.all
              ∙ without-region s.memory p live (Has-Headed s.memory p n live v.headed h).0 v.headed;
          headed = Headed-without s.memory p live v.headed;
        },
      )

  pub free-without :
      (p n : ℕ) (s : State os) (live : List (ℕ × ℕ))
      → IsExact os doc s live
      → Has p n live
      → (t : State os) × (free os p s ≡ some t) × IsExact os doc t (without p live)
  free-without p n s live v h =
      let (l, e) = Has-Headed s.memory p n live v.headed h in
      let z : p == 0 ≡ false = ground (arith, l) in
      let (t, q, x) = unmapped_at p n s live (os.munmap (p - word) (n + word) s.kernel) v h refl in
      (t, rw z (ap (λ k. unmapped os s.memory (os.munmap (p - word) k s.kernel)) e ∙ q), x)

  -- what realloc returns for a new size that is not 0: NULL, with the block as it was, or a block in its
  -- place
  abbrev pub Resized : ℕ → ℕ → List (ℕ × ℕ) → ℕ × State os → Type 0
  Resized p size live (q, t) =
      ((q ≡ 0) × IsExact os doc t live) ⊎ ((q ≢ 0) × IsExact os doc t ((q, size) ∷ without p live))

  remapped_at :
      (p n size : ℕ) (s : State os) (live : List (ℕ × ℕ)) (r : Option ℕ × os.Kernel)
      → IsExact os doc s live
      → Has p n live
      → os.mremap (p - word) (n + word) (size + word) s.kernel ≡ r
      → Resized p size live (header os size s.memory r)
  remapped_at p n size s live (none, t) v h e = inl (
    refl,
    record {
      all = doc.mremap_fails (p - word) (n + word) (size + word) s.kernel t e ∙ v.all;
      headed = v.headed;
    },
  )
  remapped_at p n size s live (some b, t) v h e =
      let (m, l, u) =
        doc.mremap_moves (p - word) (n + word) (size + word) b s.kernel t
          (subst (Has (p - word) (n + word)) (sym v.all) (Has-region p n live h)) e in
      let left =
        ap (without (p - word)) v.all
        ∙ without-region s.memory p live (Has-Headed s.memory p n live v.headed h).0 v.headed in
      inr (
        header_at size b s.memory t (without p live) l (m ∙ ap (λ x. (b, size + word) ∷ x) left)
          (subst (Unused b) left u) (Headed-without s.memory p live v.headed))

  -- For a system whose calls do what their documentation says, in a state where exactly the live blocks
  -- are mapped, each with its length in front, and a size that does not wrap in size_t:
  -- malloc returns NULL and changes nothing of that, or a new live block; free of a live block does not
  -- end the program, and unmaps that block alone; realloc of a live block to the size 0 frees it, and to
  -- another size returns NULL and keeps it, or puts a block of the new size in its place.
  pub malloc-free-realloc :
      (s : State os) (live : List (ℕ × ℕ)) (size p n : ℕ)
      → IsExact os doc s live
      → size + word < 2 ^ 64
      → Has p n live
      → Allocated size live (malloc os size s)
        × ((t : State os) × (free os p s ≡ some t) × IsExact os doc t (without p live))
        × (size ≡ 0
            → (t : State os) × (realloc os p size s ≡ some (0, t))
              × IsExact os doc t (without p live))
        × (size ≢ 0 → (r : ℕ × State os) × (realloc os p size s ≡ some r) × Resized p size live r)
  malloc-free-realloc s live size p n v l h =
      let (k, e) = Has-Headed s.memory p n live v.headed h in
      let z : p == 0 ≡ false = ground (arith, k) in
      let f : add size word ≡ size + word = ground (arith, l) in
      let (t, q, x) = free-without p n s live v h in
      (
        malloc-Allocated size s live v l,
        (t, q, x),
        (λ m.
            (let y : size == 0 ≡ true = ground (arith, m) in
              (t, rw (z, y) (rw z at (ap (returns_null os) q)), x))),
        (λ m.
            (let y : size == 0 ≡ false = ground (arith, m) in
              let r = os.mremap (p - word) (n + word) (size + word) s.kernel in
              (
                header os size s.memory r,
                rw (z, y)
                    (ap (λ w. some (header os size s.memory w))
                      (ap₂ (λ a b. os.mremap (p - word) a b s.kernel) e f)),
                remapped_at p n size s live r v h refl,
              ))),
      )
