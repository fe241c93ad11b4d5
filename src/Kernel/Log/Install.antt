-- ===== src/Kernel/Log/Install.antt =====
-- What the copying loops of the log do to the disk and the buffers.
use meph_i_semester_4_acos.Base.{
  ℕ, ◌+◌, ◌-◌, ◌<◌, ◌≤◌, ◌≡◌, ◌≢◌, ◌∙◌, refl, sym, Bool, true, false, ◌||◌, ◌&&◌, List, [], ◌∷◌,
  ◌==◌, leb, if◌then◌else◌, length, update, update_ne, update_self, All, arith, inl, inr,
  Bool-cases,
}
use meph_i_semester_4_acos.Kernel.Log.{Bytes, State, fill, bwrite, write_log_from, install_from}

abbrev pub has : ℕ → List ℕ → Bool
has x [] = false
has x (b ∷ bs) = (b == x) || has x bs

-- the header block of the log, and its first `n` blocks behind the header
abbrev pub in_log : ℕ → ℕ → ℕ → Bool
in_log start n x = leb start x && leb x (start + n)

abbrev pub Outside : ℕ → ℕ → List ℕ → Type 0
Outside start n bs = All (λ b. in_log start n b ≡ false) bs

-- The log blocks from `tail` on hold, in `f`, what `d` says of the blocks that they stand for.
abbrev pub Copies : (ℕ → Bytes) → ℕ → ℕ → List ℕ → (ℕ → Bytes) → Type 0
Copies f start tail [] d = Unit
Copies f start tail (b ∷ bs) d = (f (start + tail + 1) ≡ d b) × Copies f start (tail + 1) bs d

-- The fields that the loops leave alone.
abbrev pub Same : State → State → Type 0
Same s t =
    (t.start ≡ s.start)
    × (t.lh ≡ s.lh)
    × (t.header ≡ s.header)
    × (t.size ≡ s.size)
    × (t.outstanding ≡ s.outstanding)

-- one copy: the buffer of block `a` is filled and written
abbrev pub put : ℕ → Bytes → State → State
put a v s = bwrite a (fill a v s)

put_view :
    (a : ℕ) (v : Bytes) (s : State) (x : ℕ) → (put a v s).view x ≡ (if x == a then v else s.view x)
put_view a v s x = ground arith

pub put_disk :
    (a : ℕ) (v : Bytes) (s : State) (x : ℕ)
    → (put a v s).disk x ≡ (if s.power == 0 then s.disk x else if x == a then v else s.disk x)
put_disk a v s x = ground arith

Copies-target :
    (f : ℕ → Bytes) (start tail : ℕ) (bs : List ℕ) (d e : ℕ → Bytes)
    → All (λ b. e b ≡ d b) bs
    → Copies f start tail bs d
    → Copies f start tail bs e
Copies-target f start tail [] d e de c = tt
Copies-target f start tail (b ∷ bs) d e de c =
    (c.0 ∙ sym de.0, Copies-target f start (tail + 1) bs d e de.1 c.1)

pub Copies-source :
    (f g : ℕ → Bytes) (start tail : ℕ) (bs : List ℕ) (d : ℕ → Bytes)
    → ((k : ℕ) → tail ≤ k → k < tail + length bs → g (start + k + 1) ≡ f (start + k + 1))
    → Copies f start tail bs d
    → Copies g start tail bs d
Copies-source f g start tail [] d fg c = tt
Copies-source f g start tail (b ∷ bs) d fg c = (
  fg tail (omega arith) (omega arith) ∙ c.0,
  Copies-source f g start (tail + 1) bs d (λ k l h. fg k (omega arith) (omega arith)) c.1,
)

-- A write into the log changes no block outside of it.
update_outside :
    (f : ℕ → Bytes) (start n a : ℕ) (v : Bytes) (bs : List ℕ)
    → in_log start n a ≡ true
    → All (λ b. in_log start n b ≡ false) bs
    → All (λ b. f b ≡ update f a v b) bs
update_outside f start n a v [] h out = tt
update_outside f start n a v (b ∷ bs) h out =
    let ne : b ≢ a = λ e. ground (arith, out.0) in
    (sym (update_ne f a v b ne), update_outside f start n a v bs h out.1)

pub write_log-Same :
    (tail : ℕ) (bs : List ℕ) (s : State)
    → Same s (write_log_from tail bs s) × ((write_log_from tail bs s).power ≡ s.power - length bs)
unfolding write_log_from
write_log-Same tail [] s = ((refl, refl, refl, refl, refl), omega arith)
write_log-Same tail (b ∷ bs) s =
    let (ih, p) = write_log-Same (tail + 1) bs (put (s.start + tail + 1) (s.view b) s) in
    (ih, omega arith)

-- Other blocks keep their contents, in the buffers and on disk.
pub write_log_frame :
    (tail : ℕ) (bs : List ℕ) (s : State) (x : ℕ)
    → ((k : ℕ) → tail ≤ k → k < tail + length bs → x ≢ s.start + k + 1)
    → ((write_log_from tail bs s).view x ≡ s.view x)
      × ((write_log_from tail bs s).disk x ≡ s.disk x)
unfolding write_log_from
write_log_frame tail [] s x h = (refl, refl)
write_log_frame tail (b ∷ bs) s x h =
    let ne : x ≢ s.start + tail + 1 = h tail (omega arith) (omega arith) in
    let ih =
      write_log_frame (tail + 1) bs (put (s.start + tail + 1) (s.view b) s) x
        (λ k l u. h k (omega arith) (omega arith)) in
    let (v, d) = ih in (v ∙ update_ne s.view _ (s.view b) x ne, d ∙ ground arith)

-- Every block of the list is copied to the log, in the buffers, and on disk if the power lasts.
pub write_log-Copies :
    (n tail : ℕ) (bs : List ℕ) (s : State)
    → All (λ b. in_log s.start n b ≡ false) bs
    → tail + length bs ≤ n
    → Copies (write_log_from tail bs s).view s.start tail bs s.view
      × (length bs ≤ s.power → Copies (write_log_from tail bs s).disk s.start tail bs s.view)
unfolding write_log_from
write_log-Copies n tail [] s out fits = (tt, λ _. tt)
write_log-Copies n tail (b ∷ bs) s out fits =
    let a = s.start + tail + 1 in
    let s1 = put a (s.view b) s in
    let (v, d) = write_log-Copies n (tail + 1) bs s1 out.1 (omega arith) in
    let (fv, fd) = write_log_frame (tail + 1) bs s1 a (λ k l u. omega arith) in
    let t = write_log_from (tail + 1) bs s1 in
    let same = update_outside s.view s.start n a (s.view b) bs (ground arith) out.1 in
    (
      (
        fv ∙ update_self s.view a (s.view b),
        Copies-target t.view s.start (tail + 1) bs s1.view s.view same v,
      ),
      λ p. (
        fd ∙ ground arith,
        Copies-target t.disk s.start (tail + 1) bs s1.view s.view same (d (omega arith)),
      ),
    )

pub install-Same :
    (tail : ℕ) (bs : List ℕ) (s : State)
    → Same s (install_from tail bs s) × ((install_from tail bs s).power ≡ s.power - length bs)
unfolding install_from
install-Same tail [] s = ((refl, refl, refl, refl, refl), omega arith)
install-Same tail (b ∷ bs) s =
    let (ih, p) = install-Same (tail + 1) bs (put b (s.view (s.start + tail + 1)) s) in
    (ih, omega arith)

-- Blocks that are not in the list keep their contents.
pub install_frame :
    (tail : ℕ) (bs : List ℕ) (s : State) (x : ℕ)
    → has x bs ≡ false
    → ((install_from tail bs s).view x ≡ s.view x) × ((install_from tail bs s).disk x ≡ s.disk x)
unfolding install_from
install_frame tail [] s x h = (refl, refl)
install_frame tail (b ∷ bs) s x h =
    let v = s.view (s.start + tail + 1) in
    let ne : x ≢ b = λ e. ground arith in
    let (w, d) = install_frame (tail + 1) bs (put b v s) x (ground arith) in
    (w ∙ update_ne s.view b v x ne, d ∙ ground arith)

-- If the power lasts, every block of the list gets what the log holds for it.
pub install_done :
    (n tail : ℕ) (bs : List ℕ) (s : State) (d : ℕ → Bytes)
    → All (λ b. in_log s.start n b ≡ false) bs
    → tail + length bs ≤ n
    → Copies s.view s.start tail bs d
    → length bs ≤ s.power
    → (x : ℕ) → has x bs ≡ true
    → (install_from tail bs s).disk x ≡ d x
unfolding install_from
install_done n tail [] s d out fits c p x h = cc
install_done n tail (b ∷ bs) s d out fits c p x h =
    let v = s.view (s.start + tail + 1) in
    let s1 = put b v s in
    let still : Copies s1.view s.start (tail + 1) bs d =
      Copies-source s.view s1.view s.start (tail + 1) bs d
        (λ k l u. update_ne s.view b v (s.start + k + 1) (λ e. ground (arith, out.0))) c.1 in
    elim (Bool-cases (has x bs)) [
      | inl y ↦ install_done n (tail + 1) bs s1 d out.1 (omega arith) still (omega arith) x y
      | inr nh ↦
          let e : b ≡ x = ground arith in
          (install_frame (tail + 1) bs s1 x nh).1 ∙ put_disk b v s x ∙ ground (arith, c.0)
    ]
