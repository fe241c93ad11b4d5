-- ===== src/Kernel/Log/Recovery.antt =====
-- A recovery, or the end of a commit, that the power may cut short.
use meph_i_semester_4_acos.Base.{
  ℕ, ◌+◌, ◌<◌, ◌≤◌, ◌≡◌, ◌∙◌, refl, sym, true, false, List, [], ◌∷◌, ◌==◌, if◌then◌else◌, length,
  arith, inl, inr, Bool-cases, Nat-cases, subst,
}
use meph_i_semester_4_acos.Kernel.Log.{
  Bytes, State, write_head, read_head, install_from, install_trans, clear_lh, recover_from_log,
  restart, initlog,
}
use meph_i_semester_4_acos.Kernel.Log.Install.{
  has, in_log, Outside, Copies, Copies-source, put, put_disk, install-Same, install_frame,
  install_done,
}

-- A header names at most `n` blocks, none of them the header or one of the first `n` blocks of the
-- log, and their new contents `d` are in the log.
abbrev pub IsLogged : ℕ → ℕ → List ℕ → (ℕ → Bytes) → (ℕ → Bytes) → Type 0
IsLogged start n bs disk d = Outside start n bs × (length bs ≤ n) × Copies disk start 0 bs d

-- what a block will hold once the log is installed
abbrev pub settled : List ℕ → (ℕ → Bytes) → (ℕ → Bytes) → ℕ → Bytes
settled bs disk d x = if has x bs then d x else disk x

-- a block of the log is not in a list of blocks outside of it
pub not_has :
    (start n : ℕ) (bs : List ℕ) (x : ℕ)
    → Outside start n bs
    → in_log start n x ≡ true
    → has x bs ≡ false
not_has start n [] x out h = refl
not_has start n (b ∷ bs) x out h =
    let ne : (b == x) ≡ false = ground (arith, out.0) in rw ne (not_has start n bs x out.1 h)

-- Without power nothing reaches the disk.
pub install_dark :
    (tail : ℕ) (bs : List ℕ) (s : State) (x : ℕ)
    → s.power ≡ 0
    → (install_from tail bs s).disk x ≡ s.disk x
unfolding install_from
install_dark tail [] s x h = refl
install_dark tail (b ∷ bs) s x h =
    let v = s.view (s.start + tail + 1) in
    install_dark (tail + 1) bs (put b v s) x (omega arith) ∙ put_disk b v s x ∙ ground arith

-- The log on disk survives the installation of blocks outside of it.
pub install-Copies :
    (n : ℕ) (bs cs : List ℕ) (s : State) (d : ℕ → Bytes)
    → Outside s.start n bs
    → length cs ≤ n
    → Copies s.disk s.start 0 cs d
    → Copies (install_from 0 bs s).disk s.start 0 cs d
install-Copies n bs cs s d out fits c =
    Copies-source s.disk (install_from 0 bs s).disk s.start 0 cs d
      (λ k l u.
        (install_frame 0 bs s (s.start + k + 1)
          (not_has s.start n bs (s.start + k + 1) out (ground arith))).1)
      c

pub settled-eq :
    (bs : List ℕ) (f g d : ℕ → Bytes) (x : ℕ)
    → (has x bs ≡ false → g x ≡ f x)
    → settled bs g d x ≡ settled bs f d x
settled-eq bs f g d x h = elim (Bool-cases (has x bs)) [ inl y ↦ rw y | inr n ↦ rw n (h n) ]

-- The end of a commit and of a recovery: the log is installed and erased.
abbrev pub install_and_clear : State → State
install_and_clear s = write_head (clear_lh (install_trans s))

module _ (n : ℕ) (s : State) (d : ℕ → Bytes) (same : s.header ≡ s.lh)
    (l : IsLogged s.start n s.lh s.disk d) (view : Copies s.view s.start 0 s.lh d) where
  abbrev installed : State
  installed = install_from 0 s.lh s

  -- the power fails before the log is erased: the header is still there
  clear_dark :
      installed.power ≡ 0
      → let t = install_and_clear s in
        IsLogged t.start n t.header t.disk d
        × ((x : ℕ) → settled t.header t.disk d x ≡ settled s.lh s.disk d x)
  unfolding write_head install_trans
  clear_dark dark =
      let t = install_and_clear s in
      let kept = install-Same 0 s.lh s in
      let e : t.header ≡ s.lh = ground (arith, kept.0.2) in
      (
        subst (λ st. IsLogged st n t.header t.disk d) (sym kept.0.0)
            (subst (λ hd. IsLogged s.start n hd t.disk d) (sym e)
              (l.0, l.1, install-Copies n s.lh s.lh s d l.0 l.1 l.2)),
        λ x. rw e (settled-eq s.lh s.disk t.disk d x (λ nh. (install_frame 0 s.lh s x nh).1)),
      )

  -- the power lasts until the log is erased
  clear_lit :
      0 < installed.power
      → let t = install_and_clear s in
        (t.header ≡ []) × ((x : ℕ) → t.disk x ≡ settled s.lh s.disk d x)
  unfolding write_head install_trans
  clear_lit lit =
      let kept = install-Same 0 s.lh s in
      let enough : length s.lh ≤ s.power = omega (arith, kept.1) in
      (
        ground arith,
        λ x. elim (Bool-cases (has x s.lh)) [
          | inl y ↦ rw y (install_done n 0 s.lh s d l.0 (omega (arith, l.1)) view enough x y)
          | inr nh ↦ rw nh (install_frame 0 s.lh s x nh).1
        ],
      )

  -- Either way, the log says of every block what it said before.
  pub clear-IsLogged :
      let t = install_and_clear s in
      IsLogged t.start n t.header t.disk d
      × ((x : ℕ) → settled t.header t.disk d x ≡ settled s.lh s.disk d x)
      × (length s.lh < s.power → t.header ≡ [])
  clear-IsLogged =
      let kept = install-Same 0 s.lh s in
      elim (Nat-cases installed.power 0) [
        | inl dark ↦ let (a, b) = clear_dark dark in (a, b, λ p. absurd (omega (arith, kept.1)))
        | inr lit ↦
            let t = install_and_clear s in
            let (e, b) = clear_lit (omega arith) in
            (
              subst (λ hd. IsLogged t.start n hd t.disk d) (sym e) (tt, omega arith, tt),
              λ x. rw e (b x),
              λ p. e,
            )
      ]

-- A recovery, interrupted or not, changes nothing of what the blocks will hold in the end; with
-- power enough it empties the log.
pub recover-IsLogged :
    (n q : ℕ) (s : State) (d : ℕ → Bytes)
    → IsLogged s.start n s.header s.disk d
    → let t = initlog q s in
      IsLogged t.start n t.header t.disk d
      × ((x : ℕ) → settled t.header t.disk d x ≡ settled s.header s.disk d x)
      × (length s.header < q → t.header ≡ [])
unfolding initlog recover_from_log read_head
recover-IsLogged n q s d l = clear-IsLogged n (read_head (restart q s)) d refl l l.2
