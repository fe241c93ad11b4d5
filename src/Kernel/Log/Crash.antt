-- ===== src/Kernel/Log/Crash.antt =====
-- A transaction is on disk as a whole or not at all, wherever the power fails.
use meph_i_semester_4_acos.Base.{
  ℕ, ◌+◌, ◌-◌, ◌*◌, ◌<◌, ◌≤◌, ◌≡◌, ◌∙◌, ◌⊎◌, refl, sym, ap, true, false, some, List, [], ◌∷◌, ltb,
  length, arith, inl, inr, Bool-cases, Nat-cases, subst,
}
use meph_i_semester_4_acos.Kernel.Log.{
  Bytes, State, write_head, write_log_from, write_log, install_trans, commit, initlog, end_op,
  log_size,
}
use meph_i_semester_4_acos.Kernel.Log.Install.{
  in_log, Outside, Copies, write_log-Same, write_log_frame, write_log-Copies, install-Same,
}
use meph_i_semester_4_acos.Kernel.Log.Recovery.{
  IsLogged, settled, install_dark, settled-eq, install_and_clear, recover-IsLogged, clear-IsLogged,
}

-- The blocks that the log does not use are as they were, or all those of the transaction are new.
abbrev pub AllOrNothing : State → (ℕ → Bytes) → Type 0
AllOrNothing s f =
    ((x : ℕ) → in_log s.start (length s.lh) x ≡ false → f x ≡ s.disk x)
    ⊎ ((x : ℕ) → in_log s.start (length s.lh) x ≡ false → f x ≡ settled s.lh s.disk s.view x)

-- A transaction that may be committed: its blocks are none that the log uses, they fit into the
-- log, and the log on disk is empty.
pub record IsReady (s : State) : Type 0 where
  pub out : Outside s.start (length s.lh) s.lh
  pub fits : length s.lh ≤ log_size
  pub empty : s.header ≡ []

module _ (s : State) (r : IsReady s) where
  abbrev logged : State
  logged = write_log_from 0 s.lh s

  home_kept : (x : ℕ) → in_log s.start (length s.lh) x ≡ false → logged.disk x ≡ s.disk x
  home_kept x h = (write_log_frame 0 s.lh s x (λ k l u e. ground (arith, r.fits))).1

  abbrev Committed : State → Type 0
  Committed t =
      IsLogged t.start (length s.lh) t.header t.disk s.view
      × AllOrNothing s (settled t.header t.disk s.view)

  commit_dark : logged.power ≡ 0 → Committed (install_and_clear (write_head logged))
  unfolding write_head install_trans
  commit_dark dark =
      let kept = write_log-Same 0 s.lh s in
      let s2 = write_head logged in
      let t = install_and_clear s2 in
      let inst = install-Same 0 s2.lh s2 in
      let e : t.header ≡ [] = ground (arith, kept.0.2, inst.0.2, inst.1, r.empty) in
      (
        subst (λ hd. IsLogged t.start (length s.lh) hd t.disk s.view) (sym e) (tt, omega arith, tt),
        inl (λ x h. rw e (install_dark 0 s2.lh s2 x (omega arith) ∙ home_kept x h)),
      )

  -- The header has reached the disk: from here on the transaction is committed.
  commit_lit :
      0 < logged.power
      → let t = install_and_clear (write_head logged) in
        IsLogged t.start (length s.lh) t.header t.disk s.view
        × ((x : ℕ)
            → in_log s.start (length s.lh) x ≡ false
            → settled t.header t.disk s.view x ≡ settled s.lh s.disk s.view x)
        × (length s.lh + 1 < logged.power → t.header ≡ [])
  unfolding write_head
  commit_lit lit =
      let kept = write_log-Same 0 s.lh s in
      let s2 = write_head logged in
      let (v, d) = write_log-Copies (length s.lh) 0 s.lh s r.out (omega (arith, r.fits)) in
      let enough : length s.lh ≤ s.power = omega (arith, kept.1) in
      let el : s2.lh ≡ s.lh = kept.0.1 in
      let es : s2.start ≡ s.start = kept.0.0 in
      let same : s2.header ≡ s2.lh = ground arith in
      let on_disk : IsLogged s2.start (length s.lh) s2.lh s2.disk s.view =
        rw (es, el) (r.out, omega arith, d enough) in
      let in_view : Copies s2.view s2.start 0 s2.lh s.view = rw (es, el) v in
      let n : length s2.lh ≡ length s.lh = ap length el in
      let (a, b, c) = clear-IsLogged (length s.lh) s2 s.view same on_disk in_view in
      (
        a,
        λ x h. b x ∙ rw el (settled-eq s.lh s.disk logged.disk s.view x (λ _. home_kept x h)),
        λ p. c (omega (arith, n)),
      )

  commit-Committed : Committed (commit s)
  unfolding commit write_log
  commit-Committed = elim (Bool-cases (ltb 0 (length s.lh))) [
    | inr none_logged ↦ rw none_logged (
      subst (λ hd. IsLogged s.start (length s.lh) hd s.disk s.view) (sym r.empty)
          (tt, omega arith, tt),
      inl (λ x h. rw r.empty),
    )
    | inl some_logged ↦ rw some_logged (elim (Nat-cases logged.power 0) [
      | inl dark ↦ commit_dark dark
      | inr lit ↦ let (a, b, c) = commit_lit (omega arith) in (a, inr b)
    ])
  ]

-- If the power lasts for all the writes of a commit, the blocks of the transaction are on disk as
-- its operations wrote them; the other blocks are unchanged, except for the header of the log and the
-- blocks behind it that the transaction is copied to; and the log is empty, on disk and in memory.
pub commit_durable :
    (s : State)
    → IsReady s
    → 2 * length s.lh + 1 < s.power
    → ((x : ℕ)
        → in_log s.start (length s.lh) x ≡ false
        → (commit s).disk x ≡ settled s.lh s.disk s.view x)
      × ((commit s).header ≡ [])
      × ((commit s).lh ≡ [])
unfolding commit write_log write_head
commit_durable s r p = elim (Bool-cases (ltb 0 (length s.lh))) [
  | inr none_logged ↦
      let e : s.lh ≡ [] = ground arith in
      (λ x h. rw (none_logged, e), rw none_logged r.empty, rw none_logged e)
  | inl some_logged ↦
      let kept = write_log-Same 0 s.lh s in
      let (l, fresh, done) = commit_lit s r (omega (arith, kept.1)) in
      let clear = done (omega (arith, kept.1)) in
      rw some_logged (λ x h. rw clear at (fresh x h), clear, refl)
]

-- Restarts in a row, each with the writes that it is given before the power fails again.
pub recoveries : List ℕ → State → State
recoveries [] s = s
recoveries (q ∷ qs) s = recoveries qs (initlog q s)

recoveries-IsLogged :
    (n : ℕ) (qs : List ℕ) (s : State) (d : ℕ → Bytes)
    → IsLogged s.start n s.header s.disk d
    → let t = recoveries qs s in
      IsLogged t.start n t.header t.disk d
      × ((x : ℕ) → settled t.header t.disk d x ≡ settled s.header s.disk d x)
unfolding recoveries
recoveries-IsLogged n [] s d l = (l, λ x. refl)
recoveries-IsLogged n (q ∷ qs) s d l =
    let (a, b, c) = recover-IsLogged n q s d l in
    let (a', b') = recoveries-IsLogged n qs (initlog q s) d a in (a', λ x. b' x ∙ b x)

AllOrNothing-ext :
    (s : State) (f g : ℕ → Bytes) → ((x : ℕ) → g x ≡ f x) → AllOrNothing s f → AllOrNothing s g
AllOrNothing-ext s f g e (inl h) = inl (λ x u. e x ∙ h x u)
AllOrNothing-ext s f g e (inr h) = inr (λ x u. e x ∙ h x u)

settle :
    (s t : State) (qs : List ℕ) (q : ℕ)
    → IsLogged t.start (length s.lh) t.header t.disk s.view
    → AllOrNothing s (settled t.header t.disk s.view)
    → length s.lh ≤ log_size
    → log_size < q
    → let u = initlog q (recoveries qs t) in AllOrNothing s u.disk × (u.header ≡ [])
settle s t qs q l a fits p =
    let v = recoveries qs t in
    let u = initlog q v in
    let (l1, e1) = recoveries-IsLogged (length s.lh) qs t s.view l in
    let (l2, e2, done) = recover-IsLogged (length s.lh) q v s.view l1 in
    let clear = done (omega (arith, l1.1)) in
    (AllOrNothing-ext s _ u.disk (λ x. rw clear at (e2 x ∙ e1 x)) a, clear)

-- The last operation of a transaction of at most LOGSIZE blocks ends, none of them is the header
-- block of the log or one of the blocks behind it that the transaction is copied to, and the log on
-- disk is empty. The power may fail at any disk write of the commit, and at any disk
-- write of the recoveries after it. Once a recovery has power enough, the log on disk is empty, and
-- of the blocks other than those either none has changed on disk, or exactly the blocks of the
-- transaction have, each to what its operations wrote.
pub end_op-AllOrNothing :
    (s : State) (qs : List ℕ) (q : ℕ)
    → s.committing ≡ false
    → s.outstanding ≡ 1
    → IsReady s
    → log_size < q
    → (t : State) × (end_op s ≡ some t)
      × AllOrNothing s (initlog q (recoveries qs t)).disk
      × ((initlog q (recoveries qs t)).header ≡ [])
unfolding end_op
end_op-AllOrNothing s qs q c o r p =
    let s0 = record s { outstanding = s.outstanding - 1; committing = true } in
    let (l, a) = commit-Committed s0 (record { out = r.out; fits = r.fits; empty = r.empty }) in
    let t = record (commit s0) { committing = false } in
    let (done, clear) = settle s t qs q l a r.fits p in (t, ground arith, done, clear)
