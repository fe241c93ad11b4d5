-- ===== src/JobServer/Order.antt =====
-- Which programs a walk of the directories starts, and in which order.
use meph_i_semester_4_acos.Base.{
  ℕ, ◌≡◌, refl, ap, ◌∙◌, sym, Bool, true, false, if◌then◌else◌, none, some, List, [], ◌∷◌, ◌++◌,
  append_assoc, append-nil, Bool-cases, inl, inr,
}
use meph_i_semester_4_acos.JobServer.{
  Entry, file, dir, closed_dir, Entries, done, entry, Walk, skipped, cur_path, then_walk, walk_dir,
  walk_entry,
}

-- the entries of a directory, then others
pub append : Entries → Entries → Entries
append done more = more
append (entry e es) more = entry e (append es more)

unfoldable mutual
  -- every file below can be executed, and every directory opened; `.` and `..` aside
  pub AllRun : Entries → Type 0
  AllRun done = Unit
  AllRun (entry e es) = Runs e × AllRun es

  pub Runs : Entry → Type 0
  Runs (file name mode) = skipped name ≡ false → mode ≡ some true
  Runs (dir name es) = skipped name ≡ false → AllRun es
  Runs (closed_dir name) = skipped name ≡ true

unfoldable mutual
  -- the paths below a directory, in the order of its entries
  pub paths : List ℕ → Entries → List (List ℕ)
  paths cur_dir done = []
  paths cur_dir (entry e es) = entry_paths cur_dir e ++ paths cur_dir es

  pub entry_paths : List ℕ → Entry → List (List ℕ)
  entry_paths cur_dir (file name mode) = if skipped name then [] else cur_path cur_dir name ∷ []
  entry_paths cur_dir (dir name es) =
      let ps = paths (cur_path cur_dir name) es in if skipped name then [] else ps
  entry_paths cur_dir (closed_dir name) = []

append-done : (es : Entries) → append es done ≡ es
unfolding append
append-done done = refl
append-done (entry e es) = ap (entry e) (append-done es)

-- Files put before those of a walk.
abbrev after : List (List ℕ) → Walk → Walk
after ps w = record w { files = ps ++ w.files }

mutual
  unfolding append walk_dir AllRun paths

  walk_dir-append :
      (cur_dir : List ℕ) (es more : Entries)
      → AllRun es
      → walk_dir cur_dir (append es more) ≡ after (paths cur_dir es) (walk_dir cur_dir more)
  walk_dir-append cur_dir done more h = refl
  walk_dir-append cur_dir (entry e es) more h =
      ap (walk_entry cur_dir e) (walk_dir-append cur_dir es more h.1)
      ∙ walk_entry-after cur_dir e (paths cur_dir es) (walk_dir cur_dir more) h.0

  walk_entry-after :
      (cur_dir : List ℕ) (e : Entry) (ps : List (List ℕ)) (w : Walk)
      → Runs e
      → walk_entry cur_dir e (after ps w) ≡ after (entry_paths cur_dir e ++ ps) w
  walk_entry-after cur_dir (file name mode) ps w h = elim (Bool-cases (skipped name)) [
    | inl y ↦ rw y refl
    | inr n ↦ rw n (rw (h n) refl)
  ]
  walk_entry-after cur_dir (dir name es) ps w h = elim (Bool-cases (skipped name)) [
    | inl y ↦ rw y refl
    | inr n ↦ rw n (
        ap (λ v. then_walk v (after ps w))
          (ap (walk_dir (cur_path cur_dir name)) (sym (append-done es))
            ∙ walk_dir-append (cur_path cur_dir name) es done (h n))
        ∙ ap (λ fs. record w { files = fs })
            (ap (λ qs. qs ++ (ps ++ w.files)) (append-nil (paths (cur_path cur_dir name) es))
              ∙ sym (append_assoc (paths (cur_path cur_dir name) es) ps w.files)))
  ]
  walk_entry-after cur_dir (closed_dir name) ps w h = rw h refl

nothing_after :
    (ps : List (List ℕ)) (failed : Bool)
    → after ps (record { files = []; failed = failed }) ≡ record { files = ps; failed = failed }
nothing_after ps failed = ap (λ fs. record { files = fs; failed = failed }) (append-nil ps)

-- For a directory with entries all of whose files can be executed, and whose directories open: walk_dir
-- starts every file below them, in order. Where such entries are followed by a file that cannot be
-- executed, it starts those files and nothing of what comes after; where stat then fails, it starts
-- those files and the program ends with an error.
pub walk_dir-executables :
    (cur_dir name : List ℕ) (es more : Entries)
    → AllRun es
    → skipped name ≡ false
    → (walk_dir cur_dir es ≡ record { files = paths cur_dir es; failed = false })
      × (walk_dir cur_dir (append es (entry (file name (some false)) more))
          ≡ record { files = paths cur_dir es; failed = false })
      × (walk_dir cur_dir (append es (entry (file name none) more))
          ≡ record { files = paths cur_dir es; failed = true })
unfolding walk_dir
walk_dir-executables cur_dir name es more h n = (
  ap (walk_dir cur_dir) (sym (append-done es))
      ∙ walk_dir-append cur_dir es done h
      ∙ nothing_after (paths cur_dir es) false,
  walk_dir-append cur_dir es (entry (file name (some false)) more) h
      ∙ rw n (nothing_after (paths cur_dir es) false),
  walk_dir-append cur_dir es (entry (file name none) more) h
      ∙ rw n (nothing_after (paths cur_dir es) true),
)
