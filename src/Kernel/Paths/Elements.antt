-- ===== src/Kernel/Paths/Elements.antt =====
-- Which names a path name gives.
use meph_i_semester_4_acos.Base.{
  ℕ, zero, suc, ◌+◌, ◌≤◌, ◌≡◌, ◌≢◌, ◌∙◌, inl, inr, refl, sym, ap, ap₂, Bool, true, false, not, ◌&&◌,
  ◌||◌, all, none, some, List, [], ◌∷◌, ◌++◌, ◌==◌, ltb, leb, length, take, drop, replicate, All,
  length-append, length-replicate, arith, Bool-cases,
}
use meph_i_semester_4_acos.Kernel.Paths.{
  dirsiz, slash, skip_slashes, element, move_name, elem_of, skipelem, name_of, elements_from,
  elements,
}

-- a character of a name: neither a slash nor the end
abbrev pub IsPlain : ℕ → Type 0
IsPlain c = (c ≢ slash) × (c ≢ 0)

-- Names, each behind at least one slash, and slashes at the end.
abbrev pub path_of : List (ℕ × List ℕ) → ℕ → List ℕ
path_of [] m = replicate m slash
path_of ((n, s) ∷ ps) m = replicate (suc n) slash ++ (s ++ path_of ps m)

-- the same as a test, and of a whole name, which is not empty
abbrev pub is_plain : ℕ → Bool
is_plain c = not (c == slash || c == 0)

abbrev pub IsName : ℕ × List ℕ → Type 0
IsName (n, s) = (all is_plain s && ltb 0 (length s)) ≡ true

all-All : (s : List ℕ) → all is_plain s ≡ true → All IsPlain s
all-All [] h = tt
all-All (c ∷ s) h =
    let head : is_plain c ≡ true = ground arith in
    let tail : all is_plain s ≡ true = ground arith in
    ((λ e. ground arith, λ e. ground arith), all-All s tail)

IsName-All : (n : ℕ) (s : List ℕ) → IsName (n, s) → All IsPlain s
IsName-All n s h = let q : all is_plain s ≡ true = ground arith in all-All s q

skip_slashes-replicate :
    (n : ℕ) (path : List ℕ) → skip_slashes (replicate n slash ++ path) ≡ skip_slashes path
unfolding skip_slashes
skip_slashes-replicate zero path = refl
skip_slashes-replicate (suc n) path = skip_slashes-replicate n path

skip_slashes-plain :
    (c : ℕ) (path : List ℕ) → (c == slash) ≡ false → skip_slashes (c ∷ path) ≡ c ∷ path
unfolding skip_slashes
skip_slashes-plain c path h = rw h refl

skip_slashes-twice : (path : List ℕ) → skip_slashes (skip_slashes path) ≡ skip_slashes path
unfolding skip_slashes
skip_slashes-twice [] = refl
skip_slashes-twice (c ∷ path) = elim (Bool-cases (c == slash)) [
  | inl y ↦ rw y (skip_slashes-twice path)
  | inr n ↦ rw n (rw n refl)
]

element-append :
    (s rest : List ℕ) → All IsPlain s → element rest ≡ ([], rest) → element (s ++ rest) ≡ (s, rest)
unfolding element
element-append [] rest h e = e
element-append (c ∷ s) rest h e =
    let plain : (c == slash) ≡ false = ground (arith, h.0.0) in
    rw plain (ap (λ r. (c ∷ r.0, r.1)) (element-append s rest h.1 e))

-- behind a name stands a slash or the end
element-path_of : (ps : List (ℕ × List ℕ)) (m : ℕ) → element (path_of ps m) ≡ ([], path_of ps m)
unfolding element
element-path_of [] zero = refl
element-path_of [] (suc m) = refl
element-path_of ((n, s) ∷ ps) m = refl

name_of-take : (n : ℕ) (s : List ℕ) → All IsPlain s → name_of (take n s) ≡ take n s
unfolding name_of
name_of-take zero s h = refl
name_of-take (suc n) [] h = refl
name_of-take (suc n) (c ∷ s) h =
    let plain : (c == 0) ≡ false = ground (arith, h.0.1) in
    rw plain (ap (λ r. c ∷ r) (name_of-take n s h.1))

name_of-append : (s rest : List ℕ) → All IsPlain s → name_of (s ++ (0 ∷ rest)) ≡ s
unfolding name_of
name_of-append [] rest h = refl
name_of-append (c ∷ s) rest h =
    let plain : (c == 0) ≡ false = ground (arith, h.0.1) in
    rw plain (ap (λ r. c ∷ r) (name_of-append s rest h.1))

take-all : (n : ℕ) (s : List ℕ) → length s ≤ n → take n s ≡ s
take-all zero [] h = refl
take-all zero (c ∷ s) h = absurd (omega arith)
take-all (suc n) [] h = refl
take-all (suc n) (c ∷ s) h = ap (λ r. c ∷ r) (take-all n s (omega arith))

-- the buffer holds the name, cut to 14 characters
name_of-move_name : (s name : List ℕ) → All IsPlain s → name_of (move_name s name) ≡ take dirsiz s
name_of-move_name s name h = elim (Bool-cases (leb dirsiz (length s))) [
  | inl y ↦ rw y (name_of-take dirsiz s h)
  | inr n ↦
      rw n (name_of-append s (drop (length s + 1) name) h ∙ sym (take-all dirsiz s (ground arith)))
]

-- skipelem takes off one name, and the slashes around it
skipelem-path_of :
    (n : ℕ) (s : List ℕ) (ps : List (ℕ × List ℕ)) (m : ℕ) (name : List ℕ)
    → IsName (n, s)
    → skipelem (path_of ((n, s) ∷ ps) m) name ≡ some (move_name s name, skip_slashes (path_of ps m))
unfolding skipelem
skipelem-path_of n [] ps m name v = absurd (ground arith)
skipelem-path_of n (c ∷ s) ps m name v =
    let h = IsName-All n (c ∷ s) v in
    let plain : (c == slash) ≡ false = ground (arith, h.0.0) in
    let start : skip_slashes (path_of ((n, c ∷ s) ∷ ps) m) ≡ c ∷ (s ++ path_of ps m) =
      skip_slashes-replicate (suc n) (c ∷ (s ++ path_of ps m))
      ∙ skip_slashes-plain c (s ++ path_of ps m) plain in
    rw start (
      ap (λ r. some (move_name (r.0) name, skip_slashes (r.1)))
        (element-append (c ∷ s) (path_of ps m) h (element-path_of ps m)))

skipelem-skip_slashes :
    (path name : List ℕ) → skipelem (skip_slashes path) name ≡ skipelem path name
unfolding skipelem
skipelem-skip_slashes path name = ap (λ p. elem_of p name) (skip_slashes-twice path)

elements_from-skip_slashes :
    (n : ℕ) (path name : List ℕ)
    → elements_from n (skip_slashes path) name ≡ elements_from n path name
unfolding elements_from
elements_from-skip_slashes zero path name = refl
elements_from-skip_slashes (suc n) path name = rw (skipelem-skip_slashes path name) refl

skipelem-slashes : (m : ℕ) (name : List ℕ) → skipelem (replicate m slash) name ≡ none
unfolding skipelem skip_slashes
skipelem-slashes zero name = refl
skipelem-slashes (suc m) name = skipelem-slashes m name

abbrev pub cut_names : List (ℕ × List ℕ) → List (List ℕ)
cut_names [] = []
cut_names ((n, s) ∷ ps) = take dirsiz s ∷ cut_names ps

elements_from-path_of :
    (ps : List (ℕ × List ℕ)) (n m : ℕ) (name : List ℕ)
    → All IsName ps
    → length ps ≤ n
    → elements_from n (path_of ps m) name ≡ cut_names ps
unfolding elements_from
elements_from-path_of [] zero m name h l = refl
elements_from-path_of [] (suc n) m name h l = rw (skipelem-slashes m name) refl
elements_from-path_of ((k, s) ∷ ps) zero m name h l = absurd (omega arith)
elements_from-path_of ((k, s) ∷ ps) (suc n) m name h l = rw (skipelem-path_of k s ps m name h.0) (
    ap₂ ◌∷◌ (name_of-move_name s name (IsName-All k s h.0)) (
      elements_from-skip_slashes n (path_of ps m) (move_name s name)
      ∙ elements_from-path_of ps n m (move_name s name) h.1 (omega arith)))

length-path_of : (ps : List (ℕ × List ℕ)) (m : ℕ) → length ps ≤ length (path_of ps m)
length-path_of [] m = omega arith
length-path_of ((n, s) ∷ ps) m = omega (
  arith,
  length-path_of ps m,
  length-append (replicate (suc n) slash) (s ++ path_of ps m),
  length-append s (path_of ps m),
  length-replicate (suc n) slash,
)

-- On an absolute path, with any number of slashes between the names and at the end, the calls of
-- skipelem in the loop of namex give exactly the names, in order, each cut to 14 characters, and
-- then 0. (A name is not empty and has no slash.)
pub elements-path_of :
    (ps : List (ℕ × List ℕ)) (m : ℕ) (name : List ℕ)
    → All IsName ps
    → elements (path_of ps m) name ≡ cut_names ps
elements-path_of ps m name h =
    elements_from-path_of ps (length (path_of ps m)) m name h (length-path_of ps m)
