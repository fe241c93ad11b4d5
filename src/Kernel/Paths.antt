-- ===== src/Kernel/Paths.antt =====
-- alarm/fs.c: the elements of a path name (skipelem). A path is its characters up to the final 0.
-- `name` is a buffer of DIRSIZ bytes.
pub mod Elements
mod Tests
use meph_i_semester_4_acos.Base.{
  ℕ, zero, suc, ◌+◌, ◌-◌, Bool, true, false, Option, none, some, List, [], ◌∷◌, ◌++◌, ◌==◌, ltb,
  leb, if◌then◌else◌, length, take, drop,
}

abbrev pub dirsiz : ℕ
dirsiz = 14

-- '/'
abbrev pub slash : ℕ
slash = 47

-- `while(*path == '/') path++`
pub skip_slashes : List ℕ → List ℕ
skip_slashes [] = []
skip_slashes (c ∷ path) = let rest = skip_slashes path in if c == slash then rest else c ∷ path

-- `while(*path != '/' && *path != 0) path++`: the characters passed, and the rest
pub element : List ℕ → List ℕ × List ℕ
element [] = ([], [])
element (c ∷ path) =
    let rest = element path in if c == slash then ([], c ∷ path) else (c ∷ rest.0, rest.1)

-- the element `s` moved into the buffer `name`, which has DIRSIZ bytes
abbrev pub move_name : List ℕ → List ℕ → List ℕ
move_name s name =
    if leb dirsiz (length s) then take dirsiz s else s ++ (0 ∷ drop (length s + 1) name)

-- skipelem behind the first slashes
abbrev pub elem_of : List ℕ → List ℕ → Option (List ℕ × List ℕ)
elem_of [] name = none
elem_of (c ∷ path) name =
    let (s, rest) = element (c ∷ path) in some (move_name s name, skip_slashes rest)

-- `skipelem`: the buffer and the rest of the path, or `none` for 0
pub skipelem : List ℕ → List ℕ → Option (List ℕ × List ℕ)
skipelem path name = elem_of (skip_slashes path) name

-- the string in the buffer: up to a 0, or all of it
pub name_of : List ℕ → List ℕ
name_of [] = []
name_of (c ∷ cs) = let rest = name_of cs in if c == 0 then [] else c ∷ rest

abbrev pub each : (List ℕ → List ℕ → List (List ℕ)) → Option (List ℕ × List ℕ) → List (List ℕ)
each go_on none = []
each go_on (some (name, rest)) = name_of name ∷ go_on rest name

-- the loop `while((path = skipelem(path, name)) != 0)` of namex, on fuel: the names that it comes to
pub elements_from : ℕ → List ℕ → List ℕ → List (List ℕ)
elements_from zero path name = []
elements_from (suc n) path name = each (elements_from n) (skipelem path name)

-- each round passes a character at least
abbrev pub elements : List ℕ → List ℕ → List (List ℕ)
elements path name = elements_from (length path) path name
