-- ===== src/Kernel/Paths/Tests.antt =====
-- A path with slashes in a row and a long name.
use meph_i_semester_4_acos.Base.{ℕ, ◌≡◌, refl, List, [], ◌∷◌, codes}
use meph_i_semester_4_acos.Kernel.Paths.Elements.{path_of}

abbrev names : List (ℕ × List ℕ)
names = (0, codes "a") ∷ (2, codes "bb") ∷ (0, codes "a_name_of_16_let") ∷ []

path_of-names : path_of names 1 ≡ codes "/a///bb/a_name_of_16_let/"
path_of-names = refl
