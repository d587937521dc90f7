-- ===== src/Group/Tests.antt =====
-- Runs of src/group on pairs of a key and a letter.
use cost_x.Base.{ℕ, ◌≡◌, refl, some, List, [], ◌∷◌, String}
use cost_x.Group.Entries.{set, get}
use cost_x.Group.Service.{group_by}

abbrev key : ℕ × String → ℕ
key r = r.0

abbrev letters : List (ℕ × String)
letters = (1, "a") ∷ (2, "b") ∷ (1, "c") ∷ []

letters_run : get 1 (group_by key letters) ≡ some ((1, "a") ∷ (1, "c") ∷ [])
unfolding set get group_by
letters_run = refl
