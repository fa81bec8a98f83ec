-- ===== src/CleanerPrepass/Tests.antt =====
-- A small algorithm with a dead file.
use tig_swarm_demo.Prelude.{◌≡◌, ◌⊎◌, ◌↔◌, refl, false, List, [], ◌∷◌, IsIn}
use tig_swarm_demo.SearchReplace.Text.{Text}
use tig_swarm_demo.SearchReplace.Apply.{FileMap}
use tig_swarm_demo.CleanerPrepass.{is_rs, remove_unreachable_files}
use tig_swarm_demo.CleanerPrepass.Kept.{Reachable, remove_unreachable_files_lem}

abbrev entry : Text
entry = b'm' ∷ b'o' ∷ b'd' ∷ b'.' ∷ b'r' ∷ b's' ∷ []

abbrev helper : Text
helper = b'h' ∷ b'.' ∷ b'r' ∷ b's' ∷ []

abbrev dead : Text
dead = b'd' ∷ b'.' ∷ b'r' ∷ b's' ∷ []

abbrev kernel : Text
kernel = b'k' ∷ b'.' ∷ b'c' ∷ b'u' ∷ []

-- every code is the name of the module that it declares
abbrev declared : Text → List Text
declared code = code ∷ []

-- The entry declares h, h declares mod, and nothing declares d.
abbrev files : FileMap
files =
    (entry, b'h' ∷ []) ∷ (dead, b'h' ∷ []) ∷ (helper, b'm' ∷ b'o' ∷ b'd' ∷ []) ∷ (kernel, []) ∷ []

run :
    remove_unreachable_files declared files entry
    ≡ (entry, b'h' ∷ []) ∷ (helper, b'm' ∷ b'o' ∷ b'd' ∷ []) ∷ (kernel, []) ∷ []
unfolding remove_unreachable_files
run = refl

remove_unreachable_files_lem_example :
    IsIn (helper, b'm' ∷ b'o' ∷ b'd' ∷ []) (remove_unreachable_files declared files entry)
    ↔ IsIn (helper, b'm' ∷ b'o' ∷ b'd' ∷ []) files
      × ((is_rs helper ≡ false) ⊎ Reachable declared files entry helper)
remove_unreachable_files_lem_example =
    remove_unreachable_files_lem declared files entry (helper, b'm' ∷ b'o' ∷ b'd' ∷ [])
