-- ===== src/ChallengeFiles/Tests.antt =====
-- A directory with an entry and a module, rewritten and restored.
use tig_swarm_demo.Prelude.{◌≡◌, refl, arith, [], ◌∷◌}
use tig_swarm_demo.SearchReplace.Text.{Text, eq_text}
use tig_swarm_demo.SearchReplace.Apply.{FileMap}
use tig_swarm_demo.CleanerPrepass.{contains}
use tig_swarm_demo.ChallengeFiles.{path_names, translate_char, write_files}
use tig_swarm_demo.ChallengeFiles.Tidy.{IsTidy, write_files-restores}

abbrev entry : Text
entry = b'm' ∷ []

abbrev sibling : Text
sibling = b'h' ∷ []

abbrev saved : FileMap
saved = (entry, b'a' ∷ 10 ∷ []) ∷ (sibling, b'b' ∷ []) ∷ []

abbrev variant : FileMap
variant = (entry, 8220 ∷ 13 ∷ 10 ∷ 8230 ∷ 13 ∷ []) ∷ []

-- Curly quotes, an ellipsis and both kinds of line end; the sibling is pruned.
written : write_files entry variant saved ≡ (entry, b'"' ∷ 10 ∷ b'.' ∷ b'.' ∷ b'.' ∷ 10 ∷ []) ∷ []
unfolding write_files
written = refl

saved-IsTidy : IsTidy saved
unfolding contains path_names translate_char eq_text
saved-IsTidy = record { distinct = ground arith; plain = ground arith }

write_files-restores_example : write_files entry saved (write_files entry variant saved) ≡ saved
unfolding contains path_names eq_text
write_files-restores_example =
    write_files-restores entry saved (write_files entry variant saved) saved-IsTidy refl
