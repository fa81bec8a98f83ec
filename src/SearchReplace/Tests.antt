-- ===== src/SearchReplace/Tests.antt =====
-- The parser and the edits on small texts.
use tig_swarm_demo.Prelude.{◌≡◌, refl, subst, none, some, [], ◌∷◌, map, arith}
use tig_swarm_demo.SearchReplace.Text.{Text, is_break, is_space, lstrip}
use tig_swarm_demo.SearchReplace.Parse.{
  Block, search_marker, after_run, run_of, is_divider, is_replace, parse_blocks,
}
use tig_swarm_demo.SearchReplace.Apply.{FileMap, not_found, edited, edit_content, apply_blocks}
use tig_swarm_demo.SearchReplace.Lines.{IsPath, open_line, unlines}
use tig_swarm_demo.SearchReplace.RoundTrip.{
  Part, IsClean, answer_lines, block_of, parse_blocks_roundtrip,
}
use tig_swarm_demo.SearchReplace.Edits.{Located, edit_content_lem}
use tig_swarm_demo.SearchReplace.Misses.{IsKept, apply_blocks_lem}

abbrev path : Text
path = b'm' ∷ b'.' ∷ b'r' ∷ b's' ∷ []

abbrev sample_part : Part
sample_part = record {
  prose = (b'O' ∷ b'k' ∷ []) ∷ [];
  file = some path;
  found = (b'a' ∷ []) ∷ (32 ∷ b'b' ∷ []) ∷ [];
  given = (b'c' ∷ []) ∷ [];
}

sample_part-IsClean : IsClean sample_part
unfolding is_break is_space open_line search_marker after_run run_of lstrip is_divider is_replace
sample_part-IsClean = record {
  prose = (record { line = ground arith; no_start = refl }, tt);
  path = λ f e.
      subst IsPath (let q : path ≡ f = ground (arith, e) in q)
        (record { start = refl; end_ = refl });
  path_line = ground arith;
  found = (
    record { line = ground arith; no_divider = refl; no_start = refl },
    (record { line = ground arith; no_divider = refl; no_start = refl }, tt),
  );
  given = (record { line = ground arith; no_end = refl }, tt);
}

parse_blocks_roundtrip_example :
    parse_blocks (unlines (answer_lines (sample_part ∷ []) [])) ≡ map block_of (sample_part ∷ [])
parse_blocks_roundtrip_example =
    parse_blocks_roundtrip (sample_part ∷ []) [] (sample_part-IsClean, tt) tt

abbrev rename : Block
rename = record { file = none; search = b'a' ∷ []; replace = b'z' ∷ b'z' ∷ [] }

abbrev absent : Block
absent = record { file = some path; search = b'q' ∷ []; replace = [] }

edit_content_lem_example :
    Located (b'b' ∷ b'a' ∷ b'b' ∷ []) rename (edit_content (b'b' ∷ b'a' ∷ b'b' ∷ []) rename)
edit_content_lem_example = edit_content_lem (b'b' ∷ b'a' ∷ b'b' ∷ []) rename

edit_replaces :
    edit_content (b'b' ∷ b'a' ∷ b'b' ∷ []) rename ≡ edited (b'b' ∷ b'z' ∷ b'z' ∷ b'b' ∷ [])
unfolding edit_content
edit_replaces = refl

abbrev files : FileMap
files = (path, b'b' ∷ b'a' ∷ []) ∷ []

run :
    apply_blocks files (absent ∷ rename ∷ [])
    ≡ ((path, b'b' ∷ b'z' ∷ b'z' ∷ []) ∷ [], record { block = absent; reason = not_found } ∷ [])
unfolding apply_blocks
run = refl

apply_blocks_lem_example :
    IsKept files (absent ∷ rename ∷ []) (apply_blocks files (absent ∷ rename ∷ []))
apply_blocks_lem_example = apply_blocks_lem files (absent ∷ rename ∷ [])
