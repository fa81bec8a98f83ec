-- ===== src/SearchReplace/Parse.antt =====
-- parse_blocks (scripts/search_replace.py) and the three markers that it looks for.
use tig_swarm_demo.Prelude.{
  ℕ, ◌+◌, Bool, true, false, ◌&&◌, ◌||◌, Option, none, some, List, [], ◌∷◌, ◌++◌, ◌==◌, leb,
  if◌then◌else◌, is_some,
}
use tig_swarm_demo.SearchReplace.Text.{
  Text, lstrip, rstrip, strip, is_empty, after_prefix, splitlines, join,
}

abbrev pub search_word : Text
search_word = b'S' ∷ b'E' ∷ b'A' ∷ b'R' ∷ b'C' ∷ b'H' ∷ []

abbrev pub replace_word : Text
replace_word = b'R' ∷ b'E' ∷ b'P' ∷ b'L' ∷ b'A' ∷ b'C' ∷ b'E' ∷ []

-- [ \t]
abbrev pub is_blank : ℕ → Bool
is_blank c = c == 32 || c == 9

-- the length of a run of one character, and what follows
unfoldable pub run_of : ℕ → ℕ → Text → ℕ × Text
run_of c n [] = (n, [])
run_of c n (d ∷ t) = elim (d == c) [ true ↦ run_of c (n + 1) t | false ↦ (n, d ∷ t) ]

-- ^[ \t]*c{5,9}: the run has to end where the pattern goes on with another character
unfoldable pub after_run : ℕ → Text → Option Text
unfolding run_of lstrip
after_run c l =
    let (n, rest) = run_of c 0 (lstrip is_blank l) in if leb 5 n && leb n 9 then some rest else none

-- `(m.group("file") or "").strip() or None`
unfoldable pub file_of : Text → Option Text
unfolding strip rstrip lstrip
file_of t =
    let name = strip (rstrip is_blank (lstrip is_blank t)) in
    if is_empty name then none else some name

-- _SEARCH_RE.match and the group `file`, cleaned
unfoldable pub search_marker : Text → Option (Option Text)
unfolding after_run after_prefix file_of
search_marker l = elim (after_run b'<' l) [
  | none ↦ none
  | some rest ↦ (elim (after_prefix search_word (lstrip is_blank rest)) [
    | none ↦ none
    | some t ↦ some (file_of t)
  ])
]

-- [ \t]*$
unfoldable pub ends_blank : Text → Bool
ends_blank [] = true
ends_blank (c ∷ t) = is_blank c && ends_blank t

-- _DIVIDER_RE.match
unfoldable pub is_divider : Text → Bool
unfolding after_run ends_blank
is_divider l = elim (after_run b'=' l) [ none ↦ false | some rest ↦ ends_blank rest ]

-- _REPLACE_RE.match
unfoldable pub is_replace : Text → Bool
unfolding after_run after_prefix ends_blank
is_replace l = elim (after_run b'>' l) [
  | none ↦ false
  | some rest ↦ (elim (after_prefix replace_word (lstrip is_blank rest)) [
    | none ↦ false
    | some t ↦ ends_blank t
  ])
]

-- Block
pub record Block : Type 0 where
  pub file : Option Text
  pub search : Text
  pub replace : Text

-- where the loops of parse_blocks stand, with the lines that they have collected
pub data Mode : Type 0 where
  outside : Mode
  in_search : Option Text → List Text → Mode
  in_replace : Option Text → List Text → List Text → Mode

-- the loops of parse_blocks on the lines that are left; an unterminated block ends them
unfoldable pub parse_lines : Mode → List Text → List Block
unfolding search_marker is_divider is_replace join
parse_lines mode [] = []
parse_lines outside (l ∷ lines) = elim (search_marker l) [
  | none ↦ parse_lines outside lines
  | some file ↦ parse_lines (in_search file []) lines
]
parse_lines (in_search file found) (l ∷ lines) = elim (is_divider l) [
  | true ↦ parse_lines (in_replace file found []) lines
  | false ↦ (elim (is_some (search_marker l)) [
    | true ↦ []
    | false ↦ parse_lines (in_search file (found ++ l ∷ [])) lines
  ])
]
parse_lines (in_replace file found given) (l ∷ lines) = elim (is_replace l) [
  | true ↦
      record { file = file; search = join found; replace = join given } ∷ parse_lines outside lines
  | false ↦ parse_lines (in_replace file found (given ++ l ∷ [])) lines
]

-- parse_blocks
unfoldable pub parse_blocks : Text → List Block
unfolding parse_lines splitlines
parse_blocks text = parse_lines outside (splitlines text)
