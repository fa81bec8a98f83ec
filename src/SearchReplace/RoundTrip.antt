-- ===== src/SearchReplace/RoundTrip.antt =====
-- A model's answer in the format of the prompt, and what parse_blocks (scripts/search_replace.py) makes
-- of it.
use tig_swarm_demo.Prelude.{
  ◌≡◌, refl, sym, ap, ◌∙◌, false, Option, none, some, List, [], ◌∷◌, ◌++◌, map, arith, All,
  All-append, All-map,
}
use mathlib.Core.List.{append_assoc, append-nil}
use tig_swarm_demo.SearchReplace.Text.{Text, is_break, join}
use tig_swarm_demo.SearchReplace.Parse.{
  Block, outside, in_search, in_replace, search_marker, is_divider, is_replace, parse_lines,
  parse_blocks,
}
use tig_swarm_demo.SearchReplace.Lines.{
  IsLine, IsPath, unlines, splitlines-unlines, open_line, divider_line, close_line,
  search_marker-open, close_is_replace,
}

-- One block of an answer, with the prose before it.
pub record Part : Type 0 where
  pub prose : List Text
  pub file : Option Text
  pub found : List Text
  pub given : List Text

-- A line that is neither a divider nor the start of a block.
pub record IsBody (l : Text) : Type 0 where
  pub line : IsLine l
  pub no_divider : is_divider l ≡ false
  pub no_start : search_marker l ≡ none

pub record IsProse (l : Text) : Type 0 where
  pub line : IsLine l
  pub no_start : search_marker l ≡ none

pub record IsGiven (l : Text) : Type 0 where
  pub line : IsLine l
  pub no_end : is_replace l ≡ false

-- A part that the format can express: no body holds a marker of its own.
pub record IsClean (p : Part) : Type 0 where
  pub prose : All IsProse p.prose
  pub path : (f : Text) → p.file ≡ some f → IsPath f
  pub path_line : IsLine (open_line p.file)
  pub found : All IsBody p.found
  pub given : All IsGiven p.given

-- The lines of an answer: its parts, and the prose behind the last one.
pub answer_lines : List Part → List Text → List Text
answer_lines [] tail = tail
answer_lines (p ∷ parts) tail =
    p.prose
    ++ (open_line p.file
        ∷ (p.found ++ (divider_line ∷ (p.given ++ (close_line ∷ answer_lines parts tail)))))

pub block_of : Part → Block
block_of p = record { file = p.file; search = join p.found; replace = join p.given }

skip_prose :
    (prose rest : List Text)
    → All IsProse prose
    → parse_lines outside (prose ++ rest) ≡ parse_lines outside rest
unfolding parse_lines
skip_prose [] rest h = refl
skip_prose (l ∷ prose) rest h = rw (parse_lines, h.0.no_start) (skip_prose prose rest h.1)

read_found :
    (file : Option Text) (acc found rest : List Text)
    → All IsBody found
    → parse_lines (in_search file acc) (found ++ rest)
      ≡ parse_lines (in_search file (acc ++ found)) rest
unfolding parse_lines
read_found file acc [] rest h = rw append-nil refl
read_found file acc (l ∷ found) rest h =
    rw (parse_lines, h.0.no_divider, h.0.no_start)
      (read_found file (acc ++ l ∷ []) found rest h.1 ∙ rw append_assoc refl)

read_given :
    (file : Option Text) (found acc given rest : List Text)
    → All IsGiven given
    → parse_lines (in_replace file found acc) (given ++ rest)
      ≡ parse_lines (in_replace file found (acc ++ given)) rest
unfolding parse_lines
read_given file found acc [] rest h = rw append-nil refl
read_given file found acc (l ∷ given) rest h =
    rw (parse_lines, h.0.no_end)
      (read_given file found (acc ++ l ∷ []) given rest h.1 ∙ rw append_assoc refl)

open-step :
    (p : Part) (rest : List Text)
    → IsClean p
    → parse_lines outside (open_line p.file ∷ rest) ≡ parse_lines (in_search p.file []) rest
unfolding parse_lines
open-step p rest h = rw (parse_lines, search_marker-open p.file h.path) refl

divide-step :
    (file : Option Text) (found rest : List Text)
    → parse_lines (in_search file found) (divider_line ∷ rest)
      ≡ parse_lines (in_replace file found []) rest
unfolding parse_lines
divide-step file found rest = refl

close-step :
    (file : Option Text) (found given rest : List Text)
    → parse_lines (in_replace file found given) (close_line ∷ rest)
      ≡ record { file = file; search = join found; replace = join given } ∷ parse_lines outside rest
unfolding parse_lines
close-step file found given rest = rw (parse_lines, close_is_replace) refl

-- One part is read as its block.
read_part :
    (p : Part) (rest : List Text)
    → IsClean p
    → parse_lines outside (
        p.prose
        ++ (open_line p.file ∷ (p.found ++ (divider_line ∷ (p.given ++ (close_line ∷ rest))))))
      ≡ block_of p ∷ parse_lines outside rest
unfolding block_of
read_part p rest h = skip_prose p.prose _ h.prose ∙ start ∙ found ∙ divide ∙ given ∙ close
  where
    start :
        parse_lines outside
          (open_line p.file ∷ (p.found ++ (divider_line ∷ (p.given ++ (close_line ∷ rest)))))
        ≡ parse_lines
            (in_search p.file [])
            (p.found ++ (divider_line ∷ (p.given ++ (close_line ∷ rest))))
    start = open-step p _ h

    found :
        parse_lines
          (in_search p.file [])
          (p.found ++ (divider_line ∷ (p.given ++ (close_line ∷ rest))))
        ≡ parse_lines (in_search p.file p.found) (divider_line ∷ (p.given ++ (close_line ∷ rest)))
    found = read_found p.file [] p.found _ h.found

    divide :
        parse_lines (in_search p.file p.found) (divider_line ∷ (p.given ++ (close_line ∷ rest)))
        ≡ parse_lines (in_replace p.file p.found []) (p.given ++ (close_line ∷ rest))
    divide = divide-step p.file p.found _

    given :
        parse_lines (in_replace p.file p.found []) (p.given ++ (close_line ∷ rest))
        ≡ parse_lines (in_replace p.file p.found p.given) (close_line ∷ rest)
    given = read_given p.file p.found [] p.given _ h.given

    close :
        parse_lines (in_replace p.file p.found p.given) (close_line ∷ rest)
        ≡ record { file = p.file; search = join p.found; replace = join p.given }
          ∷ parse_lines outside rest
    close = close-step p.file p.found p.given rest

answer_parsed :
    (parts : List Part) (tail : List Text)
    → All IsClean parts
    → All IsProse tail
    → parse_lines outside (answer_lines parts tail) ≡ map block_of parts
unfolding answer_lines parse_lines
answer_parsed [] tail h t = ap (parse_lines outside) (sym (append-nil tail)) ∙ skip_prose tail [] t
answer_parsed (p ∷ parts) tail h t =
    read_part p (answer_lines parts tail) h.0
    ∙ ap (λ bs. block_of p ∷ bs) (answer_parsed parts tail h.1 t)

divider-IsLine : IsLine divider_line
unfolding is_break
divider-IsLine = ground arith

close-IsLine : IsLine close_line
unfolding close_line is_break
close-IsLine = ground arith

answer-IsLine :
    (parts : List Part) (tail : List Text)
    → All IsClean parts
    → All IsProse tail
    → All IsLine (answer_lines parts tail)
unfolding answer_lines close_line
answer-IsLine [] tail h t = All-map IsProse IsLine tail (λ l p. p.line) t
answer-IsLine (p ∷ parts) tail h t =
    All-append IsLine p.prose _ (All-map IsProse IsLine p.prose (λ l q. q.line) h.0.prose) (
      h.0.path_line,
      All-append IsLine p.found _ (All-map IsBody IsLine p.found (λ l q. q.line) h.0.found) (
        divider-IsLine,
        All-append IsLine p.given _ (All-map IsGiven IsLine p.given (λ l q. q.line) h.0.given)
            (close-IsLine, answer-IsLine parts tail h.1 t),
      ),
    )

-- The parser reads back what the prompt's format expresses. An answer of any number of blocks, with
-- prose before, between and behind them, gives exactly these blocks, in order, with their path or
-- none and their two bodies unchanged, provided that no line of prose starts a block, no body to find
-- holds a divider or a start, no body to insert holds an end marker, and a path has no space at its ends.
pub parse_blocks_roundtrip :
    (parts : List Part) (tail : List Text)
    → All IsClean parts
    → All IsProse tail
    → parse_blocks (unlines (answer_lines parts tail)) ≡ map block_of parts
unfolding parse_blocks
parse_blocks_roundtrip parts tail h t =
    ap (parse_lines outside)
      (splitlines-unlines (answer_lines parts tail) (answer-IsLine parts tail h t))
    ∙ answer_parsed parts tail h t
