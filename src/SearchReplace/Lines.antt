-- ===== src/SearchReplace/Lines.antt =====
-- Lines that are written with a line feed each are read back by splitlines, and the markers that the
-- prompt asks for are recognised (scripts/search_replace.py).
use tig_swarm_demo.Prelude.{
  ℕ, ◌≡◌, refl, ap, ◌∙◌, Bool, true, false, Option, none, some, List, [], ◌∷◌, ◌++◌, arith, All,
}
use mathlib.Core.List.{append_assoc, append-nil, reverse, reverse-reverse}
use tig_swarm_demo.SearchReplace.Text.{
  Text, newline, is_break, is_space, is_empty, lstrip, rstrip, strip, lines_from, splitlines,
  after_prefix,
}
use tig_swarm_demo.SearchReplace.Parse.{
  is_blank, after_run, run_of, file_of, search_marker, search_word, replace_word, is_divider,
  is_replace,
}

abbrev pub IsLine : Text → Type 0
IsLine l = All (λ c. is_break c ≡ false) l

-- each line with its line feed
abbrev pub unlines : List Text → Text
unlines [] = []
unlines (l ∷ lines) = l ++ (newline ∷ unlines lines)

lines_from-line :
    (cur l t : Text)
    → IsLine l
    → lines_from false cur (l ++ (newline ∷ t)) ≡ (cur ++ l) ∷ lines_from false [] t
unfolding lines_from is_break
lines_from-line [] [] t h = refl
lines_from-line (x ∷ cur) [] t h = rw append-nil refl
lines_from-line [] (c ∷ l) t h = rw (lines_from, h.0) (lines_from-line (c ∷ []) l t h.1)
lines_from-line (x ∷ cur) (c ∷ l) t h =
    rw (lines_from, h.0) (lines_from-line (x ∷ (cur ++ c ∷ [])) l t h.1 ∙ rw append_assoc refl)

pub splitlines-unlines : (lines : List Text) → All IsLine lines → splitlines (unlines lines) ≡ lines
unfolding splitlines lines_from
splitlines-unlines [] h = refl
splitlines-unlines (l ∷ lines) h =
    lines_from-line [] l (unlines lines) h.0 ∙ ap (λ ls. l ∷ ls) (splitlines-unlines lines h.1)

-- A text with a first character, which the predicate does not hold of.
abbrev pub Begins : (ℕ → Bool) → Text → Type 0
Begins p [] = ⊥
Begins p (c ∷ t) = p c ≡ false

lstrip_id : (p : ℕ → Bool) (t : Text) → Begins p t → lstrip p t ≡ t
unfolding lstrip
lstrip_id p [] h = absurd h
lstrip_id p (c ∷ t) h = rw (lstrip, h) refl

-- A path as a marker may hold it: not empty, and no space at either end.
pub record IsPath (f : Text) : Type 0 where
  pub start : Begins is_space f
  pub end_ : Begins is_space (reverse f)

blank_is_space : (c : ℕ) → is_space c ≡ false → is_blank c ≡ false
unfolding is_space
blank_is_space c h = ground (arith, h)

Begins-blank : (t : Text) → Begins is_space t → Begins is_blank t
Begins-blank [] h = absurd h
Begins-blank (c ∷ t) h = blank_is_space c h

rstrip_id : (p : ℕ → Bool) (t : Text) → Begins p (reverse t) → rstrip p t ≡ t
unfolding rstrip
rstrip_id p t h = rw (lstrip_id p (reverse t) h) (reverse-reverse t)

nonempty_file : (f : Text) → Begins is_space f → is_empty f ≡ false
nonempty_file [] h = absurd h
nonempty_file (c ∷ f) h = refl

file_of-path : (f : Text) → IsPath f → file_of (32 ∷ f) ≡ some f
unfolding file_of strip lstrip
file_of-path f h = rw (lstrip_id is_blank f (Begins-blank f h.start)) (
    rw (rstrip_id is_blank f (Begins-blank (reverse f) h.end_)) (
      rw (lstrip_id is_space f h.start)
        (rw (rstrip_id is_space f h.end_) (rw (nonempty_file f h.start) refl))))

abbrev pub open_marks : Text
open_marks = b'<' ∷ b'<' ∷ b'<' ∷ b'<' ∷ b'<' ∷ b'<' ∷ b'<' ∷ 32 ∷ []

-- The three marker lines of the prompt.
unfoldable pub open_line : Option Text → Text
open_line none = open_marks ++ search_word
open_line (some f) = open_marks ++ (search_word ++ (32 ∷ f))

abbrev pub divider_line : Text
divider_line = b'=' ∷ b'=' ∷ b'=' ∷ b'=' ∷ b'=' ∷ b'=' ∷ b'=' ∷ []

unfoldable pub close_line : Text
close_line = b'>' ∷ b'>' ∷ b'>' ∷ b'>' ∷ b'>' ∷ b'>' ∷ b'>' ∷ 32 ∷ replace_word

pub search_marker-open :
    (file : Option Text)
    → ((f : Text) → file ≡ some f → IsPath f)
    → search_marker (open_line file) ≡ some file
unfolding search_marker open_line after_run run_of lstrip after_prefix file_of
search_marker-open none h = refl
search_marker-open (some f) h = ap some (file_of-path f (h f refl))

pub divider_is_divider : is_divider divider_line ≡ true
unfolding is_divider
divider_is_divider = refl

pub close_is_replace : is_replace close_line ≡ true
unfolding is_replace close_line
close_is_replace = refl
