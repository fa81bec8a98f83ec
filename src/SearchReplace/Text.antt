-- ===== src/SearchReplace/Text.antt =====
-- What scripts/search_replace.py uses of Python's str, on the code points of a text.
use tig_swarm_demo.Prelude.{
  ℕ, Bool, true, false, ◌&&◌, ◌||◌, Option, none, some, List, [], ◌∷◌, ◌++◌, ◌==◌, leb,
}
use mathlib.Core.List.{reverse}

abbrev pub Text : Type 0
Text = List ℕ

abbrev pub newline : ℕ
newline = 10

-- str.isspace of one character
unfoldable pub is_space : ℕ → Bool
is_space c =
    leb 9 c && leb c 13
    || leb 28 c && leb c 32
    || c == 133
    || c == 160
    || c == 5760
    || leb 8192 c && leb c 8202
    || c == 8232
    || c == 8233
    || c == 8239
    || c == 8287
    || c == 12288

-- the line boundaries of str.splitlines
unfoldable pub is_break : ℕ → Bool
is_break c = leb 10 c && leb c 13 || leb 28 c && leb c 30 || c == 133 || c == 8232 || c == 8233

unfoldable pub lstrip : (ℕ → Bool) → Text → Text
lstrip p [] = []
lstrip p (c ∷ t) = elim (p c) [ true ↦ lstrip p t | false ↦ c ∷ t ]

unfoldable pub rstrip : (ℕ → Bool) → Text → Text
unfolding lstrip
rstrip p t = reverse (lstrip p (reverse t))

unfoldable pub strip : Text → Text
unfolding rstrip lstrip is_space
strip t = rstrip is_space (lstrip is_space t)

abbrev pub is_empty {ℓ} : {A : Type ℓ} → List A → Bool
is_empty [] = true
is_empty (x ∷ xs) = false

-- `==` of two texts, and of two lists of texts
unfoldable pub eq_text : Text → Text → Bool
eq_text [] [] = true
eq_text (a ∷ s) (b ∷ t) = a == b && eq_text s t
eq_text _ _ = false

-- what follows a prefix
unfoldable pub after_prefix : Text → Text → Option Text
after_prefix [] t = some t
after_prefix (a ∷ s) [] = none
after_prefix (a ∷ s) (b ∷ t) = elim (a == b) [ true ↦ after_prefix s t | false ↦ none ]

-- str.splitlines, with the line read so far; the flag says that a carriage return has just ended a
-- line, so that a line feed belongs to it
unfoldable pub lines_from : Bool → Text → Text → List Text
unfolding is_break
lines_from after_cr [] [] = []
lines_from after_cr (c ∷ cur) [] = (c ∷ cur) ∷ []
lines_from after_cr cur (c ∷ t) = elim (after_cr && c == newline) [
  | true ↦ lines_from false cur t
  | false ↦ (elim (is_break c) [
    | true ↦ cur ∷ lines_from (c == 13) [] t
    | false ↦ lines_from false (cur ++ c ∷ []) t
  ])
]

unfoldable pub splitlines : Text → List Text
unfolding lines_from
splitlines t = lines_from false [] t

-- "\n".join
unfoldable pub join : List Text → Text
join [] = []
join (l ∷ []) = l
join (l ∷ m ∷ lines) = l ++ (newline ∷ join (m ∷ lines))

-- str.split("/")[-1]
unfoldable pub basename_from : Text → Text → Text
basename_from cur [] = cur
basename_from cur (c ∷ t) = elim (c == b'/') [
  | true ↦ basename_from [] t
  | false ↦ basename_from (cur ++ c ∷ []) t
]

unfoldable pub basename : Text → Text
unfolding basename_from
basename t = basename_from [] t

-- str.endswith("\n")
unfoldable pub ends_with_newline : Text → Bool
ends_with_newline [] = false
ends_with_newline (c ∷ []) = c == newline
ends_with_newline (c ∷ d ∷ t) = ends_with_newline (d ∷ t)
