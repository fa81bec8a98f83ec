-- ===== src/ChallengeFiles/Sanitize.antt =====
-- What sanitize_source (scripts/challenge_files.py) leaves: a text that it does not change again.
use tig_swarm_demo.Prelude.{
  ℕ, ◌≡◌, ◌≢◌, ◌⊎◌, refl, ap, ◌∙◌, inl, inr, List, [], ◌∷◌, arith, ◌==◌, Bool-cases, All,
  All-append,
}
use tig_swarm_demo.SearchReplace.Text.{Text}
use tig_swarm_demo.ChallengeFiles.{
  confusables, translate_char, translate, join_crlf, replace_cr, sanitize_source,
}

-- A character that stays as it is.
abbrev pub IsPlain : ℕ → Type 0
IsPlain c = (translate_char confusables c ≡ c ∷ []) × (c ≢ 13)

abbrev IsClosed : ℕ × Text → Type 0
IsClosed (d, t) = All IsPlain t

confusables-IsClosed : All IsClosed confusables
unfolding translate_char
confusables-IsClosed = ground arith

-- A character is replaced by plain ones, or is not in the table.
translate_char-IsPlain :
    (table : List (ℕ × Text)) (c : ℕ)
    → All IsClosed table
    → All IsPlain (translate_char table c) ⊎ (translate_char table c ≡ c ∷ [])
unfolding translate_char
translate_char-IsPlain [] c h = inr refl
translate_char-IsPlain ((d, t) ∷ table) c h = elim (Bool-cases (c == d)) [
  | inl e ↦ inl (rw (translate_char, e) h.0)
  | inr e ↦ rw (translate_char, e) (translate_char-IsPlain table c h.1)
]

-- The end of the lines has no 13.
replace_cr-All : (t : Text) → All (λ c. c ≢ 13) (replace_cr t)
unfolding replace_cr
replace_cr-All [] = tt
replace_cr-All (c ∷ t) = (ground arith, replace_cr-All t)

translate-IsPlain : (t : Text) → All (λ c. c ≢ 13) t → All IsPlain (translate confusables t)
unfolding translate
translate-IsPlain [] h = tt
translate-IsPlain (c ∷ t) h =
    All-append IsPlain (translate_char confusables c) (translate confusables t) first
      (translate-IsPlain t h.1)
  where
    first : All IsPlain (translate_char confusables c)
    first = elim (translate_char-IsPlain confusables c confusables-IsClosed) [
      | inl closed ↦ closed
      | inr same ↦ rw same ((same, h.0), tt)
    ]

pub sanitize_source-IsPlain : (t : Text) → All IsPlain (sanitize_source t)
unfolding sanitize_source
sanitize_source-IsPlain t = translate-IsPlain (replace_cr (join_crlf t)) (replace_cr-All _)

join_crlf-id : (t : Text) → All IsPlain t → join_crlf t ≡ t
unfolding join_crlf
join_crlf-id [] h = refl
join_crlf-id (c ∷ []) h = refl
join_crlf-id (c ∷ d ∷ t) h = ground (arith, h.0.1, join_crlf-id (d ∷ t) h.1)

replace_cr-id : (t : Text) → All IsPlain t → replace_cr t ≡ t
unfolding replace_cr
replace_cr-id [] h = refl
replace_cr-id (c ∷ t) h = ground (arith, h.0.1, replace_cr-id t h.1)

translate-id : (t : Text) → All IsPlain t → translate confusables t ≡ t
unfolding translate
translate-id [] h = refl
translate-id (c ∷ t) h = rw (h.0.0, translate-id t h.1)

-- A text of plain characters is left alone.
pub sanitize_source-id : (t : Text) → All IsPlain t → sanitize_source t ≡ t
unfolding sanitize_source
sanitize_source-id t h =
    ap (λ s. translate confusables (replace_cr s)) (join_crlf-id t h)
    ∙ ap (translate confusables) (replace_cr-id t h)
    ∙ translate-id t h
