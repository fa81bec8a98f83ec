-- ===== src/SearchReplace/Edits.antt =====
-- What a block does to the content of its file (edit_content, the body of apply_blocks in
-- scripts/search_replace.py).
use tig_swarm_demo.Prelude.{
  ℕ, suc, ◌+◌, ◌<◌, ◌≡◌, inl, inr, refl, sym, ap, ◌∙◌, List, [], ◌∷◌, ◌++◌, arith, IsIn, length,
  take, drop, subst,
}
use tig_swarm_demo.SearchReplace.Text.{Text, splitlines}
use tig_swarm_demo.SearchReplace.Parse.{Block}
use tig_swarm_demo.SearchReplace.Apply.{
  Edit, edited, missed, ambiguous, exact_spans, fuzzy_line_spans, splice, exact_edit, fuzzy_edit,
  edit_content,
}
use tig_swarm_demo.SearchReplace.Spans.{
  Occurs, exact_spans_sound, exact_spans_complete, exact_spans_distinct,
}

take_before : (pre rest : Text) → take (length pre) (pre ++ rest) ≡ pre
take_before [] rest = refl
take_before (c ∷ pre) rest = ap (λ t. c ∷ t) (take_before pre rest)

drop_past :
    (pre mid rest : Text) (n : ℕ)
    → n ≡ length pre + length mid
    → drop n (pre ++ (mid ++ rest)) ≡ rest
drop_past [] [] rest n e =
    subst (λ k. drop k rest ≡ rest) (let z : 0 ≡ n = omega (arith, e) in z) refl
drop_past [] (c ∷ mid) rest n e =
    subst (λ k. drop k (c ∷ (mid ++ rest)) ≡ rest)
      (let z : suc (length mid) ≡ n = omega (arith, e) in z)
      (drop_past [] mid rest (length mid) (omega arith))
drop_past (c ∷ pre) mid rest n e =
    subst (λ k. drop k (c ∷ (pre ++ (mid ++ rest))) ≡ rest)
      (let z : suc (length pre + length mid) ≡ n = omega (arith, e) in z)
      (drop_past pre mid rest (length pre + length mid) refl)

splice-Occurs :
    (content search replace pre post : Text)
    → Occurs search content pre post
    → splice content search replace (length pre) ≡ pre ++ (replace ++ post)
unfolding splice
splice-Occurs content search replace pre post e =
    rw e (rw (take_before, drop_past pre search post (length pre + length search) refl) refl)

-- The three ways in which the search text may stand in the content, and what the block does there.
pub data Located (content : Text) (b : Block) : Edit → Type 0 where
  once :
      (pre post : Text)
      → Occurs b.search content pre post
      → ((pre' post' : Text) → Occurs b.search content pre' post' → length pre' ≡ length pre)
      → Located content b (edited (pre ++ (b.replace ++ post)))
  several :
      (pre post pre' post' : Text)
      → Occurs b.search content pre post
      → Occurs b.search content pre' post'
      → length pre < length pre'
      → Located content b (missed ambiguous)
  nowhere :
      ((pre post : Text) → ¬ Occurs b.search content pre post)
      → Located content b (fuzzy_edit content b (fuzzy_line_spans (splitlines content) b.search))

module _ (content : Text) (b : Block) where
  only_span :
      (i : ℕ)
      → exact_spans 0 content b.search ≡ i ∷ []
      → (pre post : Text) → Occurs b.search content pre post
      → length pre ≡ i
  only_span i e pre post o = found (
      subst (λ spans. IsIn (length pre) spans) e
        (exact_spans_complete 0 content b.search pre post (length pre) o (omega arith)))
    where
      found : IsIn (length pre) (i ∷ []) → length pre ≡ i
      found (inl same) = same
      found (inr no_more) = absurd no_more

  edit-Located :
      (spans : List ℕ)
      → exact_spans 0 content b.search ≡ spans
      → Located content b (exact_edit content b spans)
  edit-Located [] e = nowhere (λ pre post o.
      subst (λ spans. IsIn (length pre) spans) e
        (exact_spans_complete 0 content b.search pre post (length pre) o (omega arith)))
  edit-Located (i ∷ []) e =
      let (pre, post, o, at) = exact_spans_sound 0 content b.search i (rw e (inl refl)) in
      subst (λ x. Located content b (edited x))
        (sym (splice-Occurs content b.search b.replace pre post o)
          ∙ ap (splice content b.search b.replace) (only_span i e pre post o))
        (once pre post o
          (λ pre' post' o'. only_span i e pre' post' o' ∙ sym (only_span i e pre post o)))
  edit-Located (i ∷ j ∷ spans) e =
      let (pre, post, o, at) = exact_spans_sound 0 content b.search i (rw e (inl refl)) in
      let (pre', post', o', at') = exact_spans_sound 0 content b.search j (rw e (inr (inl refl))) in
      several pre post pre' post' o o'
        (omega (arith, exact_spans_distinct 0 content b.search i j spans e))

  -- An exact edit is never guessed. If the search text occurs exactly once, then that occurrence is
  -- replaced and the text around it kept; if it occurs at two places, overlapping ones included, the block
  -- is missed as ambiguous; only if it occurs nowhere is the match by lines tried, which applies the block
  -- at one span, and misses it at none or several.
  pub edit_content_lem : Located content b (edit_content content b)
  unfolding edit_content
  edit_content_lem = edit-Located (exact_spans 0 content b.search) refl
