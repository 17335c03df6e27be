-- ===== src/DocSearch/Matches.antt =====
-- Which rows a search of docs/docs_output/html/search/search.js shows for a word.
use Prim.Native.String.{[], ◌∷◌}
use cherry_recorder_server.Prelude.{
  ℕ, String, code, true, ◌||◌, ◌&&◌, ◌==◌, leb, ◌⧺◌, ◌≡◌, ◌≢◌, ◌↔◌, refl, ap, arith, ◌∙◌, some,
  Option-cases, inl, inr, subst, sym,
}
use cherry_recorder_server.DocSearch.Cookie.{strip_prefix, strip_prefix-append}
use cherry_recorder_server.HttpSession.Answers.{strip_prefix-some}
use cherry_recorder_server.Json.{is_some}
use cherry_recorder_server.DocSearch.Ids.{
  convert_to_id, strip_leading, strip_trailing, strip_row_prefix,
}
use cherry_recorder_server.DocSearch.Rows.{
  Row, Results, starts_with, search_id, search, get_row, is_shown, count_shown, search-rows,
}

starts_with-strip_prefix : (p s : String) → starts_with p s ≡ is_some (strip_prefix p s)
unfolding starts_with strip_prefix
starts_with-strip_prefix [] s = refl
starts_with-strip_prefix (c ∷ p) [] = refl
starts_with-strip_prefix (c ∷ p) (d ∷ s) = ground (arith, starts_with-strip_prefix p s)

starts_with_iff : (p s : String) → (starts_with p s ≡ true) ↔ ((rest : String) × (s ≡ p ⧺ rest))
starts_with_iff p s = (
  λ e. elim (Option-cases (strip_prefix p s)) [
    | inl missing ↦ absurd (ground (arith, e, missing, starts_with-strip_prefix p s))
    | inr (rest, here) ↦ (rest, strip_prefix-some p s rest here)
  ],
  λ (rest, parts). starts_with-strip_prefix p s ∙ rw (parts, strip_prefix-append p rest) refl,
)

-- Small letters and digits
abbrev pub IsWord : String → Type 0
IsWord [] = Unit
IsWord (c ∷ s) =
    ((leb 97 (code c) && leb (code c) 122 || leb 48 (code c) && leb (code c) 57) ≡ true) × IsWord s

convert_to_id-word : (s : String) → IsWord s → convert_to_id s ≡ s
unfolding convert_to_id
convert_to_id-word [] h = refl
convert_to_id-word (c ∷ s) (p, h) = ground (arith, p, convert_to_id-word s h)

strip_leading-word : (s : String) → IsWord s → strip_leading s ≡ s
unfolding strip_leading
strip_leading-word [] h = refl
strip_leading-word (c ∷ s) (p, h) = ground (arith, p)

strip_trailing-word : (s : String) → IsWord s → strip_trailing s ≡ s
unfolding strip_trailing
strip_trailing-word [] h = refl
strip_trailing-word (c ∷ s) (p, h) = ground (arith, p, strip_trailing-word s h)

module _ (to_lower_case : String → String) where
  search_id-word :
      (text : String)
      → IsWord text
      → to_lower_case text ≡ text
      → search_id to_lower_case text ≡ text
  search_id-word text word small =
      rw (strip_leading-word text word, strip_trailing-word text word, small)
        (convert_to_id-word text word)

  -- After a search for a word of small letters and digits, which the change to lower case leaves as it
  -- is, a row is shown exactly if what follows the prefix in its id begins with the word; the match
  -- count is the number of the rows shown, and the message that nothing matches is shown exactly if
  -- there are none.
  pub search-matches :
      (query text : String) (r : Results) (i : ℕ) (row : Row)
      → text ≢ ""
      → IsWord text
      → to_lower_case text ≡ text
      → get_row i r.rows ≡ some row
      → ((is_shown (get_row i (search to_lower_case query text r).rows) ≡ true)
          ↔ ((rest : String) × (strip_row_prefix (to_lower_case row.id) ≡ text ⧺ rest)))
        × ((search to_lower_case query text r).last_match_count
            ≡ count_shown (search to_lower_case query text r).rows)
        × ((search to_lower_case query text r).no_matches
            ≡ (count_shown (search to_lower_case query text r).rows == 0))
  search-matches query text r i row named word small e =
      let (found, count, none_found) = search-rows to_lower_case query text r i row named e in
      let same = search_id-word text word small in
      let shown : is_shown (get_row i (search to_lower_case query text r).rows)
          ≡ starts_with text (strip_row_prefix (to_lower_case row.id)) =
        ap is_shown found
        ∙ ap (λ t. starts_with t (strip_row_prefix (to_lower_case row.id))) same in
      (
        subst
            (λ b.
              (b ≡ true)
              ↔ ((rest : String) × (strip_row_prefix (to_lower_case row.id) ≡ text ⧺ rest)))
            (sym shown) (starts_with_iff text (strip_row_prefix (to_lower_case row.id))),
        count,
        none_found,
      )
