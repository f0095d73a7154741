-- ===== src/Metrics/Encode.antt =====
-- The text of the metrics' labels, `append_metric_labels` and the functions it calls in
-- fx-runtime/src/effects/metrics.rs. A text is the list of its characters, as code points.
pub mod Reading
use fx.Prelude.{
  nat_eq, ℕ, ◌+◌, Bool, true, false, not, ◌&&◌, ◌||◌, List, [], ◌∷◌, ◌++◌, ◌==◌, if◌then◌else◌, leb,
  map,
}

abbrev pub Text : Type 0
Text = List ℕ

abbrev pub is_ascii_alphabetic : ℕ → Bool
is_ascii_alphabetic c = (leb 65 c && leb c 90) || (leb 97 c && leb c 122)

abbrev pub is_ascii_digit : ℕ → Bool
is_ascii_digit c = leb 48 c && leb c 57

-- `_` and `:`
unfoldable pub sanitize_metric_name : Text → Text
sanitize_metric_name s =
    map (λ c. if (is_ascii_alphabetic c || is_ascii_digit c) || (c == 95 || c == 58) then c else 95)
      s

-- The characters from position `i` on.
unfoldable pub sanitize_label_from : ℕ → Text → Text
sanitize_label_from i [] = []
sanitize_label_from i (c ∷ s) =
    (if (is_ascii_alphabetic c || c == 95) || (not (i == 0) && is_ascii_digit c) then c else 95)
    ∷ sanitize_label_from (i + 1) s

unfoldable pub sanitize_label_name : Text → Text
unfolding sanitize_label_from
sanitize_label_name s = sanitize_label_from 0 s

-- `str::replace` of a character.
unfoldable pub replace : ℕ → Text → Text → Text
replace c by [] = []
replace c by (x ∷ s) = if x == c then by ++ replace c by s else x ∷ replace c by s

-- Backslashes, then quotes, then line feeds.
unfoldable pub escape_label_value : Text → Text
unfolding replace
escape_label_value s =
    replace 10 (92 ∷ 110 ∷ []) (replace 34 (92 ∷ 34 ∷ []) (replace 92 (92 ∷ 92 ∷ []) s))

-- The labels from position `index` on.
unfoldable pub append_labels_from : ℕ → Text → List (Text × Text) → Text
unfolding sanitize_label_name escape_label_value
append_labels_from index output [] = output
append_labels_from index output ((key, value) ∷ labels) =
    append_labels_from (index + 1)
      (output
        ++ ((if index == 0 then [] else 44 ∷ [])
            ++ (sanitize_label_name key ++ (61 ∷ 34 ∷ (escape_label_value value ++ 34 ∷ [])))))
      labels

unfoldable pub append_metric_labels : Text → List (Text × Text) → Text
unfolding append_labels_from
append_metric_labels output [] = output
append_metric_labels output (l ∷ labels) =
    append_labels_from 0 (output ++ 123 ∷ []) (l ∷ labels) ++ 125 ∷ []
