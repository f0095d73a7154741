-- ===== src/Metrics/Encode/Reading.antt =====
-- A reader of quoted label values gets back what was escaped, fx-runtime/src/effects/metrics.rs.
use mathlib.Core.Option
use fx.Prelude.{
  nat_eq, ℕ, Bool, true, false, ◌&&◌, ◌||◌, Option, none, some, [], ◌∷◌, ◌++◌, ◌==◌, ==_iff,
  if◌then◌else◌, ◌≡◌, ◌↔◌, refl, ap, arith, Bool-cases, inl, inr,
}
use fx.Metrics.Encode.{
  Text, replace, escape_label_value, sanitize_metric_name, is_ascii_alphabetic, is_ascii_digit,
}

-- The character that a backslash and `c` stand for.
abbrev escaped : ℕ → ℕ
escaped c = if c == 110 then 10 else c

-- A quoted value of the exposition format, its opening quote read: the value up to the closing
-- quote, and what follows. A line feed or the end of the text inside the quotes is an error; the
-- flag tells whether a backslash was read last.
unfoldable pub read_from : Bool → Text → Option (Text × Text)
read_from b [] = none
read_from true (y ∷ s) = Option.map (λ r. (escaped y ∷ r.0, r.1)) (read_from false s)
read_from false (x ∷ s) =
    let plain = read_from false s in
    let after = read_from true s in
    if x == 34
    then some ([], s)
    else if x == 92
    then after
    else if x == 10
    then none
    else Option.map (λ r. (x ∷ r.0, r.1)) plain

abbrev pub read_value : Text → Option (Text × Text)
read_value = read_from false

abbrev escape_char : ℕ → Text
escape_char c =
    if c == 92
    then 92 ∷ 92 ∷ []
    else if c == 34
    then 92 ∷ 34 ∷ []
    else if c == 10
    then 92 ∷ 110 ∷ []
    else c ∷ []

escape-∷ : (c : ℕ) (s : Text) → escape_label_value (c ∷ s) ≡ escape_char c ++ escape_label_value s
unfolding escape_label_value replace
escape-∷ c s = elim (Bool-cases (c == 92)) [
  | inl p ↦ ground (arith, ==_iff c 92)
  | inr p ↦ ground (arith, ==_iff c 34, ==_iff c 10)
]

read-escape_char :
    (c : ℕ) (s rest : Text) (tail : Text)
    → read_from false tail ≡ some (s, rest)
    → read_from false (escape_char c ++ tail) ≡ some (c ∷ s, rest)
unfolding read_from
read-escape_char c s rest tail h = elim (Bool-cases (c == 92)) [
  | inl p ↦ ground (arith, ==_iff c 92)
  | inr p ↦ elim (Bool-cases (c == 34)) [
    | inl q ↦ ground (arith, ==_iff c 34)
    | inr q ↦ ground (arith, ==_iff c 10)
  ]
]

append_assoc : (xs ys zs : Text) → (xs ++ ys) ++ zs ≡ xs ++ (ys ++ zs)
append_assoc [] ys zs = refl
append_assoc (x ∷ xs) ys zs = ap (λ l. x ∷ l) (append_assoc xs ys zs)

-- A label's value, escaped and closed by a quote, is read back as it was, and the reader goes on
-- with exactly what follows: no value can end its quotes, or its line, early.
pub read_value-escape :
    (s rest : Text) → read_value (escape_label_value s ++ 34 ∷ rest) ≡ some (s, rest)
unfolding read_from escape_label_value replace
read_value-escape [] rest = refl
read_value-escape (c ∷ s) rest =
    rw (escape-∷ c s, append_assoc (escape_char c) (escape_label_value s) (34 ∷ rest))
      (read-escape_char c s rest _ (read_value-escape s rest))

-- A character that the format allows in a metric's name.
abbrev pub is_name_char : ℕ → Bool
is_name_char c = (is_ascii_alphabetic c || is_ascii_digit c) || (c == 95 || c == 58)

pub all : (ℕ → Bool) → Text → Bool
all p [] = true
all p (c ∷ s) = p c && all p s

-- A sanitized name has characters only that the format allows, and a name that had no others is
-- kept as it is.
pub sanitize_metric_name_lem :
    (s : Text)
    → (all is_name_char (sanitize_metric_name s) ≡ true)
      × ((sanitize_metric_name s ≡ s) ↔ (all is_name_char s ≡ true))
unfolding sanitize_metric_name all
sanitize_metric_name_lem [] = ground arith
sanitize_metric_name_lem (c ∷ s) = elim (Bool-cases (is_name_char c)) [
  | inl p ↦ ground (arith, sanitize_metric_name_lem s)
  | inr p ↦ ground (arith, sanitize_metric_name_lem s, ==_iff c 95)
]
