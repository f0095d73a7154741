-- ===== src/Abi/Labels.antt =====
-- The order in which a counter's labels are sorted, and what a sort forgets.
use Prim.Native.Nat.{Ordering, compare as compare_ℕ}
use Prim.Native.Char.{code}
use Prim.Native.String.compare
use Prim.Native.String.{compare, then, [] as nil, ◌∷◌ as ◌push◌}
use text.Mathlib.TextEquality.{path_by_compare}
use fx.Prelude.{ℕ, ◌≡◌, refl, sym, ◌∙◌, Bool, true, false, String, List, [], ◌∷◌, arith, ap}
use mathlib.Core.List.{Permᴰ}
use fx.Abi.Handlers.Services.{label_leb, place, sort, metric_key_of}

flip : Ordering → Ordering
flip Ordering.lt = Ordering.gt
flip Ordering.eq = Ordering.eq
flip Ordering.gt = Ordering.lt

number_flip : (m n : ℕ) → compare_ℕ n m ≡ flip (compare_ℕ m n)
unfolding flip
number_flip m n = ground arith

then-flip : (a b o p : Ordering) → a ≡ flip b → o ≡ flip p → then a o ≡ flip (then b p)
unfolding flip
then-flip a b o p h k = ground (arith, h, k)

text_flip : (s t : String) → compare t s ≡ flip (compare s t)
unfolding flip
text_flip nil nil = refl
text_flip nil (d push t) = compare.cons-nil d t ∙ ap flip (sym (compare.nil-cons d t))
text_flip (c push s) nil = compare.nil-cons c s ∙ ap flip (sym (compare.cons-nil c s))
text_flip (c push s) (d push t) =
    compare.cons-cons d c t s
    ∙ then-flip _ _ _ _ (number_flip (code c) (code d)) (text_flip s t)
    ∙ ap flip (sym (compare.cons-cons c d s t))

-- How three comparisons of an order go together.
abbrev Chain : Ordering → Ordering → Ordering → Type 0
Chain Ordering.lt Ordering.lt Ordering.lt = Unit
Chain Ordering.lt Ordering.lt _ = ⊥
Chain Ordering.gt Ordering.gt Ordering.gt = Unit
Chain Ordering.gt Ordering.gt _ = ⊥
Chain Ordering.eq p q = p ≡ q
Chain o Ordering.eq q = o ≡ q
Chain Ordering.lt Ordering.gt q = Unit
Chain Ordering.gt Ordering.lt q = Unit

number_Chain : (l m n : ℕ) → Chain (compare_ℕ l m) (compare_ℕ m n) (compare_ℕ l n)
number_Chain l m n = ground arith

then-Chain :
    (a b c o p q : Ordering) → Chain a b c → Chain o p q → Chain (then a o) (then b p) (then c q)
then-Chain a b c o p q h k = ground (arith, h, k)

text_Chain : (s t u : String) → Chain (compare s t) (compare t u) (compare s u)
text_Chain nil nil nil = refl
text_Chain nil nil (e push u) = rw (compare.nil-cons e u) refl
text_Chain nil (d push t) nil = rw (compare.nil-cons d t, compare.cons-nil d t) tt
text_Chain nil (d push t) (e push u) = ground (arith, compare.nil-cons d t, compare.nil-cons e u)
text_Chain (c push s) nil nil = rw (compare.cons-nil c s) refl
text_Chain (c push s) nil (e push u) = rw (compare.cons-nil c s, compare.nil-cons e u) tt
text_Chain (c push s) (d push t) nil = ground (arith, compare.cons-nil c s, compare.cons-nil d t)
text_Chain (c push s) (d push t) (e push u) =
    rw (compare.cons-cons c d s t, compare.cons-cons d e t u, compare.cons-cons c e s u)
      (then-Chain _ _ _ _ _ _ (number_Chain (code c) (code d) (code e)) (text_Chain s t u))

-- Labels, by their names and then their values.
label_compare : String × String → String × String → Ordering
label_compare x y = then (compare x.0 y.0) (compare x.1 y.1)

label_flip : (x y : String × String) → label_compare y x ≡ flip (label_compare x y)
unfolding label_compare
label_flip x y = then-flip _ _ _ _ (text_flip x.0 y.0) (text_flip x.1 y.1)

label_Chain :
    (x y z : String × String) → Chain (label_compare x y) (label_compare y z) (label_compare x z)
unfolding label_compare
label_Chain x y z = then-Chain _ _ _ _ _ _ (text_Chain x.0 y.0 z.0) (text_Chain x.1 y.1 z.1)

label_eq : (x y : String × String) → label_compare x y ≡ Ordering.eq → x ≡ y
unfolding label_compare
label_eq x y h = ground (arith, path_by_compare x.0 y.0, path_by_compare x.1 y.1)

is_le : Ordering → Bool
is_le Ordering.gt = false
is_le _ = true

label_leb-compare : (x y : String × String) → label_leb x y ≡ is_le (label_compare x y)
unfolding label_leb label_compare is_le
label_leb-compare x y = ground arith

place_comm :
    (x y : String × String) (l : List (String × String)) → place x (place y l) ≡ place y (place x l)
unfolding place flip is_le
place_comm x y [] =
    ground (arith, label_leb-compare x y, label_leb-compare y x, label_flip x y, label_eq x y)
place_comm x y (z ∷ l) = ground (
  arith,
  label_leb-compare x y,
  label_leb-compare y x,
  label_leb-compare x z,
  label_leb-compare y z,
  label_flip x y,
  label_flip x z,
  label_flip y z,
  label_eq x y,
  label_Chain x y z,
  label_Chain y x z,
  place_comm x y l,
)

sort-Perm : (xs ys : List (String × String)) → Permᴰ xs ys → sort xs ≡ sort ys
unfolding sort
sort-Perm _ _ Permᴰ.nil = refl
sort-Perm (x ∷ xs) (y ∷ ys) (Permᴰ.cons e d) = ground (arith, e, sort-Perm xs ys d)
sort-Perm (x ∷ y ∷ l) (z ∷ w ∷ m) (Permᴰ.swap e f) = ground (arith, e, f, place_comm x y (sort l))
sort-Perm xs ys (Permᴰ.trans {l₂ = zs} d f) = sort-Perm xs zs d ∙ sort-Perm zs ys f

-- Two requests with the same name, whose labels are a permutation of each other, register the same
-- metric.
pub metric_key_of-Perm :
    (name : String) (xs ys : List (String × String))
    → Permᴰ xs ys
    → metric_key_of (record { name = name; labels = xs })
      ≡ metric_key_of (record { name = name; labels = ys })
unfolding metric_key_of
metric_key_of-Perm name xs ys d = ap (λ l. record { name = name; labels = l }) (sort-Perm xs ys d)
