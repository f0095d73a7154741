-- ===== src/Blob/Keys.antt =====
-- Different objects have different hashed texts, and different hashes different paths.
use fx.Prelude.{ℕ, zero, suc, ◌%◌, ◌<◌, ◌≡◌, refl, ap, sym, ◌∙◌, [], ◌∷◌, ◌++◌, length, arith}
use fx.Blob.{Bytes, be_bytes, hashed, take, drop, FilePath, key_path}

-- Texts of one length before others determine where they end.
split-append : (a b k l : Bytes) → length a ≡ length b → a ++ k ≡ b ++ l → (a ≡ b) × (k ≡ l)
split-append [] [] k l n h = (refl, h)
split-append [] (y ∷ b) k l n h = absurd (omega arith)
split-append (x ∷ a) [] k l n h = absurd (omega arith)
split-append (x ∷ a) (y ∷ b) k l n h = ground (arith, h, split-append a b k l)

be_bytes-injective : (m n : ℕ) → m < 4294967296 → n < 4294967296 → be_bytes m ≡ be_bytes n → m ≡ n
be_bytes-injective m n hm hn h = ground (arith, h)

-- What is hashed for an object determines its bucket and its key, where the names of the buckets are
-- shorter than 4 GiB: the name stands behind its length.
pub hashed-injective :
    (bucket other key key' : Bytes)
    → length bucket < 4294967296
    → length other < 4294967296
    → hashed bucket key ≡ hashed other key'
    → (bucket ≡ other) × (key ≡ key')
unfolding hashed
hashed-injective bucket other key key' hb ho h =
    split-append bucket other key key' same_length (outer.1)
  where
    outer :
        (be_bytes (length bucket % 4294967296) ≡ be_bytes (length other % 4294967296))
        × (bucket ++ key ≡ other ++ key')
    outer =
        split-append (be_bytes (length bucket % 4294967296)) (be_bytes (length other % 4294967296))
          (bucket ++ key) (other ++ key') refl h

    same_length : length bucket ≡ length other
    same_length = omega (
      arith,
      be_bytes-injective (length bucket % 4294967296) (length other % 4294967296) (omega arith)
          (omega arith) outer.0,
    )

take-drop : (n : ℕ) (xs : Bytes) → take n xs ++ drop n xs ≡ xs
take-drop zero xs = refl
take-drop (suc n) [] = refl
take-drop (suc n) (x ∷ xs) = ap (λ ys. x ∷ ys) (take-drop n xs)

drop-drop : (xs : Bytes) → drop 2 (drop 2 xs) ≡ drop 4 xs
drop-drop [] = refl
drop-drop (x ∷ []) = refl
drop-drop (x ∷ y ∷ xs) = refl

joined : FilePath → Bytes
joined p = p.0.0 ++ (p.0.1 ++ p.1)

joined-key_path : (h : Bytes) → joined (key_path h) ≡ h
unfolding joined key_path
joined-key_path h =
    ap (λ r. take 2 h ++ (take 2 (drop 2 h) ++ r)) (sym (drop-drop h))
    ∙ ap (λ r. take 2 h ++ r) (take-drop 2 (drop 2 h))
    ∙ take-drop 2 h

pub key_path-injective : (h k : Bytes) → key_path h ≡ key_path k → h ≡ k
key_path-injective h k p = sym (joined-key_path h) ∙ ap joined p ∙ joined-key_path k
