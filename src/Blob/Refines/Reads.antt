-- ===== src/Blob/Refines/Reads.antt =====
-- What a `Get` answers, by what the index holds, and after a `Put`.
use fx.Prelude.{
  nat_eq, list_eq, pair_eq, ℕ, ◌<◌, ◌≡◌, ◌≢◌, ◌⊎◌, refl, ap, false, Option, none, some, ◌&&◌,
  Result, ok, err, length, arith, ◌==◌, ==_iff, subst, if◌then◌else◌, Option-cases, Bool-cases, inl,
  inr,
}
use fx.Prelude.Dict.{Dict, lookup, insert, lookup-insert_self}
use fx.Blob.{
  Bytes, BlobStore, BlobError, get_object, FilePath, row_of, read_file, hashed, path_eq, key_path,
  hash_key_for_object, handle_put, handle_get, blob_storage_error,
}
use fx.Blob.Keys.{key_path-injective, hashed-injective}
use fx.Blob.Refines.{no_faults, found, IsValid, buckets_after, ensured}
use fx.Blob.Refines.Laws.{
  lookup-insert_ne, store_put, hash, put-state, found-put_self, found-put_bucket, found-put_key,
}

-- What a `Get` answers, where nothing fails.
abbrev pub answer : Dict FilePath Bytes → Option Bytes → Result (Option Bytes) BlobError
answer files none = ok none
answer files (some h) = elim (lookup (key_path h) files) [
  | none ↦ err blob_storage_error
  | some value ↦ ok (some value)
]

pub get-answer :
    (s : BlobStore) (bucket key : Bytes)
    → handle_get no_faults bucket key s ≡ answer s.files (found s bucket key)
unfolding handle_get get_object row_of read_file
get-answer s bucket key = elim (Option-cases (lookup bucket s.buckets)) [
  | inl p ↦ rw p refl
  | inr (id, p) ↦ elim (Option-cases (lookup (id, key) s.objects)) [
    | inl q ↦ rw (p, q) refl
    | inr (r, q) ↦ rw (p, q) refl
  ]
]

-- The files matter only where the object's own is.
pub answer-same :
    (files files' : Dict FilePath Bytes) (h : Bytes)
    → lookup (key_path h) files ≡ lookup (key_path h) files'
    → answer files (some h) ≡ answer files' (some h)
answer-same files files' h p = rw (answer, p) refl

answer-file :
    (files : Dict FilePath Bytes) (h v : Bytes)
    → lookup (key_path h) files ≡ some v
    → answer files (some h) ≡ ok (some v)
answer-file files h v p = rw (answer, p) refl

module _ (blake3 : Bytes → Bytes) (s : BlobStore) (valid : IsValid blake3 s) where
  pub found-cases :
      (bucket key : Bytes)
      → (found s bucket key ≡ none)
        ⊎ (found s bucket key ≡ some (hash_key_for_object blake3 bucket key))
  found-cases bucket key = elim (Option-cases (lookup bucket s.buckets)) [
    | inl p ↦ inl (rw p refl)
    | inr (id, p) ↦ elim (Option-cases (lookup (id, key) s.objects)) [
      | inl q ↦ inl (rw (p, q) refl)
      | inr (r, q) ↦ inr (rw (p, q) (ap some (valid.hashes bucket id key r p q)))
    ]
  ]

  -- Where the object's own file is not touched, the answer is as before.
  answer-found :
      (bucket key hashed_key : Bytes) (value : Bytes)
      → hashed_key ≢ hash_key_for_object blake3 bucket key
      → answer (insert (key_path hashed_key) value s.files) (found s bucket key)
        ≡ answer s.files (found s bucket key)
  answer-found bucket key hashed_key value apart = elim (found-cases bucket key) [
    | inl p ↦ rw p refl
    | inr p ↦ rw p (
        answer-same (insert (key_path hashed_key) value s.files) s.files
          (hash_key_for_object blake3 bucket key)
          (lookup-insert_ne (key_path hashed_key) (key_path (hash_key_for_object blake3 bucket key))
            value s.files
            (λ same.
              apart (key_path-injective hashed_key (hash_key_for_object blake3 bucket key) same))))
  ]

  module _ (bucket key value : Bytes) where
    get-put_self :
        handle_get no_faults bucket key ((handle_put blake3 no_faults bucket key value s).0)
        ≡ ok (some value)
    get-put_self =
        let (id, h, _, _) = ensured blake3 s valid bucket in
        rw
          (
            put-state blake3 s valid bucket key value id h,
            get-answer (store_put blake3 s valid bucket key value id) bucket key,
            found-put_self blake3 s valid bucket key value id h,
          )
          (answer-file (insert (key_path (hash_key_for_object blake3 bucket key)) value s.files)
            (hash_key_for_object blake3 bucket key) value
            (lookup-insert_self (key_path (hash_key_for_object blake3 bucket key)) value s.files))

    get-put_ne :
        (other key' : Bytes)
        → ¬ ((bucket ≡ other) × (key ≡ key'))
        → hash_key_for_object blake3 bucket key ≢ hash_key_for_object blake3 other key'
        → handle_get no_faults other key' ((handle_put blake3 no_faults bucket key value s).0)
          ≡ handle_get no_faults other key' s
    get-put_ne other key' apart hashes =
        let (id, h, _, _) = ensured blake3 s valid bucket in
        rw
          (
            put-state blake3 s valid bucket key value id h,
            get-answer (store_put blake3 s valid bucket key value id) other key',
            get-answer s other key',
            found_same id h,
          )
          (answer-found other key' (hash blake3 s valid bucket key value) value hashes)
      where
        found_same :
            (id : ℕ)
            → lookup bucket (buckets_after blake3 s valid bucket) ≡ some id
            → found (store_put blake3 s valid bucket key value id) other key' ≡ found s other key'
        found_same id h = elim (Bool-cases (bucket == other)) [
          | inl p ↦
              subst
                (λ b. found (store_put blake3 s valid bucket key value id) b key' ≡ found s b key')
                ((==_iff bucket other).0 p)
                (found-put_key blake3 s valid bucket key value id h key'
                  (λ same. apart ((==_iff bucket other).0 p, same)))
          | inr p ↦
              found-put_bucket blake3 s valid bucket key value id h other key'
                (λ same. ground (arith, p, (==_iff bucket other).1 same))
        ]

    -- In a valid store, where nothing fails, a `Get` of the object that a `Put` wrote answers its
    -- value, and a `Get` of any other object answers what it did before, where the names of the two
    -- buckets are shorter than 4 GiB and the hash function does not take what is hashed for the two to
    -- one hash.
    pub get-put :
        (other key' : Bytes)
        → length bucket < 4294967296
        → length other < 4294967296
        → (hash_key_for_object blake3 bucket key ≡ hash_key_for_object blake3 other key'
            → hashed bucket key ≡ hashed other key')
        → handle_get no_faults other key' ((handle_put blake3 no_faults bucket key value s).0) ≡ (
            if (bucket == other) && (key == key')
            then ok (some value)
            else handle_get no_faults other key' s)
    get-put other key' hb ho collides = elim (Bool-cases ((bucket == other) && (key == key'))) [
      | inl p ↦ rw p (
          subst
            (λ b.
              (k : Bytes)
              → key ≡ k
              → handle_get no_faults b k ((handle_put blake3 no_faults bucket key value s).0)
                ≡ ok (some value))
            ((==_iff bucket other).0 (ground (arith, p)))
            (λ k q.
              subst
                (λ l.
                  handle_get no_faults bucket l ((handle_put blake3 no_faults bucket key value s).0)
                  ≡ ok (some value))
                q get-put_self)
            key' ((==_iff key key').0 (ground (arith, p))))
      | inr p ↦ rw p (
          get-put_ne other key' (apart p)
            (λ same. apart p (hashed-injective bucket other key key' hb ho (collides same))))
    ]
      where
        apart : ((bucket == other) && (key == key')) ≡ false → ¬ ((bucket ≡ other) × (key ≡ key'))
        apart p (q, r) = ground (arith, p, (==_iff bucket other).1 q, (==_iff key key').1 r)
