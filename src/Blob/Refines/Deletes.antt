-- ===== src/Blob/Refines/Deletes.antt =====
-- What a `Get` answers after a `Delete`.
use fx.Prelude.{
  nat_eq, list_eq, pair_eq, ℕ, ◌<◌, ◌≡◌, ◌≢◌, ◌⊎◌, refl, ap, sym, ◌∙◌, false, Option, none, some,
  ◌&&◌, ok, length, arith, ◌==◌, ==_iff, subst, if◌then◌else◌, Option-cases, Bool-cases, inl, inr,
}
use fx.Prelude.Dict.{Dict, lookup, remove}
use fx.Blob.{
  Bytes, ObjectRow, BlobStore, FilePath, path_eq, key_path, hashed, get_object, row_of, delete_row,
  delete_object, remove_file, hash_key_for_object, handle_get, handle_delete,
}
use fx.Blob.Keys.{key_path-injective, hashed-injective}
use fx.Blob.Refines.{no_faults, found, IsValid}
use fx.Blob.Refines.Laws.{lookup-remove_ne, lookup-remove_self}
use fx.Blob.Refines.Reads.{answer, get-answer, answer-same, found-cases}

-- The files once that of a hash is gone.
abbrev files_without : Bytes → Dict FilePath Bytes → Option Bytes → Dict FilePath Bytes
files_without h files none = files
files_without h files (some _) = remove (key_path h) files

module _ (s : BlobStore) (bucket key : Bytes) where
  abbrev store_without : ℕ → Bytes → BlobStore
  store_without id h = record {
    buckets = s.buckets;
    objects = remove (id, key) s.objects;
    files = files_without h s.files (lookup (key_path h) s.files);
  }

  delete_missing : found s bucket key ≡ none → (handle_delete no_faults bucket key s).0 ≡ s
  unfolding handle_delete delete_object delete_row remove_file get_object row_of
  delete_missing p = elim (Option-cases (lookup bucket s.buckets)) [
    | inl q ↦ rw q refl
    | inr (id, q) ↦ elim (Option-cases (lookup (id, key) s.objects)) [
      | inl r ↦ rw (q, r) refl
      | inr (row, r) ↦ absurd (ground (arith, p, q, r))
    ]
  ]

  delete-state :
      (id : ℕ) (row : ObjectRow)
      → lookup bucket s.buckets ≡ some id
      → lookup (id, key) s.objects ≡ some row
      → (handle_delete no_faults bucket key s).0 ≡ store_without id row.key_hash
  unfolding handle_delete delete_object delete_row remove_file get_object row_of
  delete-state id row q r = elim (Option-cases (lookup (key_path row.key_hash) s.files)) [
    | inl p ↦ rw (q, r, p) refl
    | inr (v, p) ↦ rw (q, r, p) refl
  ]

  found-row :
      (found s bucket key ≡ none)
      ⊎ ((id : ℕ) × (row : ObjectRow) × (lookup bucket s.buckets ≡ some id)
          × (lookup (id, key) s.objects ≡ some row))
  found-row = elim (Option-cases (lookup bucket s.buckets)) [
    | inl q ↦ inl (rw q refl)
    | inr (id, q) ↦ elim (Option-cases (lookup (id, key) s.objects)) [
      | inl r ↦ inl (rw (q, r) refl)
      | inr (row, r) ↦ inr (id, row, q, r)
    ]
  ]

  get-delete_self :
      handle_get no_faults bucket key ((handle_delete no_faults bucket key s).0) ≡ ok none
  get-delete_self = elim found-row [
    | inl p ↦ rw (delete_missing p, get-answer s bucket key, p) refl
    | inr (id, row, q, r) ↦
        rw
          (
            delete-state id row q r,
            get-answer (store_without id row.key_hash) bucket key,
            q,
            lookup-remove_self (id, key) s.objects,
          )
          refl
  ]

lookup-files_without :
    (h k : Bytes) (files : Dict FilePath Bytes) (old : Option Bytes)
    → h ≢ k
    → lookup (key_path k) (files_without h files old) ≡ lookup (key_path k) files
lookup-files_without h k files none apart = refl
lookup-files_without h k files (some _) apart =
    lookup-remove_ne (key_path h) (key_path k) files (λ same. apart (key_path-injective h k same))

module _ (blake3 : Bytes → Bytes) (s : BlobStore) (valid : IsValid blake3 s)
    (bucket key : Bytes) where
  module _ (other key' : Bytes) (apart : ¬ ((bucket ≡ other) × (key ≡ key')))
      (hashes : hash_key_for_object blake3 bucket key ≢ hash_key_for_object blake3 other key')
      (id : ℕ) (row : ObjectRow) (q : lookup bucket s.buckets ≡ some id)
      (r : lookup (id, key) s.objects ≡ some row) where
    found_same : found (store_without s bucket key id row.key_hash) other key' ≡ found s other key'
    found_same = elim (Option-cases (lookup other s.buckets)) [
      | inl p ↦ rw p refl
      | inr (i, p) ↦
          rw
            (
              p,
              lookup-remove_ne (id, key) (i, key') s.objects
                  (λ same. apart (
                    valid.apart bucket other id q (p ∙ ap some (sym (ap (λ a. a.0) same))),
                    ap (λ a. a.1) same,
                  )),
            )
            refl
    ]

    answer_same :
        answer
          (files_without row.key_hash s.files (lookup (key_path row.key_hash) s.files))
          (found s other key')
        ≡ answer s.files (found s other key')
    answer_same = elim (found-cases blake3 s valid other key') [
      | inl p ↦ rw p refl
      | inr p ↦ rw p (
          answer-same (files_without row.key_hash s.files (lookup (key_path row.key_hash) s.files))
            s.files (hash_key_for_object blake3 other key')
            (lookup-files_without row.key_hash (hash_key_for_object blake3 other key') s.files
              (lookup (key_path row.key_hash) s.files)
              (λ same. hashes (sym (valid.hashes bucket id key row q r) ∙ same))))
    ]

  get-delete_ne :
      (other key' : Bytes)
      → ¬ ((bucket ≡ other) × (key ≡ key'))
      → hash_key_for_object blake3 bucket key ≢ hash_key_for_object blake3 other key'
      → handle_get no_faults other key' ((handle_delete no_faults bucket key s).0)
        ≡ handle_get no_faults other key' s
  get-delete_ne other key' apart hashes = elim (found-row s bucket key) [
    | inl p ↦ rw (delete_missing s bucket key p) refl
    | inr (id, row, q, r) ↦
        rw
          (
            delete-state s bucket key id row q r,
            get-answer (store_without s bucket key id row.key_hash) other key',
            get-answer s other key',
            found_same other key' apart hashes id row q r,
          )
          (answer_same other key' apart hashes id row q r)
  ]

  -- In a valid store, where nothing fails, a `Get` of an object that a `Delete` was for answers that it
  -- is not there, and a `Get` of any other object answers what it did before, where the names of the two
  -- buckets are shorter than 4 GiB and the hash function does not take what is hashed for the two to
  -- one hash.
  pub get-delete :
      (other key' : Bytes)
      → length bucket < 4294967296
      → length other < 4294967296
      → (hash_key_for_object blake3 bucket key ≡ hash_key_for_object blake3 other key'
          → hashed bucket key ≡ hashed other key')
      → handle_get no_faults other key' ((handle_delete no_faults bucket key s).0) ≡ (
          if (bucket == other) && (key == key') then ok none else handle_get no_faults other key' s)
  get-delete other key' hb ho collides = elim (Bool-cases ((bucket == other) && (key == key'))) [
    | inl p ↦ rw p (
        subst
          (λ b.
            (k : Bytes)
            → key ≡ k
            → handle_get no_faults b k ((handle_delete no_faults bucket key s).0) ≡ ok none)
          ((==_iff bucket other).0 (ground (arith, p)))
          (λ k q.
            subst
              (λ l.
                handle_get no_faults bucket l ((handle_delete no_faults bucket key s).0) ≡ ok none)
              q (get-delete_self s bucket key))
          key' ((==_iff key key').0 (ground (arith, p))))
    | inr p ↦ rw p (
        get-delete_ne other key' (apart p)
          (λ same. apart p (hashed-injective bucket other key key' hb ho (collides same))))
  ]
    where
      apart : ((bucket == other) && (key == key')) ≡ false → ¬ ((bucket ≡ other) × (key ≡ key'))
      apart p (q, r) = ground (arith, p, (==_iff bucket other).1 q, (==_iff key key').1 r)
