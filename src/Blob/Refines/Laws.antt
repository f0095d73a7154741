-- ===== src/Blob/Refines/Laws.antt =====
-- What a `Put` and a `Delete` do to the index and to the files, where nothing fails.
use fx.Prelude.{
  nat_eq, list_eq, pair_eq, ℕ, ◌≡◌, ◌≢◌, ◌⊎◌, Eq, refl, ap, sym, ◌∙◌, none, some, ok, length, arith,
  and_then, Option-cases, inl, inr,
}
use fx.Prelude.Dict.{Dict, lookup, insert, remove, lookup-insert, lookup-remove, lookup-insert_self}
use fx.Blob.{
  Bytes, ObjectRow, BlobStore, get_or_create_bucket, put_object, path_eq, key_path, put_file,
  put_row, hash_key_for_object, handle_put,
}
use fx.Blob.Refines.{
  no_faults, found, IsValid, buckets_after, others_ensured, ensured_old, ensured_apart,
}

module _ {K V : Type 0} ⦃e : Eq K⦄ where
  pub lookup-insert_ne :
      (k j : K) (v : V) (m : Dict K V) → k ≢ j → lookup j (insert k v m) ≡ lookup j m
  lookup-insert_ne k j v m n = rw lookup-insert (ground (arith, e.beq_iff k j, n))

  pub lookup-remove_ne : (k j : K) (m : Dict K V) → k ≢ j → lookup j (remove k m) ≡ lookup j m
  lookup-remove_ne k j m n = rw lookup-remove (ground (arith, e.beq_iff k j, n))

  pub lookup-remove_self : (k : K) (m : Dict K V) → lookup k (remove k m) ≡ none
  lookup-remove_self k m = rw lookup-remove (ground (arith, e.beq_iff k k))

module _ (blake3 : Bytes → Bytes) (s : BlobStore) (valid : IsValid blake3 s)
    (bucket key value : Bytes) where
  abbrev pub hash : Bytes
  hash = hash_key_for_object blake3 bucket key

  abbrev pub row : ObjectRow
  row = record { key_hash = hash; size = length value }

  abbrev pub store_put : ℕ → BlobStore
  store_put id = record {
    buckets = buckets_after blake3 s valid bucket;
    objects = insert (id, key) row s.objects;
    files = insert (key_path hash) value s.files;
  }

  pub put-state :
      (id : ℕ)
      → lookup bucket (buckets_after blake3 s valid bucket) ≡ some id
      → handle_put blake3 no_faults bucket key value s ≡ (store_put id, ok tt)
  unfolding handle_put put_file put_object put_row get_or_create_bucket
  put-state id h = rw h refl

  module _ (id : ℕ) (h : lookup bucket (buckets_after blake3 s valid bucket) ≡ some id) where
    pub found-put_self : found (store_put id) bucket key ≡ some hash
    found-put_self = rw (h, lookup-insert_self (id, key) row s.objects) refl

    -- Of the objects of another bucket, and of the bucket's others, the index tells what it told.
    pub found-put_bucket :
        (other key' : Bytes) → bucket ≢ other → found (store_put id) other key' ≡ found s other key'
    found-put_bucket other key' apart = elim (Option-cases (lookup other s.buckets)) [
      | inl p ↦ rw (others_ensured blake3 s valid bucket other apart, p) refl
      | inr (i, p) ↦
          rw
            (
              others_ensured blake3 s valid bucket other apart,
              p,
              lookup-insert_ne (id, key) (i, key') row s.objects
                  (λ same. apart (
                    ensured_apart blake3 s valid bucket other id h
                      (p ∙ ap some (sym (ap (λ q. q.0) same))))),
            )
            refl
    ]

    pub found-put_key :
        (key' : Bytes) → key ≢ key' → found (store_put id) bucket key' ≡ found s bucket key'
    found-put_key key' apart =
        rw
          (
            h,
            lookup-insert_ne (id, key) (id, key') row s.objects
                (λ same. apart (ap (λ q. q.1) same)),
          )
          (told (Option-cases (lookup (id, key') s.objects)))
      where
        told :
            (lookup (id, key') s.objects ≡ none)
              ⊎ ((r : ObjectRow) × (lookup (id, key') s.objects ≡ some r))
            → and_then (lookup (id, key') s.objects) (λ r. some r.key_hash) ≡ found s bucket key'
        told (inr (r, q)) = rw (ensured_old blake3 s valid bucket id key' r h q) refl
        told (inl q) = elim (Option-cases (lookup bucket s.buckets)) [
          | inl p ↦ rw (q, p) refl
          | inr (i, p) ↦ rw (q, p, same_id i p, q) refl
        ]
          where
            same_id : (i : ℕ) → lookup bucket s.buckets ≡ some i → i ≡ id
            same_id i p = ground (arith, h, p)
