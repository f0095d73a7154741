-- ===== src/Blob/Refines/Kept.antt =====
-- A `Put` and a `Delete` keep the index valid.
use fx.Prelude.{
  nat_eq, list_eq, pair_eq, ℕ, ◌≤◌, ◌≡◌, ◌≢◌, ◌⊎◌, ap, sym, ◌∙◌, Bool, true, false, some, ◌&&◌,
  Result, length, arith, ◌==◌, ==_iff, subst, if◌then◌else◌, Bool-cases, inl, inr,
}
use mathlib.Core.Option.{some-injective}
use fx.Prelude.Dict.{lookup, insert, lookup-insert}
use fx.Blob.{Bytes, ObjectRow, BlobStore, BlobError, hash_key_for_object, handle_put}
use fx.Blob.Refines.{
  no_faults, IsValid, buckets_after, ensured, others_ensured, ensured_old, ensured_apart,
}
use fx.Blob.Refines.Laws.{row, put-state}

module _ (blake3 : Bytes → Bytes) (s : BlobStore) (valid : IsValid blake3 s)
    (bucket key value : Bytes) where
  module _ (id : ℕ) (h : lookup bucket (buckets_after blake3 s valid bucket) ≡ some id)
      (small : id ≤ length (buckets_after blake3 s valid bucket))
      (more : length s.buckets ≤ length (buckets_after blake3 s valid bucket)) where
    -- A bucket of the new index is this one, or an old one.
    bucket-cases :
        (name : Bytes) (i : ℕ)
        → lookup name (buckets_after blake3 s valid bucket) ≡ some i
        → ((bucket ≡ name) × (id ≡ i)) ⊎ ((bucket ≢ name) × (lookup name s.buckets ≡ some i))
    bucket-cases name i p = elim (Bool-cases (bucket == name)) [
      | inl q ↦ inl (
        (==_iff bucket name).0 q,
        some-injective id i (
            sym h
            ∙ ap (λ n. lookup n (buckets_after blake3 s valid bucket)) ((==_iff bucket name).0 q)
            ∙ p),
      )
      | inr q ↦ inr (apart q, sym (others_ensured blake3 s valid bucket name (apart q)) ∙ p)
    ]
      where
        apart : (bucket == name) ≡ false → bucket ≢ name
        apart q same = ground (arith, q, (==_iff bucket name).1 same)

    -- An object of the new index is this one, or an old one.
    object-cases :
        (i : ℕ) (k : Bytes) (r : ObjectRow)
        → lookup (i, k) (insert (id, key) (row blake3 s valid bucket key value) s.objects) ≡ some r
        → ((id ≡ i) × (key ≡ k) × (row blake3 s valid bucket key value ≡ r))
          ⊎ (lookup (i, k) s.objects ≡ some r)
    object-cases i k r p = elim (Bool-cases ((id == i) && (key == k))) [
      | inl q ↦ inl (
        (==_iff id i).0 (ground (arith, q)),
        (==_iff key k).0 (ground (arith, q)),
        some-injective (row blake3 s valid bucket key value) r (sym (chosen true q) ∙ p),
      )
      | inr q ↦ inr (sym (chosen false q) ∙ p)
    ]
      where
        chosen :
            (b : Bool)
            → ((id == i) && (key == k)) ≡ b
            → lookup (i, k) (insert (id, key) (row blake3 s valid bucket key value) s.objects)
              ≡ (if b then some (row blake3 s valid bucket key value) else lookup (i, k) s.objects)
        chosen b q =
            lookup-insert (id, key) (i, k) (row blake3 s valid bucket key value) s.objects
            ∙ ap
                (λ c.
                  if c then some (row blake3 s valid bucket key value) else lookup (i, k) s.objects)
                q

    its_bucket :
        (name : Bytes) → lookup name (buckets_after blake3 s valid bucket) ≡ some id → bucket ≡ name
    its_bucket name p = elim (bucket-cases name id p) [
      | inl q ↦ q.0
      | inr q ↦ ensured_apart blake3 s valid bucket name id h (q.1)
    ]

    put_apart :
        (name other : Bytes) (i : ℕ)
        → lookup name (buckets_after blake3 s valid bucket) ≡ some i
        → lookup other (buckets_after blake3 s valid bucket) ≡ some i
        → name ≡ other
    put_apart name other i p q = elim (bucket-cases name i p) [
      | inl a ↦ sym (a.0) ∙ its_bucket other (q ∙ ap some (sym (a.1)))
      | inr a ↦ elim (bucket-cases other i q) [
        | inl b ↦ sym (its_bucket name (p ∙ ap some (sym (b.1)))) ∙ b.0
        | inr b ↦ valid.apart name other i (a.1) (b.1)
      ]
    ]

    put_bounded :
        (name : Bytes) (i : ℕ)
        → lookup name (buckets_after blake3 s valid bucket) ≡ some i
        → i ≤ length (buckets_after blake3 s valid bucket)
    put_bounded name i p = elim (bucket-cases name i p) [
      | inl a ↦ omega (arith, small, a.1)
      | inr a ↦ omega (arith, more, valid.bounded name i (a.1))
    ]

    put_kept :
        (i : ℕ) (k : Bytes) (r : ObjectRow)
        → lookup (i, k) (insert (id, key) (row blake3 s valid bucket key value) s.objects) ≡ some r
        → i ≤ length (buckets_after blake3 s valid bucket)
    put_kept i k r p = elim (object-cases i k r p) [
      | inl a ↦ omega (arith, small, a.0)
      | inr a ↦ omega (arith, more, valid.kept i k r a)
    ]

    put_hashes :
        (name : Bytes) (i : ℕ) (k : Bytes) (r : ObjectRow)
        → lookup name (buckets_after blake3 s valid bucket) ≡ some i
        → lookup (i, k) (insert (id, key) (row blake3 s valid bucket key value) s.objects) ≡ some r
        → r.key_hash ≡ hash_key_for_object blake3 name k
    put_hashes name i k r p q = elim (object-cases i k r q) [
      | inl (same, a, b) ↦
          ap (λ (r : ObjectRow). r.key_hash) (sym b)
          ∙ ap (λ n. hash_key_for_object blake3 n key) (its_bucket name (p ∙ ap some (sym same)))
          ∙ ap (hash_key_for_object blake3 name) a
      | inr a ↦
          valid.hashes name i k r
            (elim (bucket-cases name i p) [
              | inl b ↦
                  subst (λ n. lookup n s.buckets ≡ some i) (b.0)
                    (ensured_old blake3 s valid bucket i k r (h ∙ ap some (b.1)) a)
              | inr b ↦ b.1
            ])
            a
    ]

  -- A `Put` where nothing fails keeps a valid store valid: ids belong to one bucket each, objects are in
  -- buckets that are there, and each stands under the hash of its own bucket and key.
  pub put-IsValid : IsValid blake3 ((handle_put blake3 no_faults bucket key value s).0)
  put-IsValid =
      let (id, h, small, more) = ensured blake3 s valid bucket in
      subst (λ (r : BlobStore × Result (Unit {0}) BlobError). IsValid blake3 (r.0))
        (sym (put-state blake3 s valid bucket key value id h))
        (record {
          bounded = put_bounded id h small more;
          apart = put_apart id h small more;
          kept = put_kept id h small more;
          hashes = put_hashes id h small more;
        })
