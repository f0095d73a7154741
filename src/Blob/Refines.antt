-- ===== src/Blob/Refines.antt =====
-- The task against a map from objects to values, where nothing fails.
pub mod Laws
pub mod Reads
pub mod Kept
pub mod Deletes
use fx.Prelude.{
  nat_eq, list_eq, pair_eq, ℕ, zero, suc, ◌+◌, ◌≤◌, ◌<◌, ◌≡◌, ◌≢◌, refl, ap, sym, ◌∙◌, Bool, true,
  false, Option, none, some, List, [], ◌∷◌, Result, ok, err, length, arith, and_then, Eq, ◌==◌,
  ==_iff, if◌then◌else◌, Option-cases, Bool-cases, inl, inr,
}
use fx.Prelude.Dict.{Dict, lookup, insert, remove, lookup-insert, lookup-remove, lookup-insert_self}
use fx.Blob.{
  Bytes, ObjectRow, BlobStore, Faults, ensure_bucket, get_or_create_bucket, put_object, get_object,
  delete_object, FilePath, path_eq, key_path, write_file, hash_key_for_object, handle_put,
  handle_get, handle_delete, blob_storage_error,
}

abbrev pub no_faults : Faults
no_faults = record {
  create_bucket = false;
  find_bucket = false;
  insert_object = false;
  find_object = false;
  drop_object = false;
  torn_write = none;
  read_value = false;
  remove_value = false;
}

-- The hash that the index holds for an object.
abbrev pub found : BlobStore → Bytes → Bytes → Option Bytes
found s bucket key =
    and_then (lookup bucket s.buckets)
      (λ id. and_then (lookup (id, key) s.objects) (λ row. some row.key_hash))

-- Ids are those of one bucket each, objects are in buckets that are there, and the hash of an object is
-- its own.
pub record IsValid (blake3 : Bytes → Bytes) (s : BlobStore) : Type 0 where
  pub bounded : (name : Bytes) (id : ℕ) → lookup name s.buckets ≡ some id → id ≤ length s.buckets
  pub apart :
      (name other : Bytes) (id : ℕ)
      → lookup name s.buckets ≡ some id
      → lookup other s.buckets ≡ some id
      → name ≡ other
  pub kept :
      (id : ℕ) (key : Bytes) (row : ObjectRow)
      → lookup (id, key) s.objects ≡ some row
      → id ≤ length s.buckets
  pub hashes :
      (name : Bytes) (id : ℕ) (key : Bytes) (row : ObjectRow)
      → lookup name s.buckets ≡ some id
      → lookup (id, key) s.objects ≡ some row
      → row.key_hash ≡ hash_key_for_object blake3 name key

length-insert :
    (name : Bytes) (id : ℕ) (m : Dict Bytes ℕ)
    → lookup name m ≡ none
    → length (insert name id m) ≡ suc (length m)
unfolding lookup insert
length-insert name id [] h = refl
length-insert name id ((j, v) ∷ m) h = ground (arith, h, length-insert name id m)

module _ (blake3 : Bytes → Bytes) (s : BlobStore) (valid : IsValid blake3 s) (bucket : Bytes) where
  -- The buckets, once this one is there.
  abbrev pub buckets_after : Dict Bytes ℕ
  buckets_after = ensure_bucket bucket s.buckets (lookup bucket s.buckets)

  -- Its id; a new one is no object's.
  pub ensured :
      (id : ℕ) × (lookup bucket buckets_after ≡ some id)
      × (id ≤ length buckets_after)
      × (length s.buckets ≤ length buckets_after)
  ensured = elim (Option-cases (lookup bucket s.buckets)) [
    | inl p ↦ (
      suc (length s.buckets),
      ground (arith, p, lookup-insert_self bucket (suc (length s.buckets)) s.buckets),
      ground (arith, p, length-insert bucket (suc (length s.buckets)) s.buckets),
      ground (arith, p, length-insert bucket (suc (length s.buckets)) s.buckets),
    )
    | inr (id, p) ↦
        (id, ground (arith, p), ground (arith, p, valid.bounded bucket id), ground (arith, p))
  ]

  pub others_ensured :
      (other : Bytes) → bucket ≢ other → lookup other buckets_after ≡ lookup other s.buckets
  others_ensured other n = elim (Option-cases (lookup bucket s.buckets)) [
    | inl p ↦ ground (
      arith,
      p,
      n,
      ==_iff bucket other,
      lookup-insert bucket other (suc (length s.buckets)) s.buckets,
    )
    | inr (id, p) ↦ ground (arith, p)
  ]

  -- A bucket that was there keeps its id, and a new one has an id that no object has.
  pub ensured_old :
      (id : ℕ) (key : Bytes) (row : ObjectRow)
      → lookup bucket buckets_after ≡ some id
      → lookup (id, key) s.objects ≡ some row
      → lookup bucket s.buckets ≡ some id
  ensured_old id key row h k = elim (Option-cases (lookup bucket s.buckets)) [
    | inl p ↦ ground (
      arith,
      p,
      h,
      k,
      lookup-insert_self bucket (suc (length s.buckets)) s.buckets,
      valid.kept id key row k,
    )
    | inr (i, p) ↦ ground (arith, p, h)
  ]

  pub ensured_apart :
      (other : Bytes) (id : ℕ)
      → lookup bucket buckets_after ≡ some id
      → lookup other s.buckets ≡ some id
      → bucket ≡ other
  ensured_apart other id h k = elim (Option-cases (lookup bucket s.buckets)) [
    | inl p ↦ ground (
      arith,
      p,
      h,
      k,
      lookup-insert_self bucket (suc (length s.buckets)) s.buckets,
      valid.bounded other id k,
    )
    | inr (i, p) ↦ ground (arith, p, h, valid.apart bucket other id, k)
  ]
