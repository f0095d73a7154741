-- ===== src/Blob/Tests.antt =====
-- Runs of the task, with a hash function that changes nothing.
use fx.Prelude.{
  nat_eq, list_eq, ◌≡◌, refl, none, some, [], ◌∷◌, ◌&&◌, Result, ok, err, arith, ◌==◌,
  if◌then◌else◌,
}
use fx.Prelude.Dict.{lookup, insert, remove}
use fx.Blob.{
  Bytes, BlobStore, BlobError, hashed, key_path, get_or_create_bucket, put_row, put_object,
  put_file, row_of, get_object, read_file, hash_key_for_object, handle_put, handle_get,
  handle_delete, blob_storage_error,
}
use fx.Blob.Refines.{no_faults, IsValid}
use fx.Blob.Refines.Reads.{get-put}
use fx.Blob.Refines.Kept.{put-IsValid}
use fx.Blob.Refines.Deletes.{get-delete}

abbrev unchanged : Bytes → Bytes
unchanged text = text

abbrev no_objects : BlobStore
no_objects = record { buckets = []; objects = []; files = [] }

abbrev pictures : Bytes
pictures = 112 ∷ 105 ∷ []

abbrev logs : Bytes
logs = 108 ∷ []

abbrev cat : Bytes
cat = 99 ∷ []

abbrev pixels : Bytes
pixels = 1 ∷ 2 ∷ 3 ∷ []

abbrev one_object : BlobStore
one_object = (handle_put unchanged no_faults pictures cat pixels no_objects).0

no_objects-IsValid : IsValid unchanged no_objects
unfolding lookup
no_objects-IsValid = record {
  bounded = λ name id h. ground (arith, h);
  apart = λ name other id h k. ground (arith, h);
  kept = λ id key row h. ground (arith, h);
  hashes = λ name id key row h k. ground (arith, h);
}

-- A write that fails leaves a row without a file, and a `Get` of the object fails.
abbrev torn : BlobStore × Result (Unit {0}) BlobError
torn =
    handle_put unchanged (record no_faults { torn_write = some none }) pictures cat pixels
      no_objects

get_torn : handle_get no_faults pictures cat torn.0 ≡ err blob_storage_error
unfolding handle_put put_file put_object put_row get_or_create_bucket handle_get get_object row_of
    read_file hash_key_for_object hashed key_path lookup insert remove
get_torn = refl

put-IsValid_example : IsValid unchanged one_object
put-IsValid_example = put-IsValid unchanged no_objects no_objects-IsValid pictures cat pixels

get-put_example :
    handle_get no_faults logs cat ((handle_put unchanged no_faults logs cat pixels one_object).0)
    ≡ (if (logs == logs) && (cat == cat)
        then ok (some pixels)
        else handle_get no_faults logs cat one_object)
get-put_example =
    get-put unchanged one_object
      (put-IsValid unchanged no_objects no_objects-IsValid pictures cat pixels) logs cat pixels logs
      cat (omega arith) (omega arith) (λ same. refl)

get-delete_example :
    handle_get no_faults logs cat ((handle_delete no_faults pictures cat one_object).0) ≡ (
      if (pictures == logs) && (cat == cat)
      then ok none
      else handle_get no_faults logs cat one_object)
unfolding hash_key_for_object
get-delete_example =
    get-delete unchanged one_object
      (put-IsValid unchanged no_objects no_objects-IsValid pictures cat pixels) pictures cat logs
      cat (omega arith) (omega arith) (λ same. same)
