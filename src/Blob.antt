-- ===== src/Blob.antt =====
-- The blob task, fx-runtime/src/tasks/blob.rs: an index of objects in SQLite, and a file for each
-- object under the hash of its bucket and key. A text is the list of its UTF-8 bytes, and a hash the
-- list of its digits. A table of the index is a map by its key; its statements do what they say or
-- fail, as `Faults` tells for one message, and so do the accesses to files. Directories are left out.
pub mod Keys
pub mod Refines
pub mod Requests
mod Tests
use mathlib.Core.Option
use fx.Prelude.{
  nat_eq, list_eq, pair_eq, ℕ, zero, suc, ◌+◌, ◌*◌, ◌/◌, ◌%◌, Bool, true, false, Option, none, some,
  List, [], ◌∷◌, ◌++◌, Result, ok, err, ok_or, length, Eq, if◌then◌else◌,
}
use fx.Prelude.Dict.{Dict, lookup, insert, remove}

abbrev pub Bytes : Type 0
Bytes = List ℕ

-- `hasher.update`, three times: what is hashed.
abbrev pub be_bytes : ℕ → Bytes
be_bytes n = n / 16777216 % 256 ∷ n / 65536 % 256 ∷ n / 256 % 256 ∷ n % 256 ∷ []

unfoldable pub hashed : Bytes → Bytes → Bytes
hashed bucket key = be_bytes (length bucket % 4294967296) ++ bucket ++ key

-- `&key[..n]` and `&key[n..]`
abbrev pub take : ℕ → Bytes → Bytes
take zero xs = []
take (suc n) [] = []
take (suc n) (x ∷ xs) = x ∷ take n xs

abbrev pub drop : ℕ → Bytes → Bytes
drop zero xs = xs
drop (suc n) [] = []
drop (suc n) (x ∷ xs) = drop n xs

-- Two directories and a file name, below the directory of the data.
abbrev pub FilePath : Type 0
FilePath = (Bytes × Bytes) × Bytes

instance abbrev pub path_eq : Eq FilePath
path_eq = pair_eq

unfoldable pub key_path : Bytes → FilePath
key_path key = ((take 2 key, take 2 (drop 2 key)), drop 4 key)

pub record ObjectRow : Type 0 where
  pub key_hash : Bytes
  pub size : ℕ

-- The tables `buckets` and `objects`, and the files.
pub record BlobStore : Type 0 where
  pub buckets : Dict Bytes ℕ
  pub objects : Dict (ℕ × Bytes) ObjectRow
  pub files : Dict FilePath Bytes

-- Which statements and accesses fail while a message is handled. A write that fails leaves the file
-- that `torn_write` tells, or none.
pub record Faults : Type 0 where
  pub create_bucket : Bool
  pub find_bucket : Bool
  pub insert_object : Bool
  pub find_object : Bool
  pub drop_object : Bool
  pub torn_write : Option (Option Bytes)
  pub read_value : Bool
  pub remove_value : Bool

-- `PutError`, `GetError` and `DeleteError` have this one constructor each.
pub data BlobError : Type 0 where
  blob_storage_error : BlobError

-- `insert or ignore`: a new row has the next id, since no row of `buckets` is ever deleted.
abbrev pub ensure_bucket : Bytes → Dict Bytes ℕ → Option ℕ → Dict Bytes ℕ
ensure_bucket name buckets none = insert name (suc (length buckets)) buckets
ensure_bucket name buckets (some id) = buckets

unfoldable pub get_or_create_bucket : Faults → Bytes → BlobStore → BlobStore × Result ℕ (Unit {0})
get_or_create_bucket faults name s =
    if faults.create_bucket
    then (s, err tt)
    else (let s' = record s { buckets = ensure_bucket name s.buckets (lookup name s.buckets) } in
        (s', if faults.find_bucket then err tt else ok_or (lookup name s'.buckets) tt))

-- `insert .. on conflict .. do update`
unfoldable pub put_row :
    Faults
    → Bytes
    → ObjectRow
    → BlobStore × Result ℕ (Unit {0})
    → BlobStore × Result (Unit {0}) (Unit {0})
put_row faults key row (s, err e) = (s, err e)
put_row faults key row (s, ok id) =
    if faults.insert_object
    then (s, err tt)
    else (record s { objects = insert (id, key) row s.objects }, ok tt)

unfoldable pub put_object :
    Faults → Bytes → Bytes → ObjectRow → BlobStore → BlobStore × Result (Unit {0}) (Unit {0})
unfolding get_or_create_bucket put_row
put_object faults bucket key row s = put_row faults key row (get_or_create_bucket faults bucket s)

-- The id of a bucket and the row of an object, if both are there.
unfoldable pub row_of :
    Faults → Bytes → BlobStore → Option ℕ → Result (Option (ℕ × Bytes)) (Unit {0})
row_of faults key s none = ok none
row_of faults key s (some id) =
    if faults.find_object
    then err tt
    else ok (Option.map (λ row. (id, row.key_hash)) (lookup (id, key) s.objects))

unfoldable pub get_object :
    Faults → Bytes → Bytes → BlobStore → Result (Option (ℕ × Bytes)) (Unit {0})
unfolding row_of
get_object faults bucket key s =
    if faults.find_bucket then err tt else row_of faults key s (lookup bucket s.buckets)

unfoldable pub delete_row :
    Faults
    → Bytes
    → BlobStore
    → Result (Option (ℕ × Bytes)) (Unit {0})
    → BlobStore × Result (Option Bytes) (Unit {0})
delete_row faults key s (err e) = (s, err e)
delete_row faults key s (ok none) = (s, ok none)
delete_row faults key s (ok (some (id, hash))) =
    if faults.drop_object
    then (s, err tt)
    else (record s { objects = remove (id, key) s.objects }, ok (some hash))

unfoldable pub delete_object :
    Faults → Bytes → Bytes → BlobStore → BlobStore × Result (Option Bytes) (Unit {0})
unfolding get_object delete_row
delete_object faults bucket key s = delete_row faults key s (get_object faults bucket key s)

-- `tokio::fs::read`
unfoldable pub read_file :
    Faults → BlobStore → Result (Option (ℕ × Bytes)) (Unit {0}) → Result (Option Bytes) BlobError
unfolding key_path
read_file faults s (err _) = err blob_storage_error
read_file faults s (ok none) = ok none
read_file faults s (ok (some (id, hash))) =
    if faults.read_value then err blob_storage_error else elim (lookup (key_path hash) s.files) [
      | none ↦ err blob_storage_error
      | some value ↦ ok (some value)
    ]

-- `tokio::fs::remove_file`, which fails where there is no such file.
unfoldable pub remove_file :
    Faults → BlobStore × Result (Option Bytes) (Unit {0}) → BlobStore × Result (Unit {0}) BlobError
unfolding key_path
remove_file faults (s, err _) = (s, err blob_storage_error)
remove_file faults (s, ok none) = (s, ok tt)
remove_file faults (s, ok (some hash)) =
    if faults.remove_value
    then (s, err blob_storage_error)
    else elim (lookup (key_path hash) s.files) [
      | none ↦ (s, err blob_storage_error)
      | some _ ↦ (record s { files = remove (key_path hash) s.files }, ok tt)
    ]

-- `tokio::fs::write`
abbrev pub write_file :
    FilePath
    → Bytes
    → Dict FilePath Bytes
    → Option (Option Bytes)
    → Dict FilePath Bytes × Result (Unit {0}) BlobError
write_file path value files none = (insert path value files, ok tt)
write_file path value files (some none) = (remove path files, err blob_storage_error)
write_file path value files (some (some torn)) = (insert path torn files, err blob_storage_error)

-- The file of an object whose row is there.
unfoldable pub put_file :
    Faults
    → FilePath
    → Bytes
    → BlobStore × Result (Unit {0}) (Unit {0})
    → BlobStore × Result (Unit {0}) BlobError
put_file faults path value (s, err _) = (s, err blob_storage_error)
put_file faults path value (s, ok _) =
    let (files, result) = write_file path value s.files faults.torn_write in
    (record s { files = files }, result)

-- `blake3` is the hash function, to hexadecimal digits.
module _ (blake3 : Bytes → Bytes) where
  unfoldable pub hash_key_for_object : Bytes → Bytes → Bytes
  unfolding hashed
  hash_key_for_object bucket key = blake3 (hashed bucket key)

  -- The arm of `BlobMessage::Put`: the index first, then the file.
  unfoldable pub handle_put :
      Faults → Bytes → Bytes → Bytes → BlobStore → BlobStore × Result (Unit {0}) BlobError
  unfolding put_object put_file hash_key_for_object key_path
  handle_put faults bucket key value s =
      let hash = hash_key_for_object bucket key in
      put_file faults (key_path hash) value
        (put_object faults bucket key (record { key_hash = hash; size = length value }) s)

-- The arm of `BlobMessage::Get`.
unfoldable pub handle_get : Faults → Bytes → Bytes → BlobStore → Result (Option Bytes) BlobError
unfolding get_object read_file
handle_get faults bucket key s = read_file faults s (get_object faults bucket key s)

-- The arm of `BlobMessage::Delete`: the row first, then the file.
unfoldable pub handle_delete :
    Faults → Bytes → Bytes → BlobStore → BlobStore × Result (Unit {0}) BlobError
unfolding delete_object remove_file
handle_delete faults bucket key s = remove_file faults (delete_object faults bucket key s)
