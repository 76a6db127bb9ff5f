-- ===== src/Storage.antt =====
-- storage.rs: blocks, certificates and blobs in the key-value database sled. The database, its JSON and the
-- texts of numbers are third-party code, the fields of the record Disk. A fault of the disk is not modelled: the
-- operations of the database succeed.
pub mod Reload
mod Tests
use blockhain_core.Prelude.{
  ℕ, zero, suc, String, not, Option, none, some, List, [], ◌∷◌, ◌++◌, if◌then◌else◌, ◌==◌, ℕ-Eq,
  String-Eq, Bytes-Eq, Option-Eq, Result, ok, err, ◌>>=◌, ◌>>◌, or_fail, as_bytes,
}
use mathlib.Core.List.{reverse}
use blockhain_core.Block.{Block, zero_hash}
use blockhain_core.Qc.{QcBlob}
use blockhain_core.Finality.Cert.{FinalityCert}

-- A tree of sled with states of type `D`, from keys to values.
pub record Disk (D : Type 0) : Type 0 where
  pub get : List ℕ → D → Option (List ℕ)
  pub insert : List ℕ → List ℕ → D → D
  pub remove : List ℕ → D → D
  -- `serde_json::to_vec` and `from_slice`
  pub block_json : Block → List ℕ
  pub block_from_json : List ℕ → Option Block
  pub blob_json : QcBlob → List ℕ
  pub blob_from_json : List ℕ → Option QcBlob
  pub cert_json : FinalityCert → List ℕ
  pub cert_from_json : List ℕ → Option FinalityCert
  -- `from_utf8`, `to_string` and `parse` of u64
  pub from_utf8 : List ℕ → Option String
  pub to_string : ℕ → String
  pub parse : String → Option ℕ

pub data StorageError : Type 0 where
  invalid_json invalid_data : StorageError

-- A value that is read back, if there is one.
abbrev pub read_as :
    {A : Type 0}
    → StorageError
    → (List ℕ → Option A)
    → Option (List ℕ)
    → Result StorageError (Option A)
read_as e f none = ok none
read_as e f (some val) = do x ← or_fail (f val) e; ok (some x)

module _ {D : Type 0} (disk : Disk D) where
  -- The bytes of `format!("{prefix}{n}")`.
  abbrev pub numbered : String → ℕ → List ℕ
  numbered prefix n = as_bytes prefix ++ as_bytes (disk.to_string n)

  abbrev pub height_key : ℕ → List ℕ
  height_key = numbered "HEIGHT:"

  abbrev pub state_root_key : ℕ → List ℕ
  state_root_key = numbered "STATE_ROOT:"

  abbrev pub cert_key : ℕ → List ℕ
  cert_key = numbered "FINALITY_CERT:"

  abbrev pub qc_key : ℕ → List ℕ
  qc_key = numbered "QC_BLOB:"

  unfoldable pub insert_block : Block → D → D
  insert_block block d =
      disk.insert (height_key block.index) (as_bytes block.hash)
        (disk.insert (as_bytes block.hash) (disk.block_json block) d)

  unfoldable pub get_block : String → D → Result StorageError (Option Block)
  get_block hash d = read_as invalid_json disk.block_from_json (disk.get (as_bytes hash) d)

  abbrev pub block_of_hash : Option String → D → Result StorageError (Option Block)
  block_of_hash none d = ok none
  block_of_hash (some hash) d = get_block hash d

  unfoldable pub get_block_by_height : ℕ → D → Result StorageError (Option Block)
  get_block_by_height height d = do
    hash ← read_as invalid_data disk.from_utf8 (disk.get (height_key height) d)
    block_of_hash hash d

  abbrev pub number_or_zero : Option ℕ → ℕ
  number_or_zero none = 0
  number_or_zero (some n) = n

  abbrev pub height_or_zero : Option String → ℕ
  height_or_zero none = 0
  height_or_zero (some s) = number_or_zero (disk.parse s)

  unfoldable pub get_canonical_height : D → Result StorageError ℕ
  get_canonical_height d = do
    text ← read_as invalid_data disk.from_utf8 (disk.get (as_bytes "CANONICAL_HEIGHT") d)
    ok (height_or_zero text)

  abbrev pub delete_at : ℕ → Option (List ℕ) → D → D
  delete_at height none d = d
  delete_at height (some hash_val) d = disk.remove (qc_key height) (
      disk.remove (cert_key height) (
        disk.remove (state_root_key height)
          (disk.remove (height_key height) (disk.remove hash_val d))))

  unfoldable pub delete_block : ℕ → D → D
  delete_block height d = delete_at height (disk.get (height_key height) d) d

  unfoldable pub save_qc_blob : ℕ → QcBlob → D → D
  save_qc_blob height blob d = disk.insert (qc_key height) (disk.blob_json blob) d

  unfoldable pub get_qc_blob : ℕ → D → Result StorageError (Option QcBlob)
  get_qc_blob height d = read_as invalid_json disk.blob_from_json (disk.get (qc_key height) d)

  unfoldable pub save_finality_cert : ℕ → FinalityCert → D → D
  save_finality_cert height cert d = disk.insert (cert_key height) (disk.cert_json cert) d

  unfoldable pub get_finality_cert : ℕ → D → Result StorageError (Option FinalityCert)
  get_finality_cert height d =
      read_as invalid_json disk.cert_from_json (disk.get (cert_key height) d)

  unfoldable pub save_canonical_height : ℕ → D → D
  save_canonical_height height d =
      disk.insert (as_bytes "CANONICAL_HEIGHT") (as_bytes (disk.to_string height)) d

  unfoldable pub save_state_root : ℕ → String → D → D
  save_state_root height state_root d = disk.insert (state_root_key height) (as_bytes state_root) d

  unfoldable pub get_state_root : ℕ → D → Result StorageError (Option String)
  get_state_root height d = read_as invalid_data disk.from_utf8 (disk.get (state_root_key height) d)

  unfoldable pub save_last_hash : String → D → D
  save_last_hash hash d = disk.insert (as_bytes "LAST") (as_bytes hash) d

  -- A value that is not UTF-8 is a panic in the source, here an error.
  unfoldable pub get_last_hash : D → Result StorageError (Option String)
  get_last_hash d = read_as invalid_data disk.from_utf8 (disk.get (as_bytes "LAST") d)

  -- `Ok(Some(block))`, or the loop ends.
  abbrev pub found_block : Result StorageError (Option Block) → Option Block
  found_block (err e) = none
  found_block (ok o) = o

  abbrev pub block_then : Option Block → (String → List Block) → List Block
  block_then none next = []
  block_then (some block) next =
      block ∷ (if block.previous_hash == zero_hash then [] else next block.previous_hash)

  -- The loop of `load_chain` from a hash on, the newest block first. The fuel counts its turns; the source has
  -- no bound.
  unfoldable pub load_from : ℕ → String → D → List Block
  load_from zero current_hash d = []
  load_from (suc fuel) current_hash d =
      block_then (found_block (get_block current_hash d)) (λ hash. load_from fuel hash d)

  abbrev pub load_last : ℕ → Option String → D → List Block
  load_last fuel none d = []
  load_last fuel (some hash) d = reverse (load_from fuel hash d)

  unfoldable pub load_chain : ℕ → D → Result StorageError (List Block)
  load_chain fuel d = do last ← get_last_hash d; ok (load_last fuel last d)

  -- What `validate_and_add_block` of blockchain.rs writes for a block.
  unfoldable pub persist : Block → D → D
  persist block d = save_canonical_height block.index (
      save_state_root block.index block.state_root
        (save_last_hash block.hash (insert_block block d)))
