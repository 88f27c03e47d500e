-- ===== src/Server/Coordinator/GetSnapshot.antt =====
-- `has` and `getSnapshot` of packages/server/src/coordinator.ts. What the wrapped revoker answers is
-- a parameter, as are the files of the backup directory and the type of the false positive rate.
use express_token_revoker.Prelude.{ℕ, Bool, Option, none, some, List, [], ◌++◌}
use express_token_revoker.Prelude.Result.{Result, ok, err, internal_error, ◌>>=◌}
use express_token_revoker.Prelude.Text.{Text, codes}
use express_token_revoker.Server.Coordinator.{Coordinator}

-- What `existsSync` and `readFileSync` make of a path.
pub data BlobFile : Type 0 where
  missing unreadable : BlobFile
  readable : List ℕ → BlobFile

pub record SnapshotConfig (F : Type 0) : Type 0 where
  pub id : Text
  pub num_items : ℕ
  pub fp_rate : F
  pub rotate_time : ℕ

pub record SnapshotData (F : Type 0) : Type 0 where
  pub current_blob : List ℕ
  pub previous_blob : List ℕ
  pub generation : ℕ
  pub last_backup_lsn : ℕ
  pub num_items : ℕ
  pub fp_rate : F
  pub k : ℕ
  pub rotate_time : ℕ

-- `readBlob`
unfoldable pub read_blob : BlobFile → Result (List ℕ)
read_blob missing = ok []
read_blob unreadable = err internal_error
read_blob (readable bytes) = ok bytes

abbrev pub blob_name : Text → Text → Text
blob_name prefix id = prefix ++ (id ++ codes ".blob")

-- `if (!x) throw new InternalError(...)`
unfoldable pub require : {A : Type 0} → Option A → Result A
require none = err internal_error
require (some a) = ok a

module _ {R : Type 0} where
  unfoldable pub has : (Text → R → Result Bool) → Text → Coordinator R → Result Bool
  unfolding require
  has revoker_has item c = do r ← require c.revoker; revoker_has item r

  -- `current_k` is `manager.current.k`, if the revoker has a manager and that a current filter.
  unfoldable pub get_snapshot :
      {F : Type 0}
      → (R → Option ℕ)
      → (Text → BlobFile)
      → SnapshotConfig F
      → Coordinator R
      → Result (SnapshotData F)
  unfolding require read_blob
  get_snapshot current_k blobs config c = do
    r ← require c.revoker
    k ← require (current_k r)
    current_blob ← read_blob (blobs (blob_name (codes "current-") config.id))
    previous_blob ← read_blob (blobs (blob_name (codes "previous-") config.id))
    ok (record {
      current_blob = current_blob;
      previous_blob = previous_blob;
      generation = c.meta.generation;
      last_backup_lsn = c.meta.last_backup_lsn;
      num_items = config.num_items;
      fp_rate = config.fp_rate;
      k = k;
      rotate_time = config.rotate_time;
    })
