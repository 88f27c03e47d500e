-- ===== src/Server/Meta/Tests.antt =====
-- The theorem on packages/server/src/meta.ts at concrete files.
use express_token_revoker.Prelude.{ℕ, ◌≡◌, refl, false, Option, none, some, List, [], ◌∷◌}
use express_token_revoker.Prelude.Result.{ok, err, internal_error}
use express_token_revoker.Server.Coordinator.{MetaState}
use express_token_revoker.Server.Meta.{
  Json, IsFaithful, Parsed, not_an_object, object, MetaFiles, WriteFault, no_fault, at_write,
  short_write, at_rename, empty_meta_state, read_target, check_shape, read, write,
}
use express_token_revoker.Server.Meta.Register.{run, register, settled, writes_are_atomic}

-- A JSON whose texts are lists of fields.
unfoldable parse_fields : List ℕ → Option Parsed
parse_fields [] = none
parse_fields (g ∷ []) = some not_an_object
parse_fields (g ∷ l ∷ []) = some (object (some g) (some l) none)
parse_fields (g ∷ l ∷ b ∷ _) = some (object (some g) (some l) (some b))

abbrev list_json : Json (List ℕ)
list_json = record {
  stringify = λ s. s.generation ∷ s.last_lsn ∷ s.last_backup_lsn ∷ [];
  parse = parse_fields;
}

abbrev meta_of : ℕ → ℕ → ℕ → MetaState
meta_of g l b = record { generation = g; last_lsn = l; last_backup_lsn = b }

abbrev meta_writes : List (WriteFault (List ℕ) × MetaState)
meta_writes =
    (no_fault, meta_of 1 4 4) ∷ (at_write (2 ∷ []), meta_of 2 9 8) ∷ (at_rename, meta_of 2 9 9) ∷ []

abbrev no_meta_files : MetaFiles (List ℕ)
no_meta_files = record { target = none; temp = none }

half_written_meta :
    read list_json false (record { target = some (2 ∷ 9 ∷ []); temp = none }) ≡ err internal_error
unfolding read read_target check_shape parse_fields
half_written_meta = refl

-- A short write that returns leaves a torn file in the place of the meta file.
short_meta :
    read list_json false
      (write list_json (short_write (2 ∷ 9 ∷ [])) (meta_of 2 9 9) no_meta_files).1
    ≡ err internal_error
unfolding read read_target check_shape parse_fields write
short_meta = refl

kept_meta : register list_json meta_writes no_meta_files (ok empty_meta_state) ≡ ok (meta_of 1 4 4)
unfolding register settled write
kept_meta = refl

list_json-IsFaithful : IsFaithful list_json
unfolding IsFaithful parse_fields
list_json-IsFaithful s = refl

writes_are_atomic_example :
    read list_json false (run list_json meta_writes no_meta_files)
    ≡ register list_json meta_writes no_meta_files (read list_json false no_meta_files)
writes_are_atomic_example =
    writes_are_atomic list_json list_json-IsFaithful meta_writes no_meta_files
      (refl, (refl, (refl, tt)))
