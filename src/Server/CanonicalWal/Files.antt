-- ===== src/Server/CanonicalWal/Files.antt =====
-- The files of packages/server/src/canonicalWal.ts: their names, their order and their events.
use express_token_revoker.Prelude.{
  ℕ, Bool, Option, none, some, List, [], ◌∷◌, ◌++◌, ◌≡◌, refl, leb, ◌==◌, if◌then◌else◌,
}
use express_token_revoker.Prelude.Result.{Result, ok, err, internal_error, ◌>>=◌}
use express_token_revoker.Prelude.Text.{
  split_on, Text, codes, text_eq, decimal, number, all_digits, digits_value,
}
use express_token_revoker.Server.CanonicalWal.Line.{
  CanonicalEvent, entry, rotate, tombstone, split_colon, parse_typed, parse_line,
}

-- `startsWith` and the slice behind the prefix; `endsWith` and the slice before the suffix.
unfoldable pub strip_prefix : Text → Text → Option Text
strip_prefix [] s = some s
strip_prefix (c ∷ p) [] = none
strip_prefix (c ∷ p) (d ∷ s) = if c == d then strip_prefix p s else none

unfoldable pub strip_suffix : Text → Text → Option Text
unfolding text_eq
strip_suffix suffix [] = if text_eq suffix [] then some [] else none
strip_suffix suffix (c ∷ s) =
    let rest = strip_suffix suffix s in
    if text_eq (c ∷ s) suffix then some [] else elim rest [ none ↦ none | some t ↦ some (c ∷ t) ]

abbrev pub wal_suffix : Text
wal_suffix = codes ".wal"

unfoldable pub wal_prefix : Text → Text
wal_prefix id = codes "canonical-" ++ (id ++ codes "-")

-- `#fileName`
unfoldable pub file_name : Text → ℕ → Text
unfolding wal_prefix
file_name id generation = wal_prefix id ++ (decimal generation ++ wal_suffix)

-- `/^\d+$/` and `Number.parseInt(…, 10)`, which is exact up to `max_safe`
unfoldable pub parse_generation : Text → Option ℕ
unfolding all_digits digits_value
parse_generation [] = none
parse_generation (c ∷ s) = if all_digits (c ∷ s) then some (digits_value 0 (c ∷ s)) else none

-- The generation of a file, if its name is one of this log's.
unfoldable pub generation_of_name : Text → Text → Option ℕ
unfolding wal_prefix strip_prefix strip_suffix parse_generation
generation_of_name id name = elim (strip_prefix (wal_prefix id) name) [
  | none ↦ none
  | some rest ↦ elim (strip_suffix wal_suffix rest) [
    | none ↦ none
    | some part ↦ parse_generation part
  ]
]

-- A directory: names and contents, in the order of `readdirSync`.
abbrev pub Directory : Type 0
Directory = List (Text × Text)

pub record WalFile : Type 0 where
  pub generation : ℕ
  pub name : Text
  pub content : Text

unfoldable pub matching_files : Text → Directory → List WalFile
matching_files id [] = []
matching_files id ((name, content) ∷ d) = elim (generation_of_name id name) [
  | none ↦ matching_files id d
  | some g ↦ record { generation = g; name = name; content = content } ∷ matching_files id d
]

-- `found.sort((a, b) => a.generation - b.generation)`, which is stable
unfoldable pub insert_file : WalFile → List WalFile → List WalFile
insert_file f [] = f ∷ []
insert_file f (g ∷ fs) =
    if leb f.generation g.generation then f ∷ (g ∷ fs) else g ∷ insert_file f fs

unfoldable pub sort_files : List WalFile → List WalFile
unfolding insert_file
sort_files [] = []
sort_files (f ∷ fs) = insert_file f (sort_files fs)

-- `#listGenerationFiles` of a directory that can be listed
unfoldable pub list_generation_files : Text → Directory → List WalFile
unfolding matching_files sort_files
list_generation_files id d = sort_files (matching_files id d)

-- `content.split('\n')`
unfoldable pub split_lines : Text → List Text
unfolding split_on
split_lines content = split_on 10 content

-- The generation that the lines behind an event inherit.
abbrev pub generation_after : ℕ → Option CanonicalEvent → ℕ
generation_after g (some (rotate lsn n)) = n
generation_after g _ = g

abbrev pub parsed : Option CanonicalEvent → List CanonicalEvent
parsed none = []
parsed (some e) = e ∷ []

module _ (other : Text → Option ℕ) where
  -- the loop of `#parseFile`; empty and malformed lines are skipped
  unfoldable pub parse_lines : ℕ → List Text → List CanonicalEvent
  parse_lines g [] = []
  parse_lines g ([] ∷ ls) = parse_lines g ls
  parse_lines g ((c ∷ l) ∷ ls) =
      parsed (parse_line other g (c ∷ l))
      ++ parse_lines (generation_after g (parse_line other g (c ∷ l))) ls

  -- `#parseFile` of a file that can be read
  unfoldable pub parse_file : WalFile → List CanonicalEvent
  unfolding parse_lines split_lines
  parse_file f = parse_lines f.generation (split_lines f.content)

  -- The loops over the files: a file that cannot be read ends them with an error.
  unfoldable pub read_files : (Text → Bool) → List WalFile → Result (List CanonicalEvent)
  unfolding parse_file
  read_files unreadable [] = ok []
  read_files unreadable (f ∷ fs) =
      if unreadable f.name
      then err internal_error
      else do later ← read_files unreadable fs; ok (parse_file f ++ later)

files_test :
    list_generation_files (codes "r") (
      (codes "canonical-r-10.wal", codes "x")
      ∷ (codes "canonical-r-.wal", [])
      ∷ (codes "canonical-r-2.wal.bak", [])
      ∷ (codes "canonical-r-2.wal", codes "y")
      ∷ [])
    ≡ record { generation = 2; name = file_name (codes "r") 2; content = codes "y" }
      ∷ record { generation = 10; name = file_name (codes "r") 10; content = codes "x" }
      ∷ []
unfolding list_generation_files generation_of_name file_name decimal
files_test = refl

parse_file_test :
    parse_file
      (λ s. none)
      (record {
        generation = 3;
        name = [];
        content =
            codes "1:E:1:a"
            ++ (10 ∷ (codes "2:R:4" ++ (10 ∷ (codes "bad" ++ (10 ∷ codes "3:T:0:")))));
      })
    ≡ entry 1 3 (codes "a") ∷ rotate 2 4 ∷ tombstone 3 4 [] ∷ []
unfolding parse_file parse_line split_colon number parse_typed
parse_file_test = refl
