-- ===== src/Gateway/Session.antt =====
-- pkg/datagateway/server_v2_commit.go and the closing of writers in server_v2_writing.go: the session
-- barrier. The plane writer's Close is a parameter, and so is what the pool's goroutines do before
-- Wait returns. A Go map is an association list, walked in its order. Row counts are unbounded.
pub mod Barrier
pub mod Fence
use datuplet.Prelude.{
  Assoc, Bool, List, Option, Result, Text, [], bytes, contains, err, false, get_or, if◌then◌else◌,
  insert, is_empty, leb, length, lookup, map, none, not, ok, some, text_eq, true, ℕ, ◌%◌, ◌&&◌,
  ◌++◌, ◌+◌, ◌-◌, ◌==◌, ◌>>=◌, ◌^◌, ◌∷◌,
}
use datuplet.Gateway.CommitPool.{
  CommitJob, CommitPool, DispatchError, WriteMode, append, dispatch, full_load,
}
use datuplet.Gateway.CommitPool.Key.{sort, text_leb}

pub record OutputTable : Type 0 where
  pub name : Text
  pub bucket : Text
  pub write_mode : Text

pub record Config : Type 0 where
  pub default_bucket : Text
  pub default_write_mode : Text
  pub output_buckets : List Text
  pub output_tables : List OutputTable
  pub preview : Bool

pub record WrittenFile : Type 0 where
  pub path : Text
  pub rows : ℕ
  pub size : ℕ

-- `opened`: the plane writer exists, after the first chunk
pub record WriterState : Type 0 where
  pub bucket : Text
  pub table : Text
  pub opened : Bool
  pub files : List WrittenFile
  pub committed : Bool

pub record ServerV2 : Type 0 where
  pub config : Config
  pub run_id : Text
  pub writers : Assoc Text WriterState
  pub commit_pool : Option CommitPool

-- strings.ToUpper, read only to compare with FULL_LOAD, whose letters no other character maps to
unfoldable to_upper_byte : ℕ → ℕ
to_upper_byte c = if leb 97 c && leb c 122 then c - 32 else c

unfoldable is_full_load : Text → Bool
unfolding to_upper_byte
is_full_load mode = map to_upper_byte mode == bytes "FULL_LOAD"

unfoldable table_mode : List OutputTable → Text → Text → Option WriteMode
unfolding is_full_load
table_mode [] bucket table = none
table_mode (t ∷ ts) bucket table =
    if t.bucket == bucket && t.name == table
    then some (if is_full_load t.write_mode then full_load else append)
    else table_mode ts bucket table

-- `none` is the empty mode
unfoldable pub write_mode_for_table : Config → Text → Text → Option WriteMode
unfolding table_mode is_full_load
write_mode_for_table c bucket table = elim (table_mode c.output_tables bucket table) [
  | some m ↦ some m
  | none ↦
      if not (is_empty c.default_bucket) && c.default_bucket == bucket
      then some (if is_full_load c.default_write_mode then full_load else append)
      else none
]

-- the bucket of a request that names none, from the first output table with the name
unfoldable pub bucket_of_table : List OutputTable → Text → Text
bucket_of_table [] table = []
bucket_of_table (t ∷ ts) table = if t.name == table then t.bucket else bucket_of_table ts table

unfoldable pub resolve_bucket : Config → Text → Text → Text
unfolding bucket_of_table
resolve_bucket c bucket table =
    let named = if is_empty bucket then bucket_of_table c.output_tables table else bucket in
    if is_empty named then c.default_bucket else named

-- a set kept as a list: a member is not added again
unfoldable add_member : List Text → Text → List Text
add_member members b = if contains members b then members else members ++ (b ∷ [])

unfoldable add_members : List Text → List Text → List Text
unfolding add_member
add_members members [] = members
add_members members (b ∷ bs) = add_members (add_member members b) bs

unfoldable add_table_buckets : List Text → List OutputTable → List Text
unfolding add_member
add_table_buckets members [] = members
add_table_buckets members (t ∷ ts) =
    add_table_buckets (if is_empty t.bucket then members else add_member members t.bucket) ts

unfoldable pub declared_output_buckets : Config → List Text
unfolding add_members add_table_buckets
declared_output_buckets c =
    let members = if is_empty c.default_bucket then [] else c.default_bucket ∷ [] in
    sort (add_table_buckets (add_members members c.output_buckets) c.output_tables)

-- sort.SearchStrings: the first element that is not below `b`, which the caller compares with `b`
unfoldable search_strings : List Text → Text → Option Text
search_strings [] b = none
search_strings (s ∷ ss) b = if text_leb b s then some s else search_strings ss b

abbrev found : Option Text → Text → Bool
found none b = false
found (some s) b = s == b

unfoldable pub declared_output_bucket : Config → Text → Bool
unfolding search_strings
declared_output_bucket c bucket =
    let declared = declared_output_buckets c in
    if is_empty declared then not c.preview else found (search_strings declared bucket) bucket

pub data SessionError : Type 0 where
  unknown_writer : SessionError
  external_files : SessionError
  close_failed : Text → SessionError
  sweep_close_failed : Text → Text → Text → SessionError
  not_dispatched : Text → Text → DispatchError → SessionError

-- closeTableWriter: the writer with its files, and the files
unfoldable pub close_table_writer :
    (Text → Result Text (List WrittenFile))
    → Text
    → WriterState
    → Result Text (WriterState × List WrittenFile)
close_table_writer close id ws =
    if ws.opened
    then (close id >>= λ files. ok (record ws { files = files }, files))
    else ok (ws, [])

abbrev set_writer : Text → WriterState → ServerV2 → ServerV2
set_writer id ws s = record s { writers = insert s.writers id ws }

unfoldable job_of : ServerV2 → Text → WriterState → CommitJob
job_of s id ws = record {
  writer_id = id;
  namespace = ws.bucket;
  table = ws.table;
  run_id = s.run_id;
  data_paths = map (λ f. f.path) ws.files;
  mode = get_or (write_mode_for_table s.config ws.bucket ws.table) append;
}

-- the part of finalizeAndDispatch after the claim
unfoldable dispatch_commit :
    ServerV2 → Text → WriterState → Option CommitPool → ServerV2 × Option SessionError
unfolding job_of
dispatch_commit s id ws none = (s, none)
dispatch_commit s id ws (some p) =
    if is_empty ws.files then (s, none) else elim (dispatch p (job_of s id ws)) [
      | err e ↦ (s, some (not_dispatched ws.bucket ws.table e))
      | ok q ↦ (record s { commit_pool = some q }, none)
    ]

unfoldable pub finalize_and_dispatch :
    ServerV2 → Text → WriterState → ServerV2 × Option SessionError
unfolding dispatch_commit
finalize_and_dispatch s id ws =
    if ws.committed
    then (s, none)
    else dispatch_commit (set_writer id (record ws { committed = true }) s) id ws s.commit_pool

-- what CloseWriter answers: rows, bytes and number of files
unfoldable totals : List WrittenFile → ℕ × ℕ
totals [] = (0, 0)
totals (f ∷ fs) = let (rows, size) = totals fs in (f.rows + rows, f.size + size)

unfoldable closed_answer :
    ServerV2 × Option SessionError → List WrittenFile → ServerV2 × Result SessionError (ℕ × ℕ × ℕ)
unfolding totals
closed_answer (s, some e) files = (s, err e)
closed_answer (s, none) files =
    let (rows, size) = totals files in (s, ok (rows, size, length files % 2 ^ 32))

unfoldable pub close_writer :
    (Text → Result Text (List WrittenFile))
    → Text
    → Bool
    → ServerV2
    → ServerV2 × Result SessionError (ℕ × ℕ × ℕ)
unfolding closed_answer
close_writer close id has_external_files s = elim (lookup s.writers id) [
  | none ↦ (s, err unknown_writer)
  | some ws ↦
      if has_external_files
      then (s, err external_files)
      else elim (close_table_writer close id ws) [
        | err e ↦ (s, err (close_failed e))
        | ok (ws', files) ↦ closed_answer (finalize_and_dispatch (set_writer id ws' s) id ws') files
      ]
]
