-- ===== src/Hcl/Files.antt =====
-- The functions of pkg/hcl/parser.go and pkg/hcl/merge.go that read texts and files. The parser and the
-- decoder of the HCL library, and the reading of files, are parameters.
use Prim.Native.String.{◌++◌ as append_text}
use go_temporal_timeline.Prelude.{String, ◌⊎◌, inl, inr, List, [], ◌∷◌}
use go_temporal_timeline.GoResult.{Error, errorf, wrapped, Outcome, ok, fail, ◌>>=◌}
use go_temporal_timeline.GoParse.{TimeParser}
use go_temporal_timeline.Temporal.Workflows.{QueryRequest, ReplayRequest}
use go_temporal_timeline.Hcl.{
  NumberReader, HclQuery, HclReplayRequest, convert_hcl_query, convert_replay,
  convert_replay_from_file,
}

-- The HCL library: a text is parsed, and a body is decoded, or there are diagnostics.
pub record HclReader : Type 1 where
  pub File : Type 0
  pub parse_hcl : String → String ⊎ File
  pub decode_query : File → String ⊎ HclQuery
  pub decode_replay : File → String ⊎ HclReplayRequest

abbrev pub diagnosed : {A : Type 0} → String → String ⊎ A → Outcome A
diagnosed message (inl d) = fail (errorf message (d ∷ []))
diagnosed message (inr a) = ok a

module _ (R : HclReader) ⦃n : NumberReader⦄ ⦃t : TimeParser⦄ where
  unfoldable pub parse_hcl_query : String → Outcome QueryRequest
  unfolding convert_hcl_query
  parse_hcl_query content = do
    file ← diagnosed "failed to parse HCL: %s" (R.parse_hcl content)
    query ← diagnosed "failed to decode HCL body: %s" (R.decode_query file)
    convert_hcl_query query

  unfoldable pub parse_hcl_replay_request : String → Outcome ReplayRequest
  unfolding convert_replay
  parse_hcl_replay_request content = do
    file ← diagnosed "failed to parse HCL: %s" (R.parse_hcl content)
    replay ← diagnosed "failed to decode HCL body: %s" (R.decode_replay file)
    convert_replay replay

  unfoldable pub parse_hcl_query_from_file : R.File → Outcome QueryRequest
  unfolding convert_hcl_query
  parse_hcl_query_from_file file =
      diagnosed "failed to decode HCL body: %s" (R.decode_query file) >>= λ query.
      convert_hcl_query query

  unfoldable pub parse_hcl_replay_from_file : R.File → Outcome ReplayRequest
  unfolding convert_replay_from_file
  parse_hcl_replay_from_file file =
      diagnosed "failed to decode HCL body: %s" (R.decode_replay file) >>= λ replay.
      convert_replay_from_file replay

-- The contents of the files, each with a line break at its end. `read` is `os.ReadFile`.
unfoldable pub merged_content : (String → Error ⊎ String) → String → List String → Outcome String
merged_content read content [] = ok content
merged_content read content (path ∷ paths) = elim (read path) [
  | inl e ↦ fail (wrapped "failed to read file %s: %w" (path ∷ []) e)
  | inr c ↦ merged_content read (append_text content (append_text c "\n")) paths
]

module _ (R : HclReader) (read : String → Error ⊎ String) where
  unfoldable pub merge_hcl_files : List String → Outcome R.File
  unfolding merged_content
  merge_hcl_files paths = do
    content ← merged_content read "" paths
    diagnosed "failed to parse merged HCL content: %s" (R.parse_hcl content)

  -- `mergedFile`, for the outcome of the walk through the directory.
  abbrev pub merged_directory : String → Error ⊎ List String → Outcome R.File
  merged_directory dir (inl e) = fail (wrapped "failed to walk directory %s: %w" (dir ∷ []) e)
  merged_directory dir (inr []) = fail (errorf "no HCL files found in directory %s" (dir ∷ []))
  merged_directory dir (inr (path ∷ paths)) = merge_hcl_files (path ∷ paths)

  module _ ⦃n : NumberReader⦄ ⦃t : TimeParser⦄ where
    abbrev pub parse_hcl_directory : String → Error ⊎ List String → Outcome QueryRequest
    parse_hcl_directory dir found =
        merged_directory dir found >>= λ file. parse_hcl_query_from_file R file

    abbrev pub parse_hcl_directory_for_replay : String → Error ⊎ List String → Outcome ReplayRequest
    parse_hcl_directory_for_replay dir found =
        merged_directory dir found >>= λ file. parse_hcl_replay_from_file R file
