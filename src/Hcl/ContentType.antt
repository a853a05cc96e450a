-- ===== src/Hcl/ContentType.antt =====
-- `DetectContentType` of pkg/hcl/content_type.go. The parsing of the header, the reading and trimming
-- of the body, and whether a text parses as HCL, are parameters.
use Prim.Native.Char.{code}
use Prim.Native.String.{[] as no_text, ◌∷◌ as char_cons}
use go_temporal_timeline.Prelude.{
  Bool, false, ◌||◌, String, Option, none, some, ◌⊎◌, inl, inr, [], str_eq, ◌==◌, if◌then◌else◌,
}
use go_temporal_timeline.GoResult.{Error, wrapped, Outcome, ok, fail}

abbrev pub content_type_hcl : String
content_type_hcl = "application/vnd.hcl"

abbrev pub content_type_json : String
content_type_json = "application/json"

-- The media type of the header, if it has one that parses; the body; and what `bytes.TrimSpace` and
-- `IsHCL` make of it.
pub record Incoming : Type 0 where
  pub media_type : Option String
  pub body : Error ⊎ String
  pub trim_space : String → String
  pub is_hcl : String → Bool

-- `{` or `[` stands first.
abbrev looks_like_json : String → Bool
looks_like_json no_text = false
looks_like_json (char_cons c s) = (code c == 123) || (code c == 91)

abbrev pub inspect_body : Incoming → String → String
inspect_body r trimmed =
    if str_eq trimmed ""
    then content_type_json
    else if looks_like_json trimmed
    then content_type_json
    else if r.is_hcl trimmed
    then content_type_hcl
    else content_type_json

abbrev by_content : Incoming → Error ⊎ String → Outcome String
by_content r (inl e) = fail (wrapped "failed to read request body: %w" [] e)
by_content r (inr body) = ok (inspect_body r (r.trim_space body))

unfoldable pub detect_content_type : Incoming → Outcome String
detect_content_type r = elim r.media_type [
  | none ↦ by_content r r.body
  | some media ↦
      if str_eq media content_type_hcl
      then ok content_type_hcl
      else if str_eq media content_type_json
      then ok content_type_json
      else by_content r r.body
]
