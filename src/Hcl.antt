-- ===== src/Hcl.antt =====
-- pkg/hcl: the conversion of HCL queries and replays into requests, of parser.go and merge.go. The
-- HCL library is a parameter, as the rounding of its numbers: an attribute stands for what its
-- expression evaluates to.
pub mod RoundTrip
pub mod Files
pub mod ContentType
use Prim.Native.String.{◌++◌ as append_text}
use go_temporal_timeline.Prelude.{
  ℕ, Bool, String, Option, none, some, ◌⊎◌, inl, inr, List, [], ◌∷◌, ◌++◌, if◌then◌else◌,
}
use go_temporal_timeline.Prelude.Int.{ℤ}
use go_temporal_timeline.GoTime.{Time}
use go_temporal_timeline.GoFloat.{Float64}
use go_temporal_timeline.GoValue.{
  Value, nil, bool, float, text, array, object, Values, no_values, item, Fields, no_fields, field,
}
use go_temporal_timeline.GoResult.{
  Error, errorf, wrapped, Outcome, ok, fail, panic, ◌>>=◌, wrap_error,
}
use go_temporal_timeline.GoParse.{TimeParser}
use go_temporal_timeline.Temporal.Types.{TimeRange, OperationHead, QueryOperation, plain, nested}
use go_temporal_timeline.Temporal.Workflows.{QueryRequest, ReplayRequest}

-- `big.Float`, the number of HCL: the mantissa times 2 to the exponent.
pub record BigFloat : Type 0 where
  pub mantissa : ℤ
  pub exponent : ℤ

-- `nearest x` is `x.Float64()` without its accuracy: the float that `x` is rounded to.
pub record NumberReader : Type 0 where
  pub nearest : BigFloat → Float64

-- `cty.Value`: `cty_object` is an object or a map, `cty_tuple` a list or a tuple, and `cty_other` any
-- further type, for which `AsString` panics.
mutual
  pub data CtyValue : Type 0 where
    cty_null : CtyValue
    cty_string : String → CtyValue
    cty_number : BigFloat → CtyValue
    cty_bool : Bool → CtyValue
    cty_object : CtyFields → CtyValue
    cty_tuple : CtyValues → CtyValue
    cty_other : CtyValue

  pub data CtyValues : Type 0 where
    no_cty_values : CtyValues
    cty_item : CtyValue → CtyValues → CtyValues

  pub data CtyFields : Type 0 where
    no_cty_fields : CtyFields
    cty_field : String → CtyValue → CtyFields → CtyFields

unfoldable mutual
  pub hcl_value_to_interface : ⦃n : NumberReader⦄ → CtyValue → Outcome Value
  hcl_value_to_interface cty_null = ok nil
  hcl_value_to_interface (cty_string s) = ok (text s)
  hcl_value_to_interface ⦃n⦄ (cty_number x) = ok (float (n.nearest x))
  hcl_value_to_interface (cty_bool b) = ok (bool b)
  hcl_value_to_interface (cty_object fs) = convert_fields fs >>= λ r. ok (object r)
  hcl_value_to_interface (cty_tuple vs) = convert_values vs >>= λ r. ok (array r)
  hcl_value_to_interface cty_other = panic

  -- The loop over a slice.
  pub convert_values : ⦃n : NumberReader⦄ → CtyValues → Outcome Values
  convert_values no_cty_values = ok no_values
  convert_values (cty_item v vs) =
      hcl_value_to_interface v >>= λ x. convert_values vs >>= λ xs. ok (item x xs)

  -- The loop over a map.
  pub convert_fields : ⦃n : NumberReader⦄ → CtyFields → Outcome Fields
  convert_fields no_cty_fields = ok no_fields
  convert_fields (cty_field k v fs) =
      hcl_value_to_interface v >>= λ x. convert_fields fs >>= λ xs. ok (field k x xs)

-- A nil map reads as one without entries.
unfoldable pub hcl_value_to_map : ⦃n : NumberReader⦄ → CtyValue → Outcome Fields
unfolding convert_fields
hcl_value_to_map (cty_object fs) = convert_fields fs
hcl_value_to_map _ = ok no_fields

-- `hcl.Attribute`, optional: what its expression evaluates to, or the text of the diagnostics.
abbrev pub HclAttribute : Type 0
HclAttribute = Option (String ⊎ CtyValue)

pub record HclNestedOp : Type 0 where
  pub label : String
  pub id : String
  pub type : String
  pub source : Option String

pub record HclOperation : Type 0 where
  pub label : String
  pub id : String
  pub type : String
  pub source : Option String
  pub equals : Option String
  pub window : Option String
  pub params : HclAttribute
  pub nested_op : List HclNestedOp
  pub condition_all : List String
  pub condition_any : List String

pub record HclTimeRange : Type 0 where
  pub start : String
  pub end : String

pub record HclQuery : Type 0 where
  pub timeline_id : String
  pub operations : List HclOperation
  pub filters : HclAttribute
  pub time_range : Option HclTimeRange

pub record HclReplayRequest : Type 0 where
  pub timeline_id : String
  pub query : Option HclQuery
  pub chunk_size : Option ℕ

-- `if p != nil { x = *p }` on an empty string.
abbrev pub dereference : Option String → String
dereference none = ""
dereference (some s) = s

-- An attribute as a map, with the message for its diagnostics.
unfoldable pub evaluate_attribute : ⦃n : NumberReader⦄ → String → HclAttribute → Outcome Fields
unfolding hcl_value_to_map
evaluate_attribute message none = ok no_fields
evaluate_attribute message (some (inl diagnostics)) = fail (errorf message (diagnostics ∷ []))
evaluate_attribute message (some (inr v)) = hcl_value_to_map v

-- `nestedOp`.
abbrev pub convert_nested : HclNestedOp → OperationHead
convert_nested o = record {
  id = o.id;
  op = o.type;
  source = dereference o.source;
  equals = "";
  window = "";
  condition_all = [];
  condition_any = [];
  params = no_fields;
}

-- The first nested block, if there is one.
abbrev pub attach_nested : OperationHead → List HclNestedOp → QueryOperation
attach_nested h [] = plain h
attach_nested h (o ∷ os) = nested h (plain (convert_nested o))

unfoldable pub convert_operation : ⦃n : NumberReader⦄ → HclOperation → Outcome QueryOperation
unfolding evaluate_attribute
convert_operation o = do
  params ← evaluate_attribute "failed to evaluate params: %s" o.params
  ok (
      attach_nested
        (record {
          id = o.id;
          op = o.type;
          source = dereference o.source;
          equals = dereference o.equals;
          window = dereference o.window;
          condition_all = o.condition_all;
          condition_any = o.condition_any;
          params = params;
        })
        o.nested_op)

unfoldable pub convert_operations :
    ⦃n : NumberReader⦄ → List QueryOperation → List HclOperation → Outcome (List QueryOperation)
unfolding convert_operation
convert_operations done [] = ok done
convert_operations done (o ∷ os) =
    convert_operation o >>= λ op. convert_operations (done ++ op ∷ []) os

-- The size, or the zero of a new request.
abbrev pub chunk_size_of : Option ℕ → ℕ
chunk_size_of none = 0
chunk_size_of (some n) = n

abbrev pub replay_of : HclReplayRequest → QueryRequest → ReplayRequest
replay_of r query = record {
  timeline_id = r.timeline_id;
  query = query;
  chunk_size = chunk_size_of r.chunk_size;
  processing_mode = "";
}

abbrev pub empty_query : QueryRequest
empty_query = record {
  timeline_id = "";
  operations = [];
  filters = no_fields;
  time_range = none;
  processing_mode = "";
}

abbrev pub time_or_error : String → Option Time → Outcome Time
time_or_error message none = fail (errorf message [])
time_or_error message (some u) = ok u

module _ ⦃t : TimeParser⦄ where
  -- `time.Parse(time.RFC3339, s)`; of its error only that there is one is kept.
  abbrev pub parsed_time : String → String → Outcome Time
  parsed_time message s = time_or_error message (t.parse_rfc3339 s)

  unfoldable pub convert_time_range : Option HclTimeRange → Outcome (Option TimeRange)
  convert_time_range none = ok none
  convert_time_range (some r) = do
    start ← parsed_time "failed to parse start time: %w" r.start
    end ← parsed_time "failed to parse end time: %w" r.end
    ok (some (record { start = start; end = end }))

  unfoldable pub convert_hcl_query : ⦃n : NumberReader⦄ → HclQuery → Outcome QueryRequest
  unfolding convert_operations evaluate_attribute convert_time_range
  convert_hcl_query q = do
    operations ← convert_operations [] q.operations
    filters ← evaluate_attribute "failed to evaluate filters: %s" q.filters
    range ← convert_time_range q.time_range
    ok (record {
      timeline_id = q.timeline_id;
      operations = operations;
      filters = filters;
      time_range = range;
      processing_mode = "";
    })

  -- The end of `ParseHCLReplayRequest`.
  unfoldable pub convert_replay : ⦃n : NumberReader⦄ → HclReplayRequest → Outcome ReplayRequest
  unfolding convert_hcl_query
  convert_replay r = elim r.query [
    | none ↦ fail (errorf "replay request must include a query block" [])
    | some q ↦ convert_hcl_query q >>= λ query. ok (replay_of r query)
  ]

  -- The end of `parseHCLReplayFromFile`.
  unfoldable pub convert_replay_from_file :
      ⦃n : NumberReader⦄ → HclReplayRequest → Outcome ReplayRequest
  unfolding convert_hcl_query
  convert_replay_from_file r = elim r.query [
    | none ↦ ok (replay_of r empty_query)
    | some q ↦ wrap_error "error converting nested query: %w" [] (convert_hcl_query q) >>= λ query.
        ok (replay_of r query)
  ]
