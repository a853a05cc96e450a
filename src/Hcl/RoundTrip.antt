-- ===== src/Hcl/RoundTrip.antt =====
-- Requests that are written as HCL are read again.
use go_temporal_timeline.Prelude.{
  ◌≡◌, refl, ap, sym, ◌∙◌, Bool, true, false, ◌&&◌, String, Option, none, some, ◌⊎◌, inr, List, [],
  ◌∷◌, ◌++◌, map, append_assoc, append-nil, all,
}
use go_temporal_timeline.GoTime.{Time}
use go_temporal_timeline.GoFloat.{Float64}
use go_temporal_timeline.GoValue.{
  Value, nil, bool, float, int, int64, text, array, object, Values, no_values, item, Fields,
  no_fields, field,
}
use go_temporal_timeline.GoResult.{ok, ◌>>=◌}
use go_temporal_timeline.GoParse.{TimeParser}
use go_temporal_timeline.Temporal.Types.{TimeRange, OperationHead, QueryOperation, plain, nested}
use go_temporal_timeline.Temporal.Workflows.{QueryRequest}
use go_temporal_timeline.Hcl.{
  BigFloat, NumberReader, CtyValue, cty_null, cty_string, cty_number, cty_bool, cty_object,
  cty_tuple, cty_other, CtyValues, no_cty_values, cty_item, CtyFields, no_cty_fields, cty_field,
  hcl_value_to_interface, convert_values, convert_fields, hcl_value_to_map, HclNestedOp,
  HclOperation, HclTimeRange, HclQuery, evaluate_attribute, convert_nested, convert_operation,
  convert_operations, time_or_error, parsed_time, convert_time_range, convert_hcl_query,
}

-- How floats are written: a finite one as a number that is rounded to it.
pub record NumberWriter ⦃n : NumberReader⦄ : Type 0 where
  pub exact : Float64 → BigFloat
  pub is_finite : Float64 → Bool
  pub nearest-exact : (x : Float64) → is_finite x ≡ true → n.nearest (exact x) ≡ x

-- The value as HCL has it. There are no integers besides floats.
unfoldable mutual
  pub to_cty : ⦃n : NumberReader⦄ → ⦃w : NumberWriter⦄ → Value → CtyValue
  to_cty nil = cty_null
  to_cty (bool b) = cty_bool b
  to_cty ⦃n⦄ ⦃w⦄ (float x) = cty_number (w.exact x)
  to_cty (int i) = cty_other
  to_cty (int64 i) = cty_other
  to_cty (text s) = cty_string s
  to_cty (array vs) = cty_tuple (to_cty_values vs)
  to_cty (object fs) = cty_object (to_cty_fields fs)

  pub to_cty_values : ⦃n : NumberReader⦄ → ⦃w : NumberWriter⦄ → Values → CtyValues
  to_cty_values no_values = no_cty_values
  to_cty_values (item v vs) = cty_item (to_cty v) (to_cty_values vs)

  pub to_cty_fields : ⦃n : NumberReader⦄ → ⦃w : NumberWriter⦄ → Fields → CtyFields
  to_cty_fields no_fields = no_cty_fields
  to_cty_fields (field k v fs) = cty_field k (to_cty v) (to_cty_fields fs)

-- No integers stand anywhere in the value, and all of its floats are finite.
unfoldable mutual
  pub is_writable : ⦃n : NumberReader⦄ → ⦃w : NumberWriter⦄ → Value → Bool
  is_writable nil = true
  is_writable (bool b) = true
  is_writable ⦃n⦄ ⦃w⦄ (float x) = w.is_finite x
  is_writable (int i) = false
  is_writable (int64 i) = false
  is_writable (text s) = true
  is_writable (array vs) = are_writable vs
  is_writable (object fs) = is_writable_map fs

  pub are_writable : ⦃n : NumberReader⦄ → ⦃w : NumberWriter⦄ → Values → Bool
  are_writable no_values = true
  are_writable (item v vs) = is_writable v && are_writable vs

  pub is_writable_map : ⦃n : NumberReader⦄ → ⦃w : NumberWriter⦄ → Fields → Bool
  is_writable_map no_fields = true
  is_writable_map (field k v fs) = is_writable v && is_writable_map fs

and_left : (a b : Bool) → (a && b) ≡ true → a ≡ true
and_left true b h = refl
and_left false b h = h

and_right : (a b : Bool) → (a && b) ≡ true → b ≡ true
and_right true b h = h
and_right false b h = cc

mutual
  unfolding hcl_value_to_interface to_cty is_writable

  convert-to_cty :
      ⦃n : NumberReader⦄ ⦃w : NumberWriter⦄ (v : Value)
      → is_writable v ≡ true
      → hcl_value_to_interface (to_cty v) ≡ ok v
  convert-to_cty nil h = refl
  convert-to_cty (bool b) h = refl
  convert-to_cty ⦃n⦄ ⦃w⦄ (float x) h = ap (λ y. ok (float y)) (w.nearest-exact x h)
  convert-to_cty (int i) h = cc
  convert-to_cty (int64 i) h = cc
  convert-to_cty (text s) h = refl
  convert-to_cty (array vs) h = ap (λ o. o >>= λ r. ok (array r)) (convert_values-to_cty vs h)
  convert-to_cty (object fs) h = ap (λ o. o >>= λ r. ok (object r)) (convert_fields-to_cty fs h)

  convert_values-to_cty :
      ⦃n : NumberReader⦄ ⦃w : NumberWriter⦄ (vs : Values)
      → are_writable vs ≡ true
      → convert_values (to_cty_values vs) ≡ ok vs
  convert_values-to_cty no_values h = refl
  convert_values-to_cty (item v vs) h =
      rw
        (
          convert-to_cty v (and_left (is_writable v) (are_writable vs) h),
          convert_values-to_cty vs (and_right (is_writable v) (are_writable vs) h),
        )
        refl

  convert_fields-to_cty :
      ⦃n : NumberReader⦄ ⦃w : NumberWriter⦄ (fs : Fields)
      → is_writable_map fs ≡ true
      → convert_fields (to_cty_fields fs) ≡ ok fs
  convert_fields-to_cty no_fields h = refl
  convert_fields-to_cty (field k v fs) h =
      rw
        (
          convert-to_cty v (and_left (is_writable v) (is_writable_map fs) h),
          convert_fields-to_cty fs (and_right (is_writable v) (is_writable_map fs) h),
        )
        refl

abbrev pub write_attribute :
    ⦃n : NumberReader⦄ → ⦃w : NumberWriter⦄ → Fields → Option (String ⊎ CtyValue)
write_attribute fs = some (inr (cty_object (to_cty_fields fs)))

-- An operation as HCL can have it: what is nested has an id, a type and a source, and no more.
pub data HclShape : Type 0 where
  flat : OperationHead → HclShape
  of_simple : OperationHead → (id type source : String) → HclShape

abbrev simple : String → String → String → OperationHead
simple id type source =
    convert_nested (record { label = id; id = id; type = type; source = some source })

abbrev pub operation_of : HclShape → QueryOperation
operation_of (flat h) = plain h
operation_of (of_simple h id type source) = nested h (plain (simple id type source))

abbrev pub shape_head : HclShape → OperationHead
shape_head (flat h) = h
shape_head (of_simple h id type source) = h

abbrev nested_of : HclShape → List HclNestedOp
nested_of (flat h) = []
nested_of (of_simple h id type source) =
    record { label = id; id = id; type = type; source = some source } ∷ []

abbrev pub write_operation : ⦃n : NumberReader⦄ → ⦃w : NumberWriter⦄ → HclShape → HclOperation
write_operation o =
    let h = shape_head o in
    record {
      label = h.id;
      id = h.id;
      type = h.op;
      source = some h.source;
      equals = some h.equals;
      window = some h.window;
      params = write_attribute h.params;
      nested_op = nested_of o;
      condition_all = h.condition_all;
      condition_any = h.condition_any;
    }

-- The parameters can be written.
abbrev pub is_writable_shape : ⦃n : NumberReader⦄ → ⦃w : NumberWriter⦄ → HclShape → Bool
is_writable_shape o = is_writable_map (shape_head o).params

convert_operation-write :
    ⦃n : NumberReader⦄ ⦃w : NumberWriter⦄ (o : HclShape)
    → is_writable_shape o ≡ true
    → convert_operation (write_operation o) ≡ ok (operation_of o)
unfolding convert_operation evaluate_attribute hcl_value_to_map
convert_operation-write (flat h) e = rw (convert_fields-to_cty h.params e) refl
convert_operation-write (of_simple h id type source) e = rw (convert_fields-to_cty h.params e) refl

convert_operations-write :
    ⦃n : NumberReader⦄ ⦃w : NumberWriter⦄ (done : List QueryOperation) (os : List HclShape)
    → all is_writable_shape os ≡ true
    → convert_operations done (map write_operation os) ≡ ok (done ++ map operation_of os)
unfolding convert_operations
convert_operations-write done [] e = ap ok (sym (append-nil done))
convert_operations-write done (o ∷ os) e =
    ap (λ x. x >>= λ op. convert_operations (done ++ op ∷ []) (map write_operation os))
      (convert_operation-write o (and_left (is_writable_shape o) (all is_writable_shape os) e))
    ∙ convert_operations-write (done ++ operation_of o ∷ []) os
        (and_right (is_writable_shape o) (all is_writable_shape os) e)
    ∙ ap ok (append_assoc done (operation_of o ∷ []) (map operation_of os))

module _ (format : Time → String) where
  abbrev pub write_range : Option TimeRange → Option HclTimeRange
  write_range none = none
  write_range (some r) = some (record { start = format r.start; end = format r.end })

  -- The texts of the instants are read back.
  abbrev pub IsReadBack : ⦃t : TimeParser⦄ → Option TimeRange → Type 0
  IsReadBack ⦃t⦄ none = t.parse_rfc3339 ≡ t.parse_rfc3339
  IsReadBack ⦃t⦄ (some r) =
      (t.parse_rfc3339 (format r.start) ≡ some r.start)
      × (t.parse_rfc3339 (format r.end) ≡ some r.end)

  module _ ⦃t : TimeParser⦄ where
    convert_time_range-write :
        (range : Option TimeRange)
        → IsReadBack range
        → convert_time_range (write_range range) ≡ ok range
    unfolding convert_time_range
    convert_time_range-write none h = refl
    convert_time_range-write (some r) h =
        ap
          (λ u. time_or_error "failed to parse start time: %w" u >>= λ start.
            parsed_time "failed to parse end time: %w" (format r.end) >>= λ end.
            ok (some (record { start = start; end = end })))
          h.0
        ∙ ap
            (λ u. time_or_error "failed to parse end time: %w" u >>= λ end.
              ok (some (record { start = r.start; end = end })))
            h.1

  module _ ⦃n : NumberReader⦄ ⦃w : NumberWriter⦄ where
    -- The query, whose operations have the shapes.
    abbrev pub write_query : QueryRequest → List HclShape → HclQuery
    write_query q shapes = record {
      timeline_id = q.timeline_id;
      operations = map write_operation shapes;
      filters = write_attribute q.filters;
      time_range = write_range q.time_range;
    }

    module _ ⦃t : TimeParser⦄ where
      -- A query without a processing mode, whose operations are nested at most once and whose nested
      -- operations have an id, a type and a source only, is read again from its HCL exactly as it was,
      -- if among its parameters and filters there are no integers and no floats but finite ones, each
      -- written as a number that is rounded to it, and the instants of its range are read back.
      pub convert_hcl_query-write :
          (q : QueryRequest) (shapes : List HclShape)
          → q.operations ≡ map operation_of shapes
          → q.processing_mode ≡ ""
          → all is_writable_shape shapes ≡ true
          → is_writable_map q.filters ≡ true
          → IsReadBack q.time_range
          → convert_hcl_query (write_query q shapes) ≡ ok q
      unfolding convert_hcl_query evaluate_attribute hcl_value_to_map
      convert_hcl_query-write q shapes same no_mode h k l =
          rw
            (
              convert_operations-write [] shapes h,
              convert_fields-to_cty q.filters k,
              convert_time_range-write q.time_range l,
            )
            (ap (λ ops. ok (record q { operations = ops; processing_mode = "" })) (sym same)
              ∙ ap (λ mode. ok (record q { processing_mode = mode })) (sym no_mode))
