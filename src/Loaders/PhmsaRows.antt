-- ===== src/Loaders/PhmsaRows.antt =====
-- backend/app/ingest/phmsa_loader.py: the label and the text of one incident. A dictionary is the list
-- of its items in order.
use pipe_line_gpt_backend.Prelude.{
  String, not, ◌&&◌, ◌||◌, Option, none, some, List, [], ◌∷◌, ◌++◌, select, str_eq, if◌then◌else◌,
  strip, contains, ends_with, split_on, is_code, join_with,
}
use pipe_line_gpt_backend.FileTypes.{or_text}
use pipe_line_gpt_backend.Loaders.{cell, extra, Row, Readers}

-- PHMSA_FIELD_MAP.get
unfoldable pub phmsa_field_map : String → Option String
phmsa_field_map k =
    if str_eq k "IYEAR"
    then some "year"
    else if str_eq k "OPERATOR_ID"
    then some "operator_id"
    else if str_eq k "OPERATOR_NAME"
    then some "operator_name"
    else if str_eq k "CAUSE"
    then some "cause"
    else if str_eq k "SUBCAUSE"
    then some "subcause"
    else if str_eq k "LOCATION_CITY"
    then some "city"
    else if str_eq k "LOCATION_STATE"
    then some "state"
    else if str_eq k "FATAL"
    then some "fatalities"
    else if str_eq k "INJURE"
    then some "injuries"
    else if str_eq k "COST_CURRENT"
    then some "cost_usd"
    else if str_eq k "COMMODITY"
    then some "commodity"
    else if str_eq k "PIPELINE_TYPE"
    then some "pipeline_type"
    else if str_eq k "PIPELINE_SYSTEM"
    then some "pipeline_system"
    else none

-- `row.get(column)`: not there, there with no text, or there with a text
unfoldable pub get : String → Row → Option (Option String)
get column [] = none
get column (cell k v ∷ fs) = if str_eq k column then some v else get column fs
get column (extra vs ∷ fs) = get column fs

-- `row.get(column) or ""`
unfoldable pub get_text : String → Row → String
unfolding get
get_text column row = elim (get column row) [
  | none ↦ ""
  | some v ↦ elim v [ none ↦ "" | some t ↦ t ]
]

abbrev pub Dict : Type 0
Dict = List (String × String)

-- `d[k] = v`, in the place of the key where it is there
unfoldable pub put : String → String → Dict → Dict
put k v [] = (k, v) ∷ []
put k v ((j, w) ∷ d) = let rest = put k v d in if str_eq j k then (k, v) ∷ d else (j, w) ∷ rest

-- `d.pop(k, default)`
unfoldable pub pop : String → String → Dict → String × Dict
pop k default [] = (default, [])
pop k default ((j, v) ∷ d) =
    let rest = pop k default d in if str_eq j k then (v, d) else (rest.0, (j, v) ∷ rest.1)

-- `sep.join(filter(None, ts))`
unfoldable pub join_texts : String → List String → String
unfolding join_with
join_texts sep ts = join_with sep (select (λ t. not (str_eq t "")) ts)

module _ (r : Readers) where
  -- the first of the formats that reads the text
  abbrev first_date : String → List String → String
  first_date value [] = value
  first_date value (format ∷ formats) = elim (r.parse_date format value) [
    | none ↦ first_date value formats
    | some date ↦ date
  ]

  unfoldable pub incident_date : String → String
  unfolding strip
  incident_date local_datetime =
      first_date (strip local_datetime) (
        "%m/%d/%Y %H:%M" ∷ "%m/%d/%Y %H:%M:%S" ∷ "%m/%d/%Y" ∷ "%Y-%m-%d %H:%M:%S" ∷ "%Y-%m-%d" ∷ [])

  -- the place by its city, or by its county
  unfoldable pub place_of : String → String → String
  unfolding ends_with join_with
  place_of city county =
      if not (str_eq city "") && not (contains "MUNICIPALITY" (r.upper city))
      then r.title city
      else if str_eq county ""
      then ""
      else if ends_with (r.upper county) "COUNTY" || ends_with (r.upper county) "PARISH"
      then r.title county
      else join_with "" (r.title county ∷ " County" ∷ [])

  -- `_incident_label`
  unfoldable pub incident_label : Row → String
  unfolding get_text strip incident_date place_of join_texts join_with
  incident_label row =
      let date =
        or_text (incident_date (get_text "LOCAL_DATETIME" row)) (strip (get_text "IYEAR" row)) in
      let city = strip (get_text "LOCATION_CITY" row) in
      let county =
        strip
          (or_text (get_text "ONSHORE_COUNTY_NAME" row) (get_text "OFFSHORE_COUNTY_NAME" row)) in
      let place =
        join_texts ", "
          (place_of city county ∷ r.upper (strip (get_text "LOCATION_STATE" row)) ∷ []) in
      let cause = r.capitalize (strip (get_text "CAUSE" row)) in
      let report = strip (get_text "REPORT_NUMBER" row) in
      let named = if str_eq report "" then "" else join_with "" ("Report " ∷ report ∷ []) in
      or_text (join_texts " · " (date ∷ place ∷ cause ∷ named ∷ [])) "Incident"

  abbrev mapped_name : String → String
  mapped_name k = elim (phmsa_field_map k) [ none ↦ r.lower k | some name ↦ name ]

  -- `mapped`: the items with a text, under their new names. Texts beyond the header have no `strip`.
  unfoldable pub mapped_from : Dict → Row → Option Dict
  unfolding strip put phmsa_field_map
  mapped_from d [] = some d
  mapped_from d (cell k none ∷ fs) = mapped_from d fs
  mapped_from d (cell k (some v) ∷ fs) =
      mapped_from (if str_eq (strip v) "" then d else put (mapped_name k) v d) fs
  mapped_from d (extra vs ∷ fs) = none

  -- "Name: value" for the items that are left
  unfoldable pub remaining_parts : Dict → List String
  unfolding split_on join_with
  remaining_parts [] = []
  remaining_parts ((k, v) ∷ d) =
      join_with "" (r.title (join_with " " (split_on (is_code 95) k)) ∷ ": " ∷ v ∷ [])
      ∷ remaining_parts d

  abbrev when_text : String → List String → List String
  when_text t parts = if str_eq t "" then [] else parts

  -- the summary of an incident and its other items
  unfoldable pub text_of_mapped : Dict → String
  unfolding pop join_texts join_with remaining_parts
  text_of_mapped d0 =
      let (year, d1) = pop "year" "" d0 in
      let (city, d2) = pop "city" "" d1 in
      let (state, d3) = pop "state" "" d2 in
      let (cause, d4) = pop "cause" "" d3 in
      let (subcause, d5) = pop "subcause" "" d4 in
      let (fatalities, d6) = pop "fatalities" "0" d5 in
      let (injuries, d7) = pop "injuries" "0" d6 in
      let (cost, d8) = pop "cost_usd" "" d7 in
      let (operator_id, d9) = pop "operator_id" "" d8 in
      let (operator, d10) = pop "operator_name" operator_id d9 in
      let location = join_texts ", " (city ∷ state ∷ []) in
      let summary =
        ("PHMSA Incident [" ∷ year ∷ "]: Operator: " ∷ operator ∷ ". Location: " ∷ location
          ∷ ". Cause: " ∷ cause ∷ [])
        ++ (when_text subcause (" (" ∷ subcause ∷ ")" ∷ []))
        ++ (". Fatalities: " ∷ fatalities ∷ ". Injuries: " ∷ injuries ∷ "." ∷ [])
        ++ (when_text cost (" Estimated cost: $" ∷ cost ∷ "." ∷ [])) in
      join_with " " (join_with "" summary ∷ remaining_parts d10)

  -- `_row_to_text`, or none where it raises
  unfoldable pub row_to_text : Row → Option String
  unfolding mapped_from text_of_mapped
  row_to_text row = elim (mapped_from [] row) [ none ↦ none | some d ↦ some (text_of_mapped d) ]
