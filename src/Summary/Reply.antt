-- ===== src/Summary/Reply.antt =====
-- `first_json_object` and `parse_summary`: what is read out of the model's reply. serde's parser and
-- printer of JSON are arguments.
use scribe_local.Common.{
  ℕ, suc, ◌-◌, Bool, true, false, not, ◌&&◌, ◌||◌, [], ◌∷◌, Option, none, some, ◌==◌, if◌then◌else◌,
}
use scribe_local.Common.Json.{
  Json, null, bool, number, string, array, object, Items, nil, item, Fields, end, field,
}
use scribe_local.Common.Text.{Text, codes, text_eq, trim}
use scribe_local.Transcript.Replies.{prefix}

-- From within the object, outside a string and in one; the result is what is left of the object. In
-- UTF-8 no byte of the tests occurs inside another code point.
unfoldable pub scan_object : Bool → Bool → ℕ → Text → Option Text
scan_object in_str escape depth [] = none
scan_object true escape depth (c ∷ s) =
    let rest = scan_object (escape || not (c == b'"')) (not escape && (c == b'\\')) depth s in
    prefix c rest
scan_object false escape depth (c ∷ s) =
    let rest =
      scan_object (c == b'"') false
        (if c == b'{' then suc depth else if c == b'}' then depth - 1 else depth) s in
    if (c == b'}') && (depth == 1) then some (c ∷ []) else prefix c rest

unfoldable pub first_json_object : Text → Option Text
unfolding scan_object
first_json_object [] = none
first_json_object (c ∷ s) =
    let later = first_json_object s in
    if c == b'{' then prefix c (scan_object false false 1 s) else later

pub record ParsedSummary : Type 0 where
  pub title : Option Text
  pub summary : Option Text
  pub action_items : Json
  pub decisions : Json
  pub topics : Json

abbrev pub lookup_field : Text → Fields → Option Json
lookup_field key end = none
lookup_field key (field k v fs) = if text_eq k key then some v else lookup_field key fs

-- `Value::get` with a key.
abbrev pub get : Text → Json → Option Json
get key (object fs) = lookup_field key fs
get key _ = none

abbrev pub non_empty : Text → Option Text
non_empty [] = none
non_empty (c ∷ s) = some (c ∷ s)

abbrev pub as_string_field : Option Json → Option Text
as_string_field (some (string s)) = non_empty (trim s)
as_string_field _ = none

unfoldable pub string_field : Json → Text → Option Text
string_field v key = as_string_field (get key v)

abbrev pub push_text : Text → Items → Items
push_text [] rest = rest
push_text (c ∷ s) rest = item (string (c ∷ s)) rest

module _ (to_string : Json → Text) where
  unfoldable pub string_items : Items → Items
  string_items nil = nil
  string_items (item (string s) rest) = push_text (trim s) (string_items rest)
  string_items (item null rest) = item (string (to_string null)) (string_items rest)
  string_items (item (bool b) rest) = item (string (to_string (bool b))) (string_items rest)
  string_items (item (number n) rest) = item (string (to_string (number n))) (string_items rest)
  string_items (item (array xs) rest) = item (string (to_string (array xs))) (string_items rest)
  string_items (item (object fs) rest) = item (string (to_string (object fs))) (string_items rest)

  abbrev pub as_string_array : Option Json → Json
  as_string_array (some (array items)) = array (string_items items)
  as_string_array (some (string s)) = array (push_text (trim s) nil)
  as_string_array _ = array nil

  unfoldable pub string_array : Json → Text → Json
  unfolding string_items
  string_array v key = as_string_array (get key v)

  abbrev pub raw_summary : Text → ParsedSummary
  raw_summary raw = record {
    title = none;
    summary = some (trim raw);
    action_items = array nil;
    decisions = array nil;
    topics = array nil;
  }

  abbrev pub from_value : Text → Option Json → ParsedSummary
  from_value raw none = raw_summary raw
  from_value raw (some v) = record {
    title = string_field v (codes "title");
    summary = string_field v (codes "summary");
    action_items = string_array v (codes "action_items");
    decisions = string_array v (codes "decisions");
    topics = string_array v (codes "topics");
  }

  abbrev pub from_block : (Text → Option Json) → Text → Option Text → ParsedSummary
  from_block from_str raw none = raw_summary raw
  from_block from_str raw (some block) = from_value raw (from_str block)

  unfoldable pub parse_summary : (Text → Option Json) → Text → ParsedSummary
  unfolding first_json_object string_field string_array
  parse_summary from_str raw = from_block from_str raw (first_json_object raw)
