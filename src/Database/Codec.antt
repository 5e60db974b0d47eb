-- ===== src/Database/Codec.antt =====
-- database/codec.py, the records in the spool: `_encode`, `_decode`, `encode_record` and
-- `decode_record`. `iso` and `from_iso` stand for datetime's `isoformat` and
-- `fromisoformat`. Keys are texts, as in what `json` reads.
pub mod RoundTrip
use node_monitor.Common.{
  String, Bool, true, false, Option, none, some, if◌then◌else◌, ◌==◌, Eq, text_eq, [], ◌∷◌,
}
use node_monitor.Common.Dict.{Dict}
use node_monitor.Values.{
  Value, null, text, time, bool, int, float, dict, list, tuple, Fields, field, end, Items, item,
  no_items, Float, finite, nan, infinity, neg_infinity, DateTime, Record,
}

abbrev pub dt_key : String
dt_key = "$dt"

-- A float, or None if it is not finite.
unfoldable pub finite_or_null : Float → Value
finite_or_null (finite m e) = float (finite m e)
finite_or_null nan = null
finite_or_null infinity = null
finite_or_null neg_infinity = null

unfoldable mutual
  -- `_encode`
  pub encode : (DateTime → String) → Value → Value
  encode iso null = null
  encode iso (text s) = text s
  encode iso (time t) = dict (field dt_key (text (iso t)) end)
  encode iso (bool b) = bool b
  encode iso (int n) = int n
  encode iso (float x) = finite_or_null x
  encode iso (dict fs) = dict (encode_fields iso fs)
  encode iso (list xs) = list (encode_items iso xs)
  encode iso (tuple xs) = list (encode_items iso xs)

  pub encode_fields : (DateTime → String) → Fields → Fields
  encode_fields iso end = end
  encode_fields iso (field k v fs) = field k (encode iso v) (encode_fields iso fs)

  pub encode_items : (DateTime → String) → Items → Items
  encode_items iso no_items = no_items
  encode_items iso (item v xs) = item (encode iso v) (encode_items iso xs)

-- The text of a dict that is the encoding of a datetime: its one key is "$dt".
unfoldable pub dt_value : String → Value → Option String
dt_value k (text s) = if k == dt_key then some s else none
dt_value k null = none
dt_value k (time t) = none
dt_value k (bool b) = none
dt_value k (int n) = none
dt_value k (float x) = none
dt_value k (dict fs) = none
dt_value k (list xs) = none
dt_value k (tuple xs) = none

unfoldable pub dt_text : Fields → Option String
dt_text end = none
dt_text (field k v end) = dt_value k v
dt_text (field k v (field j w fs)) = none

-- What a dict decodes to, by the text of an encoded datetime and the decoded entries;
-- `fromisoformat` raises ValueError (`none`) for a text that is no date.
unfoldable pub decode_dict :
    (String → Option DateTime) → Option String → Option Fields → Option Value
decode_dict from_iso (some s) entries = elim (from_iso s) [ none ↦ none | some t ↦ some (time t) ]
decode_dict from_iso none none = none
decode_dict from_iso none (some fs) = some (dict fs)

unfoldable pub add_field : String → Option Value → Option Fields → Option Fields
add_field k none rest = none
add_field k (some v) none = none
add_field k (some v) (some fs) = some (field k v fs)

unfoldable pub add_item : Option Value → Option Items → Option Items
add_item none rest = none
add_item (some v) none = none
add_item (some v) (some xs) = some (item v xs)

unfoldable pub as_list : Option Items → Option Value
as_list none = none
as_list (some xs) = some (list xs)

unfoldable mutual
  -- `_decode`
  pub decode : (String → Option DateTime) → Value → Option Value
  decode from_iso null = some null
  decode from_iso (text s) = some (text s)
  decode from_iso (time t) = some (time t)
  decode from_iso (bool b) = some (bool b)
  decode from_iso (int n) = some (int n)
  decode from_iso (float x) = some (float x)
  decode from_iso (dict fs) = decode_dict from_iso (dt_text fs) (decode_fields from_iso fs)
  decode from_iso (list xs) = as_list (decode_items from_iso xs)
  decode from_iso (tuple xs) = some (tuple xs)

  pub decode_fields : (String → Option DateTime) → Fields → Option Fields
  decode_fields from_iso end = some end
  decode_fields from_iso (field k v fs) =
      add_field k (decode from_iso v) (decode_fields from_iso fs)

  pub decode_items : (String → Option DateTime) → Items → Option Items
  decode_items from_iso no_items = some no_items
  decode_items from_iso (item v xs) = add_item (decode from_iso v) (decode_items from_iso xs)

unfoldable pub row_fields : Dict String Value → Fields
row_fields [] = end
row_fields ((k, v) ∷ row) = field k v (row_fields row)

-- The two entries of an encoded record, "kind" and "row".
unfoldable pub encode_record : (DateTime → String) → Record → String × Value
encode_record iso r = (r.kind, encode iso (dict (row_fields r.row)))

unfoldable pub with_kind : String → Option Value → Option (String × Value)
with_kind kind none = none
with_kind kind (some row) = some (kind, row)

-- The kind and the row of the record, whatever value the row is.
unfoldable pub decode_record : (String → Option DateTime) → String × Value → Option (String × Value)
decode_record from_iso (kind, row) = with_kind kind (decode from_iso row)
