-- ===== src/Database/Codec/RoundTrip.antt =====
-- database/codec.py: what is read back of a record that was encoded.
use node_monitor.Common.{String, ◌≡◌, refl, Option, none, some, text_eq}
use node_monitor.Values.{
  Value, null, text, time, bool, int, float, dict, list, tuple, Fields, field, end, Items, item,
  no_items, Float, finite, nan, infinity, neg_infinity, DateTime, Record,
}
use node_monitor.Database.Codec.{
  finite_or_null, encode, encode_fields, encode_items, dt_value, dt_text, decode_dict, add_field,
  add_item, as_list, decode, decode_fields, decode_items, row_fields, encode_record, decode_record,
  with_kind,
}

unfoldable mutual
  -- What the spool keeps of a value.
  pub stored : Value → Value
  stored null = null
  stored (text s) = text s
  stored (time t) = time t
  stored (bool b) = bool b
  stored (int n) = int n
  stored (float x) = finite_or_null x
  stored (dict fs) = dict (stored_fields fs)
  stored (list xs) = list (stored_items xs)
  stored (tuple xs) = list (stored_items xs)

  pub stored_fields : Fields → Fields
  stored_fields end = end
  stored_fields (field k v fs) = field k (stored v) (stored_fields fs)

  pub stored_items : Items → Items
  stored_items no_items = no_items
  stored_items (item v xs) = item (stored v) (stored_items xs)

dt_value_null : (k : String) (x : Float) → dt_value k (finite_or_null x) ≡ none
unfolding dt_value finite_or_null
dt_value_null k (finite m e) = refl
dt_value_null k nan = refl
dt_value_null k infinity = refl
dt_value_null k neg_infinity = refl

dt_value-encode :
    (iso : DateTime → String) (k : String) (v : Value) → dt_value k (encode iso v) ≡ dt_value k v
unfolding dt_value encode
dt_value-encode iso k null = refl
dt_value-encode iso k (text s) = refl
dt_value-encode iso k (time t) = refl
dt_value-encode iso k (bool b) = refl
dt_value-encode iso k (int n) = refl
dt_value-encode iso k (float x) = dt_value_null k x
dt_value-encode iso k (dict fs) = refl
dt_value-encode iso k (list xs) = refl
dt_value-encode iso k (tuple xs) = refl

dt_text-encode :
    (iso : DateTime → String) (fs : Fields) → dt_text (encode_fields iso fs) ≡ dt_text fs
unfolding dt_text encode
dt_text-encode iso end = refl
dt_text-encode iso (field k v end) = dt_value-encode iso k v
dt_text-encode iso (field k v (field j w fs)) = refl

decode_float :
    (from_iso : String → Option DateTime) (x : Float)
    → decode from_iso (finite_or_null x) ≡ some (finite_or_null x)
unfolding decode finite_or_null
decode_float from_iso (finite m e) = refl
decode_float from_iso nan = refl
decode_float from_iso infinity = refl
decode_float from_iso neg_infinity = refl

module _ (iso : DateTime → String) (from_iso : String → Option DateTime) where
  unfoldable mutual
    -- Each time of the value is read back from its text, and no dict of the value has "$dt" for its
    -- only key, with a text.
    pub IsPlain : Value → Type 0
    IsPlain null = Unit
    IsPlain (text s) = Unit
    IsPlain (time t) = from_iso (iso t) ≡ some t
    IsPlain (bool b) = Unit
    IsPlain (int n) = Unit
    IsPlain (float x) = Unit
    IsPlain (dict fs) = (dt_text fs ≡ none) × ArePlain fs
    IsPlain (list xs) = AllPlain xs
    IsPlain (tuple xs) = AllPlain xs

    pub ArePlain : Fields → Type 0
    ArePlain end = Unit
    ArePlain (field k v fs) = IsPlain v × ArePlain fs

    pub AllPlain : Items → Type 0
    AllPlain no_items = Unit
    AllPlain (item v xs) = IsPlain v × AllPlain xs

  mutual
    unfolding encode decode stored IsPlain dt_text dt_value decode_dict add_field add_item as_list

    value_back : (v : Value) → IsPlain v → decode from_iso (encode iso v) ≡ some (stored v)
    value_back null h = refl
    value_back (text s) h = refl
    value_back (time t) h = rw h refl
    value_back (bool b) h = refl
    value_back (int n) h = refl
    value_back (float x) h = decode_float from_iso x
    value_back (dict fs) h = rw (dt_text-encode iso fs, h.0, fields_back fs h.1) refl
    value_back (list xs) h = rw (items_back xs h) refl
    value_back (tuple xs) h = rw (items_back xs h) refl

    fields_back :
        (fs : Fields)
        → ArePlain fs
        → decode_fields from_iso (encode_fields iso fs) ≡ some (stored_fields fs)
    fields_back end h = refl
    fields_back (field k v fs) h = rw (value_back v h.0, fields_back fs h.1) refl

    items_back :
        (xs : Items)
        → AllPlain xs
        → decode_items from_iso (encode_items iso xs) ≡ some (stored_items xs)
    items_back no_items h = refl
    items_back (item v xs) h = rw (value_back v h.0, items_back xs h.1) refl

  -- A record is read back with its kind and its row, tuples as lists and floats that are not finite
  -- as None, if no dict in the row looks like an encoded datetime and `fromisoformat` reads what
  -- `isoformat` writes of its times.
  pub decode_record-encode_record :
      (r : Record)
      → IsPlain (dict (row_fields r.row))
      → decode_record from_iso (encode_record iso r)
        ≡ some (r.kind, stored (dict (row_fields r.row)))
  unfolding decode_record encode_record with_kind
  decode_record-encode_record r h = rw (value_back (dict (row_fields r.row)) h, with_kind) refl
