-- ===== src/Values.antt =====
-- The Python values that rows hold: what `json` can carry, and datetimes.
use node_monitor.Common.{ℕ, ◌+◌, String, Bool, Option, none, some}
use node_monitor.Records

-- `negsuc n` is -(n + 1).
pub data ℤ : Type 0 where
  pos : ℕ → ℤ
  negsuc : ℕ → ℤ

-- `significand * 2 ** exponent`, or one of the values that are not finite.
pub data Float : Type 0 where
  finite : ℤ → ℤ → Float
  nan infinity neg_infinity : Float

-- A datetime: microseconds since the epoch (of UTC if it is aware), and its UTC offset in seconds,
-- which a naive datetime does not have.
pub record DateTime : Type 0 where
  pub micros : ℕ
  pub offset : Option ℤ

-- pipeline/timestamps.py: `require_aware` returns its argument, or raises ValueError (`none`).
unfoldable pub require_aware : DateTime → Option DateTime
require_aware t = elim t.offset [ none ↦ none | some _ ↦ some t ]

-- `t + timedelta(microseconds=n)`
abbrev pub later : DateTime → ℕ → DateTime
later t n = record t { micros = t.micros + n }

mutual
  pub data Value : Type 0 where
    null : Value
    text : String → Value
    time : DateTime → Value
    bool : Bool → Value
    int : ℤ → Value
    float : Float → Value
    dict : Fields → Value
    list : Items → Value
    tuple : Items → Value

  -- The entries of a dict, in order.
  pub data Fields : Type 0 where
    field : String → Value → Fields → Fields
    end : Fields

  -- The elements of a list or of a tuple.
  pub data Items : Type 0 where
    item : Value → Items → Items
    no_items : Items

abbrev pub count : ℕ → Value
count n = int (pos n)

abbrev pub Record : Type 0
Record = Records.Record Value
