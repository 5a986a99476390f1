-- ===== src/EventStore/Codec.antt =====
-- `_encode` and `_decode` of ntrade/storage/event_store.py: an event as a dict of JSON values, and
-- back. `isoformat` and `fromisoformat` of a `datetime` are parameters, and so is the table of the
-- event types. An event is the name of its type with its fields; the constructor takes the fields
-- of its type, which are those that the encoder writes.
pub mod RoundTrip
use n_trade.Prelude.{
  Bool, true, false, ◌||◌, String, Option, none, some, ◌=?◌, if◌then◌else◌, string_eq,
}
use n_trade.Prelude.Int.{ℤ}

-- The values of a field: `W` is Python's `float` and `T` its `datetime`.
mutual
  pub data Value (W T : Type 0) : Type 0 where
    null : Value W T
    flag : Bool → Value W T
    whole : ℤ → Value W T
    real : W → Value W T
    text : String → Value W T
    time : T → Value W T
    items : Values W T → Value W T
    fixed : Values W T → Value W T
    table : Entries W T → Value W T

  pub data Values (W T : Type 0) : Type 0 where
    nil : Values W T
    cons : Value W T → Values W T → Values W T

  pub data Entries (W T : Type 0) : Type 0 where
    bare : Entries W T
    entry : String → Value W T → Entries W T → Entries W T

-- The fields of an event; a field may hold an event.
pub data Fields (W T : Type 0) : Type 0 where
  end : Fields W T
  plain : String → Value W T → Fields W T → Fields W T
  nested : String → String → Fields W T → Fields W T → Fields W T

pub record Event (W T : Type 0) : Type 0 where
  pub type_name : String
  pub fields : Fields W T

mutual
  pub data Json (W : Type 0) : Type 0 where
    jnull : Json W
    jbool : Bool → Json W
    jint : ℤ → Json W
    jfloat : W → Json W
    jtext : String → Json W
    jlist : JsonList W → Json W
    jdict : JsonDict W → Json W

  pub data JsonList (W : Type 0) : Type 0 where
    jnil : JsonList W
    jcons : Json W → JsonList W → JsonList W

  pub data JsonDict (W : Type 0) : Type 0 where
    jend : JsonDict W
    jfield : String → Json W → JsonDict W → JsonDict W

-- `datetime`, from outside of the repository.
pub record TimeText (T : Type 0) : Type 0 where
  pub isoformat : T → String
  pub fromisoformat : String → Option T

module _ {W T : Type 0} (clock : TimeText T) where
  unfoldable mutual
    pub to_jsonable : Value W T → Json W
    to_jsonable null = jnull
    to_jsonable (flag b) = jbool b
    to_jsonable (whole n) = jint n
    to_jsonable (real x) = jfloat x
    to_jsonable (text s) = jtext s
    to_jsonable (time t) = jtext (clock.isoformat t)
    to_jsonable (items vs) = jlist (to_jsonables vs)
    to_jsonable (fixed vs) = jlist (to_jsonables vs)
    to_jsonable (table es) = jdict (to_json_dict es)

    pub to_jsonables : Values W T → JsonList W
    to_jsonables nil = jnil
    to_jsonables (cons v vs) = jcons (to_jsonable v) (to_jsonables vs)

    pub to_json_dict : Entries W T → JsonDict W
    to_json_dict bare = jend
    to_json_dict (entry k v es) = jfield k (to_jsonable v) (to_json_dict es)

  unfoldable pub encode_fields : Fields W T → JsonDict W
  unfolding to_jsonable
  encode_fields end = jend
  encode_fields (plain k v rest) = jfield k (to_jsonable v) (encode_fields rest)
  encode_fields (nested k name fs rest) =
      jfield k (jdict (jfield "__type__" (jtext name) (encode_fields fs))) (encode_fields rest)

  unfoldable pub encode : Event W T → JsonDict W
  unfolding encode_fields
  encode e = jfield "__type__" (jtext e.type_name) (encode_fields e.fields)

-- A JSON value that the decoder leaves as it is.
unfoldable mutual
  pub value_of : {W T : Type 0} → Json W → Value W T
  value_of jnull = null
  value_of (jbool b) = flag b
  value_of (jint n) = whole n
  value_of (jfloat x) = real x
  value_of (jtext s) = text s
  value_of (jlist js) = items (values_of js)
  value_of (jdict d) = table (entries_of d)

  pub values_of : {W T : Type 0} → JsonList W → Values W T
  values_of jnil = nil
  values_of (jcons j js) = cons (value_of j) (values_of js)

  pub entries_of : {W T : Type 0} → JsonDict W → Entries W T
  entries_of jend = bare
  entries_of (jfield k j d) = entry k (value_of j) (entries_of d)

module _ {W : Type 0} where
  -- `"__type__" in d`
  unfoldable pub has_type : JsonDict W → Bool
  has_type jend = false
  has_type (jfield k j d) = (k =? "__type__") || has_type d

  abbrev pub name_of : Json W → Option String
  name_of (jtext s) = some s
  name_of _ = none

  -- `data.get("__type__")`
  unfoldable pub type_of : JsonDict W → Option String
  type_of jend = none
  type_of (jfield k j d) = if k =? "__type__" then name_of j else type_of d

module _ {W T : Type 0} (clock : TimeText T) (known : String → Bool) where
  unfoldable pub from_jsonable : Json W → Value W T
  unfolding value_of
  from_jsonable (jtext s) = elim (clock.fromisoformat s) [ none ↦ text s | some t ↦ time t ]
  from_jsonable j = value_of j

  -- An event of a type that is known, from its fields.
  abbrev pub typed : Option String → Fields W T → Option (Event W T)
  typed none fs = none
  typed (some name) fs =
      if known name then some (record { type_name = name; fields = fs }) else none

  -- A field that holds a decoded event, or `None` for one of an unknown type.
  abbrev pub event_field : String → Option (Event W T) → Fields W T → Fields W T
  event_field k none rest = plain k null rest
  event_field k (some e) rest = nested k e.type_name e.fields rest

  unfoldable pub decode_fields : JsonDict W → Fields W T
  unfolding from_jsonable has_type type_of
  decode_fields jend = end
  decode_fields (jfield k (jdict d) rest) =
      if k =? "__type__"
      then decode_fields rest
      else if has_type d
      then event_field k (typed (type_of d) (decode_fields d)) (decode_fields rest)
      else plain k (from_jsonable (jdict d)) (decode_fields rest)
  decode_fields (jfield k j rest) =
      if k =? "__type__" then decode_fields rest else plain k (from_jsonable j) (decode_fields rest)

  unfoldable pub decode : JsonDict W → Option (Event W T)
  unfolding decode_fields
  decode d = typed (type_of d) (decode_fields d)
