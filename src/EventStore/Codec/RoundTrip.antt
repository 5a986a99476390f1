-- ===== src/EventStore/Codec/RoundTrip.antt =====
-- What `_decode` of ntrade/storage/event_store.py gives back of an event that `_encode` has written.
use n_trade.Prelude.{
  ◌≡◌, refl, ap, ◌∙◌, Bool, true, false, ◌||◌, String, none, some, ◌=?◌, string_eq,
}
use n_trade.EventStore.Codec.{
  Value, null, flag, whole, real, text, time, items, fixed, table, Values, nil, cons, Entries, bare,
  entry, Fields, end, plain, nested, Event, TimeText, to_jsonable, to_jsonables, to_json_dict,
  encode_fields, encode, value_of, values_of, entries_of, has_type, type_of, from_jsonable,
  decode_fields, decode,
}

-- A value without a time and without a tuple in it.
unfoldable mutual
  pub Timeless : {W T : Type 0} → Value W T → Type 0
  Timeless null = Unit
  Timeless (flag b) = Unit
  Timeless (whole n) = Unit
  Timeless (real x) = Unit
  Timeless (text s) = Unit
  Timeless (time t) = ⊥
  Timeless (items vs) = AllTimeless vs
  Timeless (fixed vs) = ⊥
  Timeless (table es) = TimelessEntries es

  pub AllTimeless : {W T : Type 0} → Values W T → Type 0
  AllTimeless nil = Unit
  AllTimeless (cons v vs) = Timeless v × AllTimeless vs

  pub TimelessEntries : {W T : Type 0} → Entries W T → Type 0
  TimelessEntries bare = Unit
  TimelessEntries (entry k v es) = Timeless v × TimelessEntries es

unfoldable pub has_type_entry : {W T : Type 0} → Entries W T → Bool
has_type_entry bare = false
has_type_entry (entry k v es) = (k =? "__type__") || has_type_entry es

module _ {W T : Type 0} (clock : TimeText T) (known : String → Bool) where
  -- The values that come back: a text does not read as a time, lists and dicts hold no time and no
  -- tuple, and a dict has no key of the encoder's.
  unfoldable pub Survives : Value W T → Type 0
  unfolding Timeless has_type_entry
  Survives null = Unit
  Survives (flag b) = Unit
  Survives (whole n) = Unit
  Survives (real x) = Unit
  Survives (text s) = clock.fromisoformat s ≡ none
  Survives (time t) = Unit
  Survives (items vs) = AllTimeless vs
  Survives (fixed vs) = ⊥
  Survives (table es) = TimelessEntries es × (has_type_entry es ≡ false)

  unfoldable pub Survive : Fields W T → Type 0
  unfolding Survives
  Survive end = Unit
  Survive (plain k v rest) = ((k =? "__type__") ≡ false) × Survives v × Survive rest
  Survive (nested k name fs rest) =
      ((k =? "__type__") ≡ false) × (known name ≡ true) × Survive fs × Survive rest

  mutual
    unfolding to_jsonable value_of Timeless

    value_of-to_jsonable : (v : Value W T) → Timeless v → value_of (to_jsonable clock v) ≡ v
    value_of-to_jsonable null h = refl
    value_of-to_jsonable (flag b) h = refl
    value_of-to_jsonable (whole n) h = refl
    value_of-to_jsonable (real x) h = refl
    value_of-to_jsonable (text s) h = refl
    value_of-to_jsonable (time t) h = elim h [ ]
    value_of-to_jsonable (items vs) h = ap items (values_of-to_jsonables vs h)
    value_of-to_jsonable (fixed vs) h = elim h [ ]
    value_of-to_jsonable (table es) h = ap table (entries_of-to_json_dict es h)

    values_of-to_jsonables :
        (vs : Values W T) → AllTimeless vs → values_of (to_jsonables clock vs) ≡ vs
    values_of-to_jsonables nil h = refl
    values_of-to_jsonables (cons v vs) h =
        cc (value_of-to_jsonable v h.0, values_of-to_jsonables vs h.1)

    entries_of-to_json_dict :
        (es : Entries W T) → TimelessEntries es → entries_of (to_json_dict clock es) ≡ es
    entries_of-to_json_dict bare h = refl
    entries_of-to_json_dict (entry k v es) h =
        cc (value_of-to_jsonable v h.0, entries_of-to_json_dict es h.1)

  has_type-to_json_dict : (es : Entries W T) → has_type (to_json_dict clock es) ≡ has_type_entry es
  unfolding to_jsonable has_type has_type_entry
  has_type-to_json_dict bare = refl
  has_type-to_json_dict (entry k v es) =
      ap (λ (b : Bool). (k =? "__type__") || b) (has_type-to_json_dict es)

  module _ (law : (t : T) → clock.fromisoformat (clock.isoformat t) ≡ some t) where
    decode_fields-encode :
        (fs : Fields W T) → Survive fs → decode_fields clock known (encode_fields clock fs) ≡ fs
    unfolding encode_fields to_jsonable decode_fields Survive Survives from_jsonable has_type
        type_of value_of Timeless
    decode_fields-encode end s = refl
    decode_fields-encode (plain k null rest) s =
        rw (s.0) (ap (plain k null) (decode_fields-encode rest s.2))
    decode_fields-encode (plain k (flag b) rest) s =
        rw (s.0) (ap (plain k (flag b)) (decode_fields-encode rest s.2))
    decode_fields-encode (plain k (whole n) rest) s =
        rw (s.0) (ap (plain k (whole n)) (decode_fields-encode rest s.2))
    decode_fields-encode (plain k (real x) rest) s =
        rw (s.0) (ap (plain k (real x)) (decode_fields-encode rest s.2))
    decode_fields-encode (plain k (text x) rest) s =
        rw (s.0, from_jsonable, s.1) (ap (plain k (text x)) (decode_fields-encode rest s.2))
    decode_fields-encode (plain k (time t) rest) s =
        rw (s.0, from_jsonable, law t) (ap (plain k (time t)) (decode_fields-encode rest s.2))
    decode_fields-encode (plain k (items vs) rest) s =
        rw (s.0, values_of-to_jsonables vs s.1)
          (ap (plain k (items vs)) (decode_fields-encode rest s.2))
    decode_fields-encode (plain k (fixed vs) rest) s = elim (s.1) [ ]
    decode_fields-encode (plain k (table es) rest) s =
        let untyped : has_type (to_json_dict clock es) ≡ false = has_type-to_json_dict es ∙ s.1.1 in
        rw (s.0, untyped, entries_of-to_json_dict es s.1.0)
          (ap (plain k (table es)) (decode_fields-encode rest s.2))
    decode_fields-encode (nested k name fs rest) s =
        rw (s.0, s.1) (cc (decode_fields-encode fs s.2, decode_fields-encode rest s.3))

-- An event of a known type whose fields survive is read back as it was written.
pub decode-encode :
    {W T : Type 0} (clock : TimeText T) (known : String → Bool) (e : Event W T)
    → ((t : T) → clock.fromisoformat (clock.isoformat t) ≡ some t)
    → known e.type_name ≡ true
    → Survive clock known e.fields
    → decode clock known (encode clock e) ≡ some e
unfolding decode encode decode_fields type_of
decode-encode clock known e law registered survive =
    rw (registered, decode_fields-encode clock known law e.fields survive) refl
