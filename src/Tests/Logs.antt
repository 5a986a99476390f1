-- ===== src/Tests/Logs.antt =====
-- The event store at concrete inputs: its codec, its queries and its file.
use n_trade.Prelude.{
  ℕ, ◌≡◌, refl, Bool, true, false, String, Option, none, some, List, [], ◌∷◌, ◌++◌, map, keep,
  count, ◌=?◌, if◌then◌else◌, ◌==◌, string_eq,
}
use n_trade.Prelude.Int.{pos}
use n_trade.Prelude.Sort.{sort_by, Ordered}
use n_trade.EventStore.Codec.{
  text, time, whole, end, plain, nested, Event, TimeText, encode, decode, Json, jdict, jfield,
  jtext, jend,
}
use n_trade.EventStore.Codec.RoundTrip.{Survive, Survives, decode-encode}
use n_trade.EventStore.Queries.{Stored, tick, fill, other, is_recoverable, recovery_events}
use n_trade.EventStore.Queries.Order.{precedes, stands_at, recovery_events-order}
use n_trade.EventStore.Log.{
  Format, EventStore, open_store, extend, after_crash, line_of, load_lines,
}
use n_trade.EventStore.Log.Texts.{text_of}
use n_trade.EventStore.Log.Written.{rereads}
use n_trade.EventStore.Log.Reloads.{extend-reloads, torn-loses}

-- Two times and their texts.
abbrev clock : TimeText Bool
clock = record {
  isoformat = λ t. if t then "2026-01-01" else "2026-01-02";
  fromisoformat =
      λ s. if s =? "2026-01-01" then some true else if s =? "2026-01-02" then some false else none;
}

clock_reads : (t : Bool) → clock.fromisoformat (clock.isoformat t) ≡ some t
clock_reads true = refl
clock_reads false = refl

-- An approved signal, with the signal inside.
abbrev approved : Event ℕ Bool
approved = record {
  type_name = "SignalApprovedEvent";
  fields = plain "ts" (time true) (
      nested "signal" "SignalGeneratedEvent"
        (plain "symbol" (text "INFY") (plain "quantity" (whole (pos 5)) end)) end);
}

abbrev known : String → Bool
known name = true

decode-encode_example : decode clock known (encode clock approved) ≡ some approved
unfolding Survive Survives
decode-encode_example =
    decode-encode clock known approved clock_reads refl
      (refl, tt, (refl, refl, (refl, refl, (refl, tt, tt)), tt))

-- A symbol that reads as a time comes back as a time.
decode_dated :
    decode clock known (
      encode {W = ℕ} clock
        (record { type_name = "E"; fields = plain "symbol" (text "2026-01-01") end }))
    ≡ some (record { type_name = "E"; fields = plain "symbol" (time true) end })
unfolding decode encode
decode_dated = refl

abbrev recorded : List (Stored ℕ)
recorded =
    (record { class = fill; ts = 5; symbol = some "INFY"; body = 1 })
    ∷ (record { class = tick; ts = 5; symbol = some "INFY"; body = 2 })
    ∷ (record { class = other; ts = 5; symbol = none; body = 3 })
    ∷ (record { class = tick; ts = 4; symbol = some "INFY"; body = 4 })
    ∷ []

recovery_events-order_example :
    (count (λ e. e.body == 2) (recovery_events recorded)
      ≡ count (λ e. e.body == 2) (keep is_recoverable recorded))
    × Ordered precedes (recovery_events recorded)
    × (keep (stands_at 5 0) (recovery_events recorded)
        ≡ keep (stands_at 5 0) (keep is_recoverable recorded))
recovery_events-order_example = recovery_events-order recorded (λ e. e.body == 2) 5 0

recovered_bodies : map (λ (e : Stored ℕ). e.body) (recovery_events recorded) ≡ 4 ∷ 2 ∷ 1 ∷ []
unfolding recovery_events sort_by
recovered_bodies = refl

-- Three events: of a known type, of one that is not, and with a symbol that reads as a time.
abbrev event_with : String → String → Event ℕ Bool
event_with name symbol = record { type_name = name; fields = plain "symbol" (text symbol) end }

abbrev known_one : String → Bool
known_one name = name =? "TickEvent"

abbrev ordinary : Event ℕ Bool
ordinary = event_with "TickEvent" "INFY"

abbrev stranger : Event ℕ Bool
stranger = event_with "LocalEvent" "INFY"

abbrev dated : Event ℕ Bool
dated = event_with "TickEvent" "2026-01-01"

abbrev object_with : String → String → Json ℕ
object_with name symbol =
    jdict (jfield "__type__" (jtext name) (jfield "symbol" (jtext symbol) jend))

-- A stand-in for JSON texts of these three.
abbrev code_of : Json ℕ → ℕ
code_of (jdict (jfield _ (jtext name) (jfield _ (jtext symbol) jend))) =
    if name =? "LocalEvent" then 66 else if symbol =? "INFY" then 65 else 67
code_of _ = 68

abbrev loads_of : List ℕ → Option (Json ℕ)
loads_of (c ∷ []) =
    if c == 65
    then some (object_with "TickEvent" "INFY")
    else if c == 66
    then some (object_with "LocalEvent" "INFY")
    else if c == 67
    then some (object_with "TickEvent" "2026-01-01")
    else none
loads_of _ = none

abbrev format : Format ℕ Bool
format = record {
  dumps = λ j. code_of j ∷ [];
  loads = loads_of;
  clock = clock;
  known = known_one;
  fits = λ e. true;
}

abbrev written : List (Event ℕ Bool)
written = ordinary ∷ stranger ∷ dated ∷ []

abbrev empty_store : EventStore (Event ℕ Bool)
empty_store = record { has_path = some (text_of []); events = [] }

abbrev crashed : Option (List ℕ)
crashed = after_crash (68 ∷ []) (extend format written empty_store)

extend-reloads_example :
    (open_store format (some (text_of [])) ≡ some empty_store)
    × (open_store format crashed
        ≡ some (record { has_path = crashed; events = [] ++ rereads format written }))
unfolding line_of encode decode load_lines
extend-reloads_example =
    extend-reloads format [] [] written (68 ∷ []) tt refl
      (((refl, tt), refl), (((refl, tt), refl), (((refl, tt), refl), tt)))
      (refl, (refl, (refl, tt))) (refl, tt) refl

rereads-written :
    rereads format written
    ≡ ordinary ∷ record { type_name = "TickEvent"; fields = plain "symbol" (time true) end } ∷ []
unfolding rereads encode decode
rereads-written = refl

abbrev opened : EventStore (Event ℕ Bool)
opened = record { has_path = crashed; events = [] ++ rereads format written }

torn-loses_example :
    let after = extend format (ordinary ∷ ordinary ∷ []) opened in
    (open_store format crashed ≡ some opened)
    × (after.events ≡ opened.events ++ ordinary ∷ ordinary ∷ [])
    × (open_store format after.has_path
        ≡ some (record {
          has_path = after.has_path;
          events = opened.events ++ rereads format (ordinary ∷ []);
        }))
unfolding line_of encode decode load_lines
torn-loses_example =
    torn-loses format [] [] written (ordinary ∷ []) ordinary (68 ∷ []) tt refl
      (((refl, tt), refl), (((refl, tt), refl), (((refl, tt), refl), tt)))
      (refl, (refl, (refl, tt))) (refl, tt) refl (refl, tt) (((refl, tt), refl), tt) (refl, tt) refl
