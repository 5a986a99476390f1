-- ===== src/EventStore/Log.antt =====
-- `EventStore` of ntrade/storage/event_store.py with its file: appending, loading, clearing, and a
-- crash in the middle of an append. The file is the list of its code points; 10 ends a line. JSON
-- texts are from outside of the repository, and so are times; events pass through EventStore/Codec.
pub mod Texts
pub mod Written
pub mod Reloads
use n_trade.Prelude.{
  ℕ, Bool, true, false, String, Option, none, some, List, [], ◌∷◌, ◌++◌, if◌then◌else◌, ◌==◌,
}
use n_trade.EventStore.Codec.{Event, TimeText, Json, jdict, encode, decode}

-- `json.dumps` and `json.loads`, which gives nothing for a text that is not JSON (the spaces around
-- one do not count, and a blank line is none), the times, the table of the event types, and whether
-- the constructors of an event and of those in it take their fields, which is a `TypeError` if not.
pub record Format (W T : Type 0) : Type 0 where
  pub dumps : Json W → List ℕ
  pub loads : List ℕ → Option (Json W)
  pub clock : TimeText T
  pub known : String → Bool
  pub fits : Event W T → Bool

-- What a line gives: an event, nothing, or an exception that `_load` does not catch.
pub data Line (E : Type 0) : Type 0 where
  holds : E → Line E
  nothing escapes : Line E

-- `self._events` and the text of the file, if the store has a path and the file is there.
pub record EventStore (E : Type 0) : Type 0 where
  pub has_path : Option (List ℕ)
  pub events : List E

-- The lines of a text: each ends at a newline, the last also at the end of the text.
unfoldable pub lines_from : List ℕ → List ℕ → List (List ℕ)
lines_from [] [] = []
lines_from begun [] = begun ∷ []
lines_from begun (c ∷ text) =
    if c == 10 then begun ∷ lines_from [] text else lines_from (begun ++ c ∷ []) text

module _ {W T : Type 0} (k : Format W T) where
  unfoldable pub line_of : Event W T → List ℕ
  line_of e = k.dumps (jdict (encode k.clock e))

  abbrev pub decoded : Option (Event W T) → Line (Event W T)
  decoded none = nothing
  decoded (some e) = if k.fits e then holds e else escapes

  -- The `data.get` of `_decode` is an `AttributeError` for JSON that is no object.
  abbrev pub parsed : Option (Json W) → Line (Event W T)
  parsed none = nothing
  parsed (some (jdict d)) = decoded (decode k.clock k.known d)
  parsed (some _) = escapes

  unfoldable pub read_line : List ℕ → Line (Event W T)
  read_line l = parsed (k.loads l)

  -- One more line in front of the others; `none` is an exception.
  abbrev pub add_line : Line (Event W T) → Option (List (Event W T)) → Option (List (Event W T))
  add_line (holds e) (some es) = some (e ∷ es)
  add_line (holds e) none = none
  add_line nothing es = es
  add_line escapes es = none

  -- The loop of `_load` over the lines.
  unfoldable pub load_lines : List (List ℕ) → Option (List (Event W T))
  unfolding read_line
  load_lines [] = some []
  load_lines (l ∷ ls) = add_line (read_line l) (load_lines ls)

  unfoldable pub load : List ℕ → Option (List (Event W T))
  unfolding lines_from load_lines
  load text = load_lines (lines_from [] text)

  -- `EventStore(path)`, on the file as it is.
  unfoldable pub open_store : Option (List ℕ) → Option (EventStore (Event W T))
  unfolding load
  open_store none = some (record { has_path = none; events = [] })
  open_store (some text) = elim (load text) [
    | none ↦ none
    | some es ↦ some (record { has_path = some text; events = es })
  ]

  unfoldable pub append : Event W T → EventStore (Event W T) → EventStore (Event W T)
  unfolding line_of
  append e s = record {
    has_path = elim s.has_path [ none ↦ none | some text ↦ some (text ++ (line_of e ++ 10 ∷ [])) ];
    events = s.events ++ e ∷ [];
  }

  unfoldable pub extend : List (Event W T) → EventStore (Event W T) → EventStore (Event W T)
  unfolding append
  extend [] s = s
  extend (e ∷ es) s = extend es (append e s)

-- `clear`: the file goes away; a later append makes it anew.
unfoldable pub clear : {E : Type 0} → EventStore E → EventStore E
clear s = record { has_path = elim s.has_path [ none ↦ none | some text ↦ some [] ]; events = [] }

-- The file after a crash in the middle of an append, which has written a part of the line.
abbrev pub after_crash : {E : Type 0} → List ℕ → EventStore E → Option (List ℕ)
after_crash part s = elim s.has_path [ none ↦ none | some text ↦ some (text ++ part) ]
