-- ===== src/EventStore/Log/Reloads.antt =====
-- What a new store of ntrade/storage/event_store.py finds in the file of an earlier one.
use n_trade.Prelude.{
  ℕ, ◌≡◌, refl, ap, ◌∙◌, none, some, List, [], ◌∷◌, ◌++◌, append-nil, append_assoc, All, map,
}
use n_trade.EventStore.Codec.{Event}
use n_trade.EventStore.Log.{
  Format, EventStore, line_of, load_lines, load, open_store, extend, after_crash,
}
use n_trade.EventStore.Log.Texts.{OneLine, text_of}
use n_trade.EventStore.Log.Written.{
  IsJson, rereads, IsLoadable, extend-store, load_lines-torn, open_store-loaded, load-written,
  load-lines, load_lines-glued,
}

-- A store that is opened on a file of whole lines which load, then appended to, and then a crash that
-- leaves a part of a line which is no JSON text, or nothing: a store opened on that file has the
-- events loaded before and then, in the order of the appends, what the codec makes of each appended
-- event when it is written and read, which may be another event or nothing. JSON texts are taken to
-- be single lines that read back, and the constructors to take what the codec reads of the appended
-- events.
pub extend-reloads :
    {W T : Type 0} (k : Format W T) (ls : List (List ℕ)) (before es : List (Event W T))
    (part : List ℕ)
    → All OneLine ls
    → load_lines k ls ≡ some before
    → All (IsJson k) es
    → All (IsLoadable k) es
    → OneLine part
    → k.loads part ≡ none
    → let s : EventStore (Event W T) = record { has_path = some (text_of ls); events = before } in
      let crashed = after_crash part (extend k es s) in
      (open_store k (some (text_of ls)) ≡ some s)
      × (open_store k crashed
          ≡ some (record { has_path = crashed; events = before ++ rereads k es }))
extend-reloads k ls before es part one loaded j written single lost =
    let text = text_of ls in
    let lines = map (line_of k) es in
    (
      open_store-loaded k text before (load-lines k ls before one loaded),
      rw (extend-store k es before text) (
          open_store-loaded k ((text ++ text_of lines) ++ part) (before ++ rereads k es) (
            load-written k ls es part before [] one loaded j written
              (load_lines-torn k part single lost)
            ∙ ap some (append-nil (before ++ rereads k es)))),
    )

-- After appends to a store that was opened on a file of whole lines which load, and a crash that left
-- a part of a line, which is no JSON text, and neither is it with the line of the next event behind it;
-- with the same taken of JSON texts and of the constructors for the appended events but the next one:
-- the store that is opened on the file and appended to has the next event, and of the events appended
-- later each as well; but a store opened on its file has of the next event nothing, and after what was
-- loaded before, what the codec makes of the later ones.
pub torn-loses :
    {W T : Type 0} (k : Format W T) (ls : List (List ℕ)) (before es later : List (Event W T))
    (e : Event W T) (part : List ℕ)
    → All OneLine ls
    → load_lines k ls ≡ some before
    → All (IsJson k) es
    → All (IsLoadable k) es
    → OneLine part
    → k.loads part ≡ none
    → OneLine (line_of k e)
    → All (IsJson k) later
    → All (IsLoadable k) later
    → k.loads (part ++ line_of k e) ≡ none
    → let s : EventStore (Event W T) = record { has_path = some (text_of ls); events = before } in
      let crashed = after_crash part (extend k es s) in
      let opened : EventStore (Event W T) = record {
        has_path = crashed;
        events = before ++ rereads k es;
      } in
      let after = extend k (e ∷ later) opened in
      (open_store k crashed ≡ some opened)
      × (after.events ≡ opened.events ++ e ∷ later)
      × (open_store k after.has_path
          ≡ some (record { has_path = after.has_path; events = opened.events ++ rereads k later }))
unfolding text_of
torn-loses k ls before es later e part one loaded j written single lost own j2 after glued =
    let whole = text_of ls ++ text_of (map (line_of k) es) in
    let rest = text_of (map (line_of k) (e ∷ later)) in
    let events = before ++ rereads k es in
    let read =
      load-written k ls es (part ++ rest) before (rereads k later) one loaded j written
        (load_lines-glued k part e later single own j2 after glued) in
    (
      (extend-reloads k ls before es part one loaded j written single lost).1,
      rw (extend-store k es before (text_of ls), extend-store k (e ∷ later) events (whole ++ part))
          refl,
      rw (extend-store k es before (text_of ls), extend-store k (e ∷ later) events (whole ++ part))
          (open_store-loaded k ((whole ++ part) ++ rest) (events ++ rereads k later)
            (ap (load k) (append_assoc whole part rest) ∙ read)),
    )
