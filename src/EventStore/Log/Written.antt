-- ===== src/EventStore/Log/Written.antt =====
-- What `_load` of ntrade/storage/event_store.py makes of lines that `append` wrote.
use n_trade.Prelude.{
  ℕ, ◌≡◌, refl, ap, ◌∙◌, Bool, true, Option, none, some, List, [], ◌∷◌, ◌++◌, append-nil,
  append_assoc, All, All-append, map,
}
use n_trade.EventStore.Codec.{Event, jdict, encode, decode}
use n_trade.EventStore.Codec.RoundTrip.{Survive, decode-encode}
use n_trade.EventStore.Log.{
  Format, Line, holds, nothing, escapes, lines_from, line_of, decoded, read_line, add_line,
  load_lines, load, open_store, append, extend,
}
use n_trade.EventStore.Log.Texts.{
  OneLine, text_of, lines_from-line, lines_from-text, lines_from-begun, OneLine-append,
  text_of-append,
}

module _ {W T : Type 0} (k : Format W T) where
  -- What JSON promises of the object that an event is encoded as: its text is one line, and reads back
  -- as that object.
  abbrev pub IsJson : Event W T → Type 0
  IsJson e = OneLine (line_of k e) × (k.loads (line_of k e) ≡ some (jdict (encode k.clock e)))

  -- What the codec makes of an event that is written and read: an event, which may differ, or nothing.
  abbrev pub reread : Event W T → Option (Event W T)
  reread e = decode k.clock k.known (encode k.clock e)

  abbrev pub add_reread : Option (Event W T) → List (Event W T) → List (Event W T)
  add_reread none es = es
  add_reread (some e) es = e ∷ es

  unfoldable pub rereads : List (Event W T) → List (Event W T)
  rereads [] = []
  rereads (e ∷ es) = add_reread (reread e) (rereads es)

  -- Appended events that survive the codec are all there when a store is opened, as they were.
  rereads-Survive :
      (es : List (Event W T))
      → ((t : T) → k.clock.fromisoformat (k.clock.isoformat t) ≡ some t)
      → All (λ (e : Event W T). (k.known e.type_name ≡ true) × Survive k.clock k.known e.fields) es
      → rereads es ≡ es
  unfolding rereads
  rereads-Survive [] law survive = refl
  rereads-Survive (e ∷ es) law survive =
      rw
        (
          decode-encode k.clock k.known e law survive.0.0 survive.0.1,
          rereads-Survive es law survive.1,
        )
        refl

  abbrev pub fits_if : Option (Event W T) → Bool
  fits_if none = true
  fits_if (some e) = k.fits e

  -- The constructors take what is read back.
  abbrev pub IsLoadable : Event W T → Type 0
  IsLoadable e = fits_if (reread e) ≡ true

  add_line-append :
      (l : Line (Event W T)) (ls ms : Option (List (Event W T))) (xs ys : List (Event W T))
      → add_line k l ls ≡ some xs
      → ((zs : List (Event W T)) → ls ≡ some zs → ms ≡ some (zs ++ ys))
      → add_line k l ms ≡ some (xs ++ ys)
  add_line-append (holds e) (some es) ms xs ys h next =
      let q : e ∷ es ≡ xs = cc in rw (next es refl) (ap (λ l. some (l ++ ys)) q)
  add_line-append (holds e) none ms xs ys h next = absurd (cc)
  add_line-append nothing ls ms xs ys h next = next xs h
  add_line-append escapes ls ms xs ys h next = absurd (cc)

  load_lines-append :
      (ls ms : List (List ℕ)) (xs ys : List (Event W T))
      → load_lines k ls ≡ some xs
      → load_lines k ms ≡ some ys
      → load_lines k (ls ++ ms) ≡ some (xs ++ ys)
  unfolding load_lines
  load_lines-append [] ms xs ys a b = let q : [] ≡ xs = cc in rw (← q) b
  load_lines-append (l ∷ ls) ms xs ys a b =
      add_line-append (read_line k l) (load_lines k ls) (load_lines k (ls ++ ms)) xs ys a
        (λ zs h. load_lines-append ls ms zs ys h b)

  -- The store and the file after a series of appends.
  pub extend-store :
      (es before : List (Event W T)) (text : List ℕ)
      → extend k es (record { has_path = some text; events = before })
        ≡ (record { has_path = some (text ++ text_of (map (line_of k) es)); events = before ++ es })
  unfolding extend append text_of
  extend-store [] before text = rw (append-nil text, append-nil before) refl
  extend-store (e ∷ es) before text =
      extend-store es (before ++ e ∷ []) (text ++ (line_of k e ++ 10 ∷ []))
      ∙ (rw
          (
            append_assoc before (e ∷ []) es,
            append_assoc text (line_of k e ++ 10 ∷ []) (text_of (map (line_of k) es)),
            append_assoc (line_of k e) (10 ∷ []) (text_of (map (line_of k) es)),
          )
          refl)

  -- The last line of a text, where it does not end: nothing, or a line that gives nothing.
  pub load_lines-torn :
      (w : List ℕ) → OneLine w → k.loads w ≡ none → load_lines k (lines_from [] w) ≡ some []
  unfolding load_lines lines_from read_line
  load_lines-torn [] one lost = refl
  load_lines-torn (c ∷ w) one lost = rw (one.0, lines_from-begun c [] w one.1, lost) refl

  load-text :
      (ls : List (List ℕ)) (w : List ℕ) (xs ys : List (Event W T))
      → All OneLine ls
      → load_lines k ls ≡ some xs
      → load_lines k (lines_from [] w) ≡ some ys
      → load k (text_of ls ++ w) ≡ some (xs ++ ys)
  unfolding load
  load-text ls w xs ys one a b =
      rw (lines_from-text ls w one) (load_lines-append ls (lines_from [] w) xs ys a b)

  pub open_store-loaded :
      (text : List ℕ) (es : List (Event W T))
      → load k text ≡ some es
      → open_store k (some text) ≡ some (record { has_path = some text; events = es })
  unfolding open_store
  open_store-loaded text es h = rw (open_store, h) refl

  add_line-decoded :
      (e : Option (Event W T)) (es : List (Event W T))
      → fits_if e ≡ true
      → add_line k (decoded k e) (some es) ≡ some (add_reread e es)
  add_line-decoded none es fit = refl
  add_line-decoded (some e) es fit = rw fit refl

  load_lines-written :
      (es : List (Event W T))
      → All IsJson es
      → All IsLoadable es
      → load_lines k (map (line_of k) es) ≡ some (rereads es)
  unfolding load_lines read_line rereads
  load_lines-written [] j w = refl
  load_lines-written (e ∷ es) j w =
      rw (j.0.1, load_lines-written es j.1 w.1) (add_line-decoded (reread e) (rereads es) w.0)

  OneLine-written : (es : List (Event W T)) → All IsJson es → All OneLine (map (line_of k) es)
  OneLine-written [] j = tt
  OneLine-written (e ∷ es) j = (j.0.0, OneLine-written es j.1)

  -- A text of whole lines and a rest, where the last of the lines are those of events.
  pub load-written :
      (ls : List (List ℕ)) (es : List (Event W T)) (w : List ℕ) (xs ys : List (Event W T))
      → All OneLine ls
      → load_lines k ls ≡ some xs
      → All IsJson es
      → All IsLoadable es
      → load_lines k (lines_from [] w) ≡ some ys
      → load k ((text_of ls ++ text_of (map (line_of k) es)) ++ w) ≡ some ((xs ++ rereads es) ++ ys)
  load-written ls es w xs ys one loaded j written rest =
      let lines = map (line_of k) es in
      rw (← text_of-append ls lines) (
        load-text (ls ++ lines) w (xs ++ rereads es) ys
          (All-append OneLine ls lines one (OneLine-written es j))
          (load_lines-append ls lines xs (rereads es) loaded (load_lines-written es j written))
          rest)

  pub load-lines :
      (ls : List (List ℕ)) (xs : List (Event W T))
      → All OneLine ls
      → load_lines k ls ≡ some xs
      → load k (text_of ls) ≡ some xs
  unfolding load lines_from load_lines
  load-lines ls xs one loaded =
      rw (← append-nil (text_of ls))
        (load-text ls [] xs [] one loaded refl ∙ ap some (append-nil xs))

  -- A part of a line and the lines of events behind it, where the part spoils the first.
  pub load_lines-glued :
      (part : List ℕ) (e : Event W T) (later : List (Event W T))
      → OneLine part
      → OneLine (line_of k e)
      → All IsJson later
      → All IsLoadable later
      → k.loads (part ++ line_of k e) ≡ none
      → load_lines k (lines_from [] (part ++ (line_of k e ++ 10 ∷ text_of (map (line_of k) later))))
        ≡ some (rereads later)
  unfolding load_lines load read_line
  load_lines-glued part e later single own j after glued =
      let rest = text_of (map (line_of k) later) in
      rw
        (
          ← append_assoc part (line_of k e) (10 ∷ rest),
          lines_from-line [] (part ++ line_of k e) rest
              (OneLine-append part (line_of k e) single own),
          glued,
        )
        (load-lines (map (line_of k) later) (rereads later) (OneLine-written later j)
          (load_lines-written later j after))
