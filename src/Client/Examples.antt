-- ===== src/Client/Examples.antt =====
-- Tests of calls of the replicated map at node 1, and the theorem there.
use replob_prototype.Prelude.{true}
use Prim.Native.String.{String}
use replob_prototype.Prelude.{◌≡◌, refl, Option, none, some, List, [], ◌∷◌}
use replob_prototype.Journey.{constructed}
use replob_prototype.Client.{Call, Site, begin_call, leave, returned_value, exec_calls}
use replob_prototype.Client.Replay.{replay}
use replob_prototype.Client.Calls.{sync_call_lem}
use replob_prototype.Client.KeyValue.{Kv, get_value, assign, set_value}

abbrev setter : String → Option String → Kv → Kv × Option String
setter key value m = (set_value key value m, none)

abbrev getter : String → Kv → Kv × Option String
getter key m = (m, get_value key m)

-- Node 2 sets a value before and after node 1 reads it, in the frame 9.
abbrev set_before : Call Kv (Option String)
set_before = record { src = 2; frame = 9; handler = setter "hello" (some "world!") }

abbrev set_after : Call Kv (Option String)
set_after = record { src = 2; frame = 8; handler = setter "hello" none }

abbrev site : Site Kv (Option String)
site = record { object = []; frames = λ a. none; journeys = λ j. constructed }

abbrev called : Site Kv (Option String) × Call Kv (Option String)
called = begin_call 1 5 9 (getter "hello") site

abbrev log : List (Call Kv (Option String))
log = set_before ∷ called.1 ∷ set_after ∷ []

read_back : getter "hello" (replay (set_before ∷ []) []) ≡ (("hello", "world!") ∷ [], some "world!")
unfolding get_value set_value assign
read_back = refl

sync_call_lem_example :
    ((t : Site Kv (Option String)) × (exec_calls 1 log called.0 ≡ some t)
      × (t.object ≡ replay log [])
      × (returned_value 9 t ≡ some (getter "hello" (replay (set_before ∷ []) [])).1)
      × ((t.journeys 5).done ≡ true))
    × (exec_calls 1 log (leave 9 called.0) ≡ none)
sync_call_lem_example =
    sync_call_lem 1 5 9 (getter "hello") site (set_before ∷ []) (set_after ∷ []) (λ e. cc, tt)
      (λ e. cc, tt) (λ e. cc, tt) (λ e. cc, tt)
