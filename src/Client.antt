-- ===== src/Client.antt =====
-- `ReplobApplySync` of include/synca/once/replob.h: a call of a replicated object that waits for its place in
-- the log, with the object of one node and the frames of the calls that wait there. The log itself is a
-- list of calls; that nodes agree on it is what Log is about.
pub mod Wakes
pub mod Replay
pub mod Calls
pub mod KeyValue
mod Examples
use replob_prototype.Prelude.{ℕ, ◌==◌, if◌then◌else◌, Option, none, some, List, [], ◌∷◌, update}
use replob_prototype.Oers.{Journeys, DetachableDoer, detachable_doer, detachable_done}

-- The message: a call by the node `src`, with the frame to which `result_` and `doer_` point. Only `src`
-- uses the frame. `S` is the type of the object and `R` that of the result.
pub record Call (S R : Type 0) : Type 0 where
  pub src : ℕ
  pub frame : ℕ
  pub handler : S → S × R

-- The variables of a call of `result`
pub record Frame (R : Type 0) : Type 0 where
  pub doer : DetachableDoer
  pub result : Option R

-- The object at a node, the frames there, of which `none` is one that has been left, and the words of the
-- journeys.
pub record Site (S R : Type 0) : Type 0 where
  pub object : S
  pub frames : ℕ → Option (Frame R)
  pub journeys : Journeys

module _ {S R : Type 0} where
  -- `result` in the journey `j` up to `waitForDone`, with the message that it applies
  unfoldable pub begin_call : ℕ → ℕ → ℕ → (S → S × R) → Site S R → Site S R × Call S R
  begin_call this_node j frame handler s = (
    record s {
      frames =
          update s.frames frame
            (some (record { doer = detachable_doer j s.journeys; result = none }));
    },
    record { src = this_node; frame = frame; handler = handler },
  )

  -- the end of `result`, by its return or by an exception of `waitForDone`
  unfoldable pub leave : ℕ → Site S R → Site S R
  leave frame s = record s { frames = update s.frames frame none }

  -- what `result` returns; `none` is a read of an empty optional.
  unfoldable pub returned_value : ℕ → Site S R → Option R
  returned_value frame s = elim (s.frames frame) [ none ↦ none | some f ↦ f.result ]

  -- `operator()` where the frame of the call is at hand
  unfoldable pub exec_in : Call S R → Frame R → Site S R → Site S R
  exec_in c f s =
      let (object, r) = c.handler s.object in
      record {
        object = object;
        frames = update s.frames c.frame (some (record f { result = some r }));
        journeys = (detachable_done f.doer s.journeys).0;
      }

  -- `operator()`; `none` is an access to a frame that has been left.
  unfoldable pub exec_call : ℕ → Call S R → Site S R → Option (Site S R)
  exec_call this_node c s =
      if c.src == this_node
      then elim (s.frames c.frame) [ none ↦ none | some f ↦ some (exec_in c f s) ]
      else some (record s { object = (c.handler s.object).0 })

  -- the messages of the log, one after another
  unfoldable pub exec_calls : ℕ → List (Call S R) → Site S R → Option (Site S R)
  exec_calls this_node [] s = some s
  exec_calls this_node (c ∷ cs) s = elim (exec_call this_node c s) [
    | none ↦ none
    | some t ↦ exec_calls this_node cs t
  ]
