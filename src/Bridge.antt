-- ===== src/Bridge.antt =====
-- crates/pm-executor/src/bridge.rs: the two loops that carry snapshots and triggers from one channel to
-- another. A loop is a list of what its rounds see.
pub mod Carried
use rtt.Prelude.{ℕ, Bool, true, false, Option, none, some, List, [], ◌∷◌}
use rtt.Trigger.{TriggerMessage}

-- A round of `broadcast_to_mpsc`: an item with whether the other channel takes it, a receiver that lagged
-- behind, the end of the channel, or a change of the shutdown flag to a value.
pub data BroadcastRound (A : Type 0) : Type 0 where
  received : A → Bool → BroadcastRound A
  lagged : ℕ → BroadcastRound A
  closed : BroadcastRound A
  shutdown_changed : Bool → BroadcastRound A

abbrev pub carried_on : {A : Type 0} → Bool → A → List A → List A
carried_on true item rest = item ∷ rest
carried_on false item rest = []

abbrev pub unless : {A : Type 0} → Bool → List A → List A
unless true rest = []
unless false rest = rest

-- What reaches the other channel.
unfoldable pub broadcast_to_mpsc : {A : Type 0} → List (BroadcastRound A) → List A
broadcast_to_mpsc [] = []
broadcast_to_mpsc (received item taken ∷ rounds) = carried_on taken item (broadcast_to_mpsc rounds)
broadcast_to_mpsc (lagged n ∷ rounds) = broadcast_to_mpsc rounds
broadcast_to_mpsc (closed ∷ rounds) = []
broadcast_to_mpsc (shutdown_changed down ∷ rounds) = unless down (broadcast_to_mpsc rounds)

-- A round of `mpsc_to_crossbeam`; a trigger stands with the time that it is stamped with.
pub data TriggerRound : Type 0 where
  trigger_received : TriggerMessage → ℕ → Bool → TriggerRound
  triggers_ended : TriggerRound
  trigger_shutdown : Bool → TriggerRound

abbrev pub stamped : TriggerMessage → ℕ → TriggerMessage
stamped trigger now_ns = record trigger { timestamp_ns = now_ns }

unfoldable pub mpsc_to_crossbeam : List TriggerRound → List TriggerMessage
mpsc_to_crossbeam [] = []
mpsc_to_crossbeam (trigger_received trigger now_ns taken ∷ rounds) =
    carried_on taken (stamped trigger now_ns) (mpsc_to_crossbeam rounds)
mpsc_to_crossbeam (triggers_ended ∷ rounds) = []
mpsc_to_crossbeam (trigger_shutdown down ∷ rounds) = unless down (mpsc_to_crossbeam rounds)
