-- ===== src/Bridge/Carried.antt =====
-- A trigger crosses the bridge of crates/pm-executor/src/bridge.rs with a new time stamp and no other change.
use rtt.Prelude.{◌≡◌, refl, ap, true, false, List, [], ◌∷◌, ◌++◌, map}
use rtt.Trigger.{TriggerMessage}
use rtt.Bridge.{
  TriggerRound, trigger_received, triggers_ended, trigger_shutdown, stamped, mpsc_to_crossbeam,
}

-- The triggers of the rounds, whatever becomes of them.
abbrev pub received_triggers : List TriggerRound → List TriggerMessage
received_triggers [] = []
received_triggers (trigger_received trigger now_ns taken ∷ rounds) =
    trigger ∷ received_triggers rounds
received_triggers (triggers_ended ∷ rounds) = received_triggers rounds
received_triggers (trigger_shutdown down ∷ rounds) = received_triggers rounds

abbrev pub unstamped : TriggerMessage → TriggerMessage
unstamped trigger = stamped trigger 0

-- What is carried over comes first among what is received, in its order, time stamps aside.
pub mpsc_to_crossbeam-prefix :
    (rounds : List TriggerRound)
    → (rest : List TriggerMessage) × (map unstamped (mpsc_to_crossbeam rounds) ++ rest
        ≡ map unstamped (received_triggers rounds))
unfolding mpsc_to_crossbeam
mpsc_to_crossbeam-prefix [] = ([], refl)
mpsc_to_crossbeam-prefix (trigger_received trigger now_ns true ∷ rounds) =
    let (rest, e) = mpsc_to_crossbeam-prefix rounds in (rest, ap (◌∷◌ (unstamped trigger)) e)
mpsc_to_crossbeam-prefix (trigger_received trigger now_ns false ∷ rounds) =
    (map unstamped (trigger ∷ received_triggers rounds), refl)
mpsc_to_crossbeam-prefix (triggers_ended ∷ rounds) =
    (map unstamped (received_triggers rounds), refl)
mpsc_to_crossbeam-prefix (trigger_shutdown true ∷ rounds) =
    (map unstamped (received_triggers rounds), refl)
mpsc_to_crossbeam-prefix (trigger_shutdown false ∷ rounds) = mpsc_to_crossbeam-prefix rounds
