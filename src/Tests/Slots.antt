-- ===== src/Tests/Slots.antt =====
-- An account that asks for three slots where two are allowed.
use inference_exchange.Prelude.{
  ◌≤◌, ◌≡◌, pos, refl, false, List, [], ◌∷◌, arith, text_eq, String_discrete,
}
use inference_exchange.Controls.{
  OperatorControls, Event, active_for, try_acquire, release, run, lookup_active, run-bounded,
}

abbrev controls : OperatorControls
controls = record {
  inference_paused = false;
  signup_disabled = false;
  max_concurrent_per_account = pos 2;
  active = ("alice", 1) ∷ [];
}

abbrev events : List Event
events = Event.asks "alice" ∷ Event.asks "alice" ∷ Event.ends "alice" ∷ Event.asks "alice" ∷ []

run-events : active_for "alice" (run events controls) ≡ 2
unfolding try_acquire release String_discrete
run-events = refl

run-bounded_example : active_for "alice" (run events controls) ≤ 2
unfolding lookup_active String_discrete
run-bounded_example = run-bounded 1 "alice" events controls refl (omega arith)
