-- ===== src/Tests/Feed.antt =====
-- An event bus with one subscriber and two events, one of which has its time already.
use inference_exchange.Prelude.{◌≡◌, arith, String, List, [], ◌∷◌, last_n}
use inference_exchange.Events.{recent_events}
use inference_exchange.Events.History.{
  Step, published, subscribed, run, published_events, recent_events-run,
}

abbrev steps : List (Step String)
steps =
    published "20" (("type", "error") ∷ ("timestamp", "19") ∷ [])
    ∷ subscribed 1
    ∷ published "10" (("type", "match") ∷ ("request_id", "r1") ∷ [])
    ∷ []

recent_events-run_example :
    recent_events String 1 (run String steps) ≡ last_n 1 (published_events String steps)
recent_events-run_example = recent_events-run String 1 steps (omega arith) (omega arith)
