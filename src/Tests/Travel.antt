-- ===== src/Tests/Travel.antt =====
-- Five completions of three consumers between two countries, and what is published the next day.
use native.Mathlib.Decide.{ℕ_discrete}
use inference_exchange.Prelude.{
  ℕ, ◌≤◌, ◌≡◌, refl, String, String_discrete, true, some, List, [], ◌∷◌, All, length, sort_by,
}
use inference_exchange.Countries.{is_country}
use inference_exchange.Countries.Activity.{
  Completion, Kind, Days, count_band, record_completion, snapshot,
}
use inference_exchange.Countries.Suppression.{Reached, start, recorded, Reached-bounded}
use inference_exchange.Countries.Suppression.Routes.{total, Distinct}
use inference_exchange.Countries.Suppression.Release.{Suppressed, snapshot-Suppressed}
use inference_exchange.Countries.Suppression.Repeat.{record_completion-again}

abbrev digest : ℕ → Kind → String → String
digest day kind s = s

abbrev completion : String → String → Completion
completion consumer request = record {
  enabled = true;
  today = 1;
  provider_country = some "DE";
  caller_country = some "FR";
  consumer_id = consumer;
  request_id = request;
}

abbrev trips : List Completion
trips =
    completion "carol" "r5"
    ∷ completion "alice" "r4"
    ∷ completion "carol" "r3"
    ∷ completion "bob" "r2"
    ∷ completion "alice" "r1"
    ∷ []

abbrev replay : List Completion → Days
replay [] = []
replay (c ∷ cs) = record_completion digest c (replay cs)

replayed : (cs : List Completion) → Reached digest cs (replay cs)
replayed [] = start
replayed (c ∷ cs) = recorded c (replayed cs)

snapshot-run :
    (snapshot true 2 (replay trips)).0
    ≡ record { provider_country = "DE"; caller_country = "FR"; band = (5, some 9) } ∷ []
unfolding snapshot record_completion count_band is_country sort_by String_discrete ℕ_discrete
snapshot-run = refl

snapshot-Suppressed_example : All (Suppressed digest trips 2) (snapshot true 2 (replay trips)).0
snapshot-Suppressed_example =
    snapshot-Suppressed digest trips (replay trips) true 2 (replayed trips)

Reached-bounded_example :
    (length (replay trips) ≤ 2)
    × All
        (λ d.
          (length d.seen ≤ 30_000)
          × (length d.routes ≤ 1024)
          × (total d.routes ≡ length d.seen)
          × Distinct d.seen
          × All (λ r. length r.consumers ≤ 3) d.routes)
        (replay trips)
Reached-bounded_example = Reached-bounded digest trips (replay trips) (replayed trips)

record_completion-again_example :
    record_completion digest
      (completion "dave" "r6")
      (record_completion digest (completion "dave" "r6") (replay trips))
    ≡ record_completion digest (completion "dave" "r6") (replay trips)
record_completion-again_example =
    record_completion-again digest (completion "dave" "r6") (replay trips)
