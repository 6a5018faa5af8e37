-- ===== src/Tests/Speed.antt =====
-- The speeds of two providers after three requests, and the size read from a model's name.
use inference_exchange.Prelude.{String_discrete, pos, ◌≡◌, refl, String, Bool, false, List, [], All}
use inference_exchange.Tests.{host, thousandths, thousandths-IsOrdered}
use inference_exchange.Throughput.{
  ProviderModelTps, extract_model_size, estimate_initial_tps, record_request, get_or_create,
}
use inference_exchange.Throughput.Range.{
  InRange, Tracked, untracked, recorded, asked, Tracked-InRange,
}

abbrev never_ends : String → String → Bool
never_ends s part = false

abbrev Stats : Type 0
Stats = ProviderModelTps host never_ends thousandths

size_of_13b : extract_model_size host never_ends "llama-2-13b-chat" ≡ "3b"
unfolding extract_model_size
size_of_13b = refl

estimate_of_prefix : estimate_initial_tps host never_ends "apple-m4-pro-48gb" "llama-3.1-8b" ≡ 9
unfolding estimate_initial_tps extract_model_size String_discrete
estimate_of_prefix = refl

abbrev asked_first : List Stats
asked_first = get_or_create host never_ends thousandths "p1" "llama-7b" "apple-m1" []

abbrev once : List Stats
once =
    record_request host never_ends thousandths "p1" "llama-7b" (pos 100) (pos 2000) "apple-m1"
      asked_first

abbrev twice : List Stats
twice =
    record_request host never_ends thousandths "p2" "llama-7b" (pos 40) (pos 3000) "apple-m1" once

abbrev thrice : List Stats
thrice =
    record_request host never_ends thousandths "p1" "llama-7b" (pos 90) (pos 6000) "apple-m1" twice

tracked : Tracked host never_ends thousandths thousandths-IsOrdered thrice
tracked = recorded "p1" "llama-7b" (pos 90) (pos 6000) "apple-m1" twice (
    recorded "p2" "llama-7b" (pos 40) (pos 3000) "apple-m1" once (
      recorded "p1" "llama-7b" (pos 100) (pos 2000) "apple-m1" asked_first
        (asked "p1" "llama-7b" "apple-m1" [] untracked)))

Tracked-InRange_example : All (InRange host never_ends thousandths thousandths-IsOrdered) thrice
Tracked-InRange_example =
    Tracked-InRange host never_ends thousandths thousandths-IsOrdered thrice tracked
