-- ===== src/Throughput/Table.antt =====
-- The hardware table of inference_exchange/coordinator/tps_tracker.py.
use inference_exchange.Prelude.{ℕ, String, List, [], ◌∷◌}

-- `EXPECTED_TPS`, in its order.
abbrev pub expected_tps : List ((String × String) × ℕ)
expected_tps =
    (("apple-m1", "0.5b"), 80)
    ∷ (("apple-m1", "3b"), 40)
    ∷ (("apple-m1", "7b"), 20)
    ∷ (("apple-m1", "8b"), 18)
    ∷ (("apple-m1", "13b"), 10)
    ∷ (("apple-m1-pro", "7b"), 35)
    ∷ (("apple-m1-pro", "8b"), 32)
    ∷ (("apple-m1-pro", "13b"), 18)
    ∷ (("apple-m1-max", "7b"), 45)
    ∷ (("apple-m1-max", "13b"), 25)
    ∷ (("apple-m1-max", "70b"), 8)
    ∷ (("apple-m2", "7b"), 30)
    ∷ (("apple-m2-pro", "7b"), 45)
    ∷ (("apple-m2-pro", "13b"), 25)
    ∷ (("apple-m2-max", "7b"), 55)
    ∷ (("apple-m2-max", "70b"), 12)
    ∷ (("apple-m2-ultra", "7b"), 70)
    ∷ (("apple-m2-ultra", "70b"), 20)
    ∷ (("apple-m3", "7b"), 35)
    ∷ (("apple-m3-pro", "7b"), 50)
    ∷ (("apple-m3-max", "7b"), 65)
    ∷ (("apple-m3-max", "70b"), 15)
    ∷ (("apple-m4", "7b"), 40)
    ∷ (("apple-m4-pro", "7b"), 60)
    ∷ (("apple-m4-pro", "13b"), 35)
    ∷ (("apple-m4-max", "7b"), 80)
    ∷ (("apple-m4-max", "70b"), 22)
    ∷ (("nvidia-rtx3060", "7b"), 40)
    ∷ (("nvidia-rtx3070", "7b"), 55)
    ∷ (("nvidia-rtx3080", "7b"), 70)
    ∷ (("nvidia-rtx3090", "7b"), 90)
    ∷ (("nvidia-rtx3090", "13b"), 50)
    ∷ (("nvidia-rtx3090", "70b"), 12)
    ∷ (("nvidia-rtx4060", "7b"), 50)
    ∷ (("nvidia-rtx4070", "7b"), 65)
    ∷ (("nvidia-rtx4080", "7b"), 85)
    ∷ (("nvidia-rtx4090", "7b"), 130)
    ∷ (("nvidia-rtx4090", "13b"), 75)
    ∷ (("nvidia-rtx4090", "70b"), 20)
    ∷ (("amd-ryzen-7", "7b"), 15)
    ∷ (("amd-ryzen-9", "7b"), 25)
    ∷ (("amd-epyc", "7b"), 30)
    ∷ (("amd-epyc-sev", "7b"), 28)
    ∷ (("intel-core-i7", "7b"), 12)
    ∷ (("intel-core-i9", "7b"), 18)
    ∷ (("intel-xeon", "7b"), 20)
    ∷ (("unknown", "0.5b"), 30)
    ∷ (("unknown", "3b"), 15)
    ∷ (("unknown", "7b"), 10)
    ∷ (("unknown", "8b"), 9)
    ∷ (("unknown", "13b"), 5)
    ∷ (("unknown", "70b"), 2)
    ∷ []
