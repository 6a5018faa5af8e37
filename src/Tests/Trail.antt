-- ===== src/Tests/Trail.antt =====
-- Two audit logs of two events, written by a printer that shows the previous hash alone.
use Prim.Native.String.{◌++◌}
use text.Mathlib.TextLemmas.{append_cancel_left}
use inference_exchange.Prelude.{ℕ, ◌≡◌, ◌⊎◌, refl, String, List, [], ◌∷◌}
use inference_exchange.Tests.{host}
use inference_exchange.Audit.{Entry, Payload, open_log, log, provider_connect, provider_disconnect}
use inference_exchange.Audit.Chain.{written, Collides, written-tamper_evident}

abbrev print : Entry → String
print e = "line " ++ e.prev_hash

abbrev first : List (Payload × ℕ)
first = (provider_disconnect "p1" "mac", 20) ∷ (provider_connect "p1" "mac" "hardened", 10) ∷ []

abbrev second : List (Payload × ℕ)
second = (provider_disconnect "p2" "mini", 30) ∷ (provider_connect "p2" "mini" "none", 10) ∷ []

same_hash :
    (written host print ("old" ∷ []) first).last_hash
    ≡ (written host print ("old" ∷ []) second).last_hash
unfolding open_log log
same_hash = refl

written-tamper_evident_example :
    ((written host print ("old" ∷ []) first).file ≡ (written host print ("old" ∷ []) second).file)
    ⊎ Collides host print
        (written host print ("old" ∷ []) first)
        (written host print ("old" ∷ []) second)
written-tamper_evident_example =
    written-tamper_evident host print (λ e f. append_cancel_left "line " e.prev_hash f.prev_hash)
      ("old" ∷ []) first second refl same_hash
