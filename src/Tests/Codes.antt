-- ===== src/Tests/Codes.antt =====
-- The bytes of an ASCII text, for the tests.
use Prim.Native.Char.{code}
use text.Mathlib.TextEquality.{Char-path}
use inference_exchange.Prelude.{String, [], ◌∷◌, ◌≡◌, refl}
use inference_exchange.Handshake.{Bytes}

abbrev pub encode : String → Bytes
encode String.[] = []
encode (String.◌∷◌ c s) = code c ∷ encode s

pub encode-injective : (s t : String) → encode s ≡ encode t → s ≡ t
encode-injective String.[] String.[] e = refl
encode-injective String.[] (String.◌∷◌ d t) e = absurd (cc e)
encode-injective (String.◌∷◌ c s) String.[] e = absurd (cc e)
encode-injective (String.◌∷◌ c s) (String.◌∷◌ d t) e =
    let same_head : c ≡ d = Char-path c d (cc e) in
    let same_tail : s ≡ t = encode-injective s t (cc e) in cc (same_head, same_tail)
