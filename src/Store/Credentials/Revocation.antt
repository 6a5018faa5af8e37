-- ===== src/Store/Credentials/Revocation.antt =====
-- Proofs about `revoke_provider_token` of inference_exchange/coordinator/store.py.
use inference_exchange.Prelude.{
  ◌≡◌, refl, String, Bool, false, ◌&&◌, none, some, List, [], ◌∷◌, ◌==◌, is_none, first, update,
  text_eq, arith,
}
use inference_exchange.Store.Schema.{Time, ProviderToken, Db}
use inference_exchange.Store.Credentials.{
  live_hash, revoke_provider_token, provider_credential_is_active,
}
use inference_exchange.Store.Providers.Limits.{IsSound}
use inference_exchange.Store.Providers.Sound.{revoke-IsSound}

abbrev live_id : String → ProviderToken → Bool
live_id id t = (t.token_id == id) && is_none t.revoked_at

first-revoked :
    (id hash : String) (now : Time) (tokens : List ProviderToken)
    → first
        (λ t. live_hash hash t && (t.token_id == id))
        (update (live_id id) (λ t. record t { revoked_at = some now }) tokens)
      ≡ none
first-revoked id hash now [] = refl
first-revoked id hash now (t ∷ tokens) = ground (arith, first-revoked id hash now tokens)

-- After a token id is revoked, no credential with that id is admitted at any time, whatever its
-- hash.
pub revoke_provider_token-inactive :
    (id hash : String) (now later : Time) (db : Db)
    → provider_credential_is_active hash id later (revoke_provider_token id now db).1 ≡ false
unfolding provider_credential_is_active revoke_provider_token
revoke_provider_token-inactive id hash now later db =
    rw (first-revoked id hash now db.provider_tokens, provider_credential_is_active)

-- Revoking a token id keeps that every token names a stored node or none, that self-service tokens
-- name one, and that no owner has two active self-service credentials.
pub revoke_provider_token-IsSound :
    (id : String) (now : Time) (db : Db) → IsSound db → IsSound (revoke_provider_token id now db).1
unfolding revoke_provider_token
revoke_provider_token-IsSound id now db s =
    revoke-IsSound (live_id id) now db.provider_nodes db.provider_tokens _ s.linked s.one_active
      (refl, refl)
