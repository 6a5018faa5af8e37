-- ===== src/Inference/Responses.antt =====
-- What a consumer gets from the messages of a provider: `_stream_response` and `_collect_response`
-- of inference_exchange/coordinator/routes_inference.py.
pub mod Delivery
use inference_exchange.Prelude.{
  ℕ, suc, ℤ, pos, ◌+◌, ◌/◌, ◌≡◌, refl, sym, ap, ◌∙◌, String, Bool, true, false, not, Option, none,
  some, List, [], ◌∷◌, ◌++◌, map, ◌==◌, text_eq, if◌then◌else◌, ltb_ℤ, length, length-append, arith,
  ◌+ℤ◌,
}
use inference_exchange.Attribution.{served_model_for_request}

pub record InferenceDone : Type 0 where
  pub tokens_generated : ℤ
  pub input_tokens : ℤ
  pub cached_tokens : ℤ
  pub served_model : Option String

-- `InferenceResponseChunk`, with the encrypted token as a text.
pub record ResponseChunk : Type 0 where
  pub token : String
  pub encrypted_token : Option String
  pub finish_reason : Option String

-- What `queue.get()` gives, or its timeout after 120 seconds.
pub data Arrival : Type 0 where
  chunk_arrives : ResponseChunk → Arrival
  done_arrives : InferenceDone → Arrival
  error_arrives : String → Arrival
  times_out : Arrival

-- The outcomes that reputation is told.
pub data ServiceOutcome : Type 0 where
  success timeout disconnect error : ServiceOutcome

-- An event of the stream.
pub data StreamEvent : Type 0 where
  delta : (content finish_reason encrypted_token model : Option String) → StreamEvent
  stop : Option String → StreamEvent
  error_event : String → StreamEvent
  end_of_stream : StreamEvent

-- How far the loop over the queue has come: it waits for more, or it has ended.
pub data Progress {ℓ} (A : Type ℓ) : Type ℓ where
  running : A → Progress A
  ended : A → Progress A

pub record Stream : Type 0 where
  pub events : List StreamEvent
  pub token_count : ℕ
  pub outcome : ServiceOutcome

abbrev pub content_of : String → Option String
content_of token = if token == "" then none else some token

module _ (requested : String) (models : List String) where
  abbrev pub served : Option String → Option String
  served confirmed = served_model_for_request requested models confirmed

  -- The delta has a content where the token is not empty, and the chunk an encrypted token likewise.
  abbrev pub delta_of : ResponseChunk → StreamEvent
  delta_of c =
      delta (content_of c.token) c.finish_reason
        (elim c.encrypted_token [ none ↦ none | some t ↦ content_of t ]) (served none)

  abbrev pub close : Stream → StreamEvent → ServiceOutcome → Stream
  close s e o = record s { events = s.events ++ (e ∷ end_of_stream ∷ []); outcome = o }

  -- The loop of `_stream_response`.
  unfoldable pub stream_loop : List Arrival → Stream → Progress Stream
  stream_loop [] s = running s
  stream_loop (chunk_arrives c ∷ more) s =
      stream_loop more
        (record s { events = s.events ++ (delta_of c ∷ []); token_count = suc s.token_count })
  stream_loop (done_arrives d ∷ more) s = ended (close s (stop (served d.served_model)) success)
  stream_loop (error_arrives e ∷ more) s =
      ended (close s (error_event e) (if e == "provider_disconnected" then disconnect else error))
  stream_loop (times_out ∷ more) s = ended (close s (error_event "Provider timeout") timeout)

  abbrev pub no_stream : Stream
  no_stream = record { events = []; token_count = 0; outcome = success }

  unfoldable pub stream_response : List Arrival → Progress Stream
  unfolding stream_loop
  stream_response arrivals = stream_loop arrivals no_stream

-- The collected response or the exception raised, with the outcome that reputation is told; or the
-- tokens so far.
pub data Collected : Type 0 where
  complete : List String → InferenceDone → ServiceOutcome → Collected
  provider_error : String → ServiceOutcome → Collected
  provider_timeout : ServiceOutcome → Collected
  incomplete : List String → Collected

-- The loop of `_collect_response`.
unfoldable pub collect_loop : List Arrival → List String → Collected
collect_loop [] tokens = incomplete tokens
collect_loop (chunk_arrives c ∷ more) tokens = collect_loop more (tokens ++ (c.token ∷ []))
collect_loop (done_arrives d ∷ more) tokens = complete tokens d success
collect_loop (error_arrives e ∷ more) tokens = provider_error e error
collect_loop (times_out ∷ more) tokens = provider_timeout timeout

unfoldable pub collect_response : List Arrival → Collected
unfolding collect_loop
collect_response arrivals = collect_loop arrivals []
