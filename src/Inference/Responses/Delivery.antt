-- ===== src/Inference/Responses/Delivery.antt =====
-- Proofs about the streamed and the collected responses of
-- inference_exchange/coordinator/routes_inference.py.
use inference_exchange.Prelude.{
  suc, ◌+◌, ◌≡◌, ◌≢◌, Option, none, some, String_discrete, refl, ap, ◌∙◌, String, Bool, true, false,
  List, [], ◌∷◌, ◌++◌, map, text_eq, length, length-append, arith,
}
use inference_exchange.Inference.Responses.{
  ResponseChunk, Arrival, chunk_arrives, done_arrives, error_arrives, times_out, success, timeout,
  disconnect, error, StreamEvent, delta, stop, error_event, end_of_stream, Progress, running, ended,
  Stream, delta_of, content_of, stream_loop, no_stream, stream_response, Collected, complete,
  provider_error, provider_timeout, incomplete, collect_loop, collect_response,
}

-- The text of a delta; one without a content has the empty text.
abbrev pub text_of : Option String → String
text_of none = ""
text_of (some t) = t

text_of-content_of : (t : String) → text_of (content_of t) ≡ t
text_of-content_of t = elim (String_discrete t "") [
  | yes e ↦ ground (arith, e)
  | no n ↦ ground (arith, n)
]

-- What the consumer of a stream has: the texts of its deltas.
abbrev pub streamed_tokens : List StreamEvent → List String
streamed_tokens [] = []
streamed_tokens (delta c f e m ∷ es) = text_of c ∷ streamed_tokens es
streamed_tokens (stop m ∷ es) = streamed_tokens es
streamed_tokens (error_event e ∷ es) = streamed_tokens es
streamed_tokens (end_of_stream ∷ es) = streamed_tokens es

streamed_tokens-append :
    (xs ys : List StreamEvent)
    → streamed_tokens (xs ++ ys) ≡ streamed_tokens xs ++ streamed_tokens ys
streamed_tokens-append [] ys = refl
streamed_tokens-append (delta c f e m ∷ xs) ys =
    ap (λ l. text_of c ∷ l) (streamed_tokens-append xs ys)
streamed_tokens-append (stop m ∷ xs) ys = streamed_tokens-append xs ys
streamed_tokens-append (error_event e ∷ xs) ys = streamed_tokens-append xs ys
streamed_tokens-append (end_of_stream ∷ xs) ys = streamed_tokens-append xs ys

append_nil : (xs : List String) → xs ++ [] ≡ xs
append_nil [] = refl
append_nil (x ∷ xs) = ap (λ l. x ∷ l) (append_nil xs)

append_assoc : (xs ys zs : List String) → (xs ++ ys) ++ zs ≡ xs ++ (ys ++ zs)
append_assoc [] ys zs = refl
append_assoc (x ∷ xs) ys zs = ap (λ l. x ∷ l) (append_assoc xs ys zs)

-- A stream and a collected response of the same messages.
abbrev pub Agrees : Progress Stream → Collected → Type 0
Agrees (running s) (incomplete tokens) = streamed_tokens s.events ≡ tokens
Agrees (running s) (complete tokens d o) = ⊥
Agrees (running s) (provider_error e o) = ⊥
Agrees (running s) (provider_timeout o) = ⊥
Agrees (ended s) (incomplete tokens) = ⊥
Agrees (ended s) (complete tokens d o) =
    (s.outcome ≡ success)
    × (o ≡ success)
    × (streamed_tokens s.events ≡ tokens)
    × (s.token_count ≡ length tokens)
Agrees (ended s) (provider_error e o) =
    (o ≡ error)
    × (e ≡ "provider_disconnected" → s.outcome ≡ disconnect)
    × (e ≢ "provider_disconnected" → s.outcome ≡ error)
    × ((before : List StreamEvent) × (s.events ≡ before ++ (error_event e ∷ end_of_stream ∷ [])))
Agrees (ended s) (provider_timeout o) =
    (s.outcome ≡ timeout)
    × (o ≡ timeout)
    × ((before : List StreamEvent) × (s.events
          ≡ before ++ (error_event "Provider timeout" ∷ end_of_stream ∷ [])))

stream_loop-Agrees :
    (requested : String) (models : List String) (arrivals : List Arrival) (s : Stream)
    (tokens : List String)
    → streamed_tokens s.events ≡ tokens
    → s.token_count ≡ length tokens
    → Agrees (stream_loop requested models arrivals s) (collect_loop arrivals tokens)
unfolding stream_loop collect_loop
stream_loop-Agrees requested models [] s tokens e n = e
stream_loop-Agrees requested models (chunk_arrives c ∷ more) s tokens e n =
    stream_loop-Agrees requested models more _ (tokens ++ (c.token ∷ []))
      (streamed_tokens-append s.events _
        ∙ ap (λ l. l ++ (text_of (content_of c.token) ∷ [])) e
        ∙ ap (λ t. tokens ++ (t ∷ [])) (text_of-content_of c.token))
      (omega (arith, n, length-append tokens (c.token ∷ [])))
stream_loop-Agrees requested models (done_arrives d ∷ more) s tokens e n =
    (refl, refl, streamed_tokens-append s.events _ ∙ append_nil (streamed_tokens s.events) ∙ e, n)
stream_loop-Agrees requested models (error_arrives x ∷ more) s tokens e n =
    (refl, (λ p. ground (arith, p)), (λ p. ground (arith, p)), (s.events, refl))
stream_loop-Agrees requested models (times_out ∷ more) s tokens e n = (refl, refl, (s.events, refl))

-- For the same messages of a provider, the streamed and the collected response are both still
-- waiting, with the same tokens; or both complete and record a success, the stream with the tokens
-- of the collected response in order and counted; or both end with the provider's error, where the
-- collected one records an error, and the stream, whose last event but the end is that error, a
-- disconnection if the error is provider_disconnected and an error if not; or both time out and
-- record a timeout.
pub stream_response-Agrees :
    (requested : String) (models : List String) (arrivals : List Arrival)
    → Agrees (stream_response requested models arrivals) (collect_response arrivals)
unfolding stream_response collect_response
stream_response-Agrees requested models arrivals =
    stream_loop-Agrees requested models arrivals (no_stream requested models) [] refl refl

abbrev pub is_chunk : Arrival → Bool
is_chunk (chunk_arrives c) = true
is_chunk (done_arrives d) = false
is_chunk (error_arrives e) = false
is_chunk times_out = false

-- A stream that has sent the tokens after those of `before`.
abbrev pub Sent : Stream → List String → Progress Stream → Type 0
Sent before tokens (running s) = ⊥
Sent before tokens (ended s) =
    (streamed_tokens s.events ≡ streamed_tokens before.events ++ tokens)
    × (s.token_count ≡ before.token_count + length tokens)

stream_loop-ends :
    (requested : String) (models : List String) (cs : List ResponseChunk) (a : Arrival)
    (more : List Arrival) (s : Stream)
    → is_chunk a ≡ false
    → Sent s
        (map (λ c. c.token) cs)
        (stream_loop requested models (map chunk_arrives cs ++ (a ∷ more)) s)
unfolding stream_loop
stream_loop-ends requested models [] (chunk_arrives c) more s h = absurd (cc h)
stream_loop-ends requested models [] (done_arrives d) more s h =
    (streamed_tokens-append s.events _, omega arith)
stream_loop-ends requested models [] (error_arrives e) more s h =
    (streamed_tokens-append s.events _, omega arith)
stream_loop-ends requested models [] times_out more s h =
    (streamed_tokens-append s.events _, omega arith)
stream_loop-ends requested models (c ∷ cs) a more s h =
    shifted (stream_loop requested models (map chunk_arrives cs ++ (a ∷ more)) next)
      (stream_loop-ends requested models cs a more next h)
  where
    next : Stream
    next = record s {
      events = s.events ++ (delta_of requested models c ∷ []);
      token_count = suc s.token_count;
    }

    shifted :
        (p : Progress Stream)
        → Sent next (map (λ x. x.token) cs) p
        → Sent s (c.token ∷ map (λ x. x.token) cs) p
    shifted (running t) k = k
    shifted (ended t) (e, n) = (
      e
          ∙ ap (λ l. l ++ map (λ x. x.token) cs)
              (streamed_tokens-append s.events (delta_of requested models c ∷ []))
          ∙ ap (λ t. (streamed_tokens s.events ++ (t ∷ [])) ++ map (λ x. x.token) cs)
              (text_of-content_of c.token)
          ∙ append_assoc (streamed_tokens s.events) (c.token ∷ []) (map (λ x. x.token) cs),
      omega (arith, n),
    )

-- A stream that is given any number of chunks and then the end of the response, an error or a
-- timeout has ended, whatever would follow; it has sent the tokens of exactly these chunks, in
-- order, and counted them.
pub stream_response-ends :
    (requested : String) (models : List String) (cs : List ResponseChunk) (a : Arrival)
    (more : List Arrival)
    → is_chunk a ≡ false
    → (s : Stream) × (stream_response requested models (map chunk_arrives cs ++ (a ∷ more))
        ≡ ended s)
      × (streamed_tokens s.events ≡ map (λ c. c.token) cs)
      × (s.token_count ≡ length cs)
unfolding stream_response
stream_response-ends requested models cs a more h =
    settled
      (stream_loop requested models (map chunk_arrives cs ++ (a ∷ more))
        (no_stream requested models))
      refl (stream_loop-ends requested models cs a more (no_stream requested models) h)
  where
    length-tokens : (xs : List ResponseChunk) → length (map (λ c. c.token) xs) ≡ length xs
    length-tokens [] = refl
    length-tokens (x ∷ xs) = ap suc (length-tokens xs)

    settled :
        (p : Progress Stream)
        → stream_loop requested models
            (map chunk_arrives cs ++ (a ∷ more))
            (no_stream requested models)
          ≡ p
        → Sent (no_stream requested models) (map (λ c. c.token) cs) p
        → (s : Stream) × (stream_loop requested models
              (map chunk_arrives cs ++ (a ∷ more))
              (no_stream requested models)
            ≡ ended s)
          × (streamed_tokens s.events ≡ map (λ c. c.token) cs)
          × (s.token_count ≡ length cs)
    settled (running t) e k = absurd k
    settled (ended t) e (k, n) = (t, e, k, omega (arith, n, length-tokens cs))
