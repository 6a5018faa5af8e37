-- ===== src/Tests/Delivery.antt =====
-- Two tokens and the end of a response, and the model it is attributed to.
use inference_exchange.Prelude.{◌≡◌, refl, pos, String, none, some, List, [], ◌∷◌, ◌++◌, map}
use inference_exchange.Attribution.{
  Attributable, served_model_for_request, served_model_for_request-Attributable,
}
use inference_exchange.Inference.Responses.{
  ResponseChunk, Arrival, chunk_arrives, done_arrives, times_out, ended, Stream, stream_response,
  collect_response,
}
use inference_exchange.Inference.Responses.Delivery.{
  Agrees, streamed_tokens, stream_response-Agrees, stream_response-ends,
}

abbrev chunk : String → ResponseChunk
chunk t = record { token = t; encrypted_token = none; finish_reason = none }

abbrev chunks : List ResponseChunk
chunks = chunk "Hel" ∷ chunk "lo" ∷ []

abbrev finished : Arrival
finished = done_arrives (record {
  tokens_generated = pos 2;
  input_tokens = pos 5;
  cached_tokens = pos 0;
  served_model = some "llama";
})

abbrev models : List String
models = "default" ∷ "llama" ∷ []

stream_response-Agrees_example :
    Agrees
      (stream_response "llama" models (map chunk_arrives chunks ++ (finished ∷ [])))
      (collect_response (map chunk_arrives chunks ++ (finished ∷ [])))
stream_response-Agrees_example =
    stream_response-Agrees "llama" models (map chunk_arrives chunks ++ (finished ∷ []))

stream_response-ends_example :
    (s : Stream) × (stream_response "llama" models
        (map chunk_arrives chunks ++ (finished ∷ times_out ∷ []))
      ≡ ended s)
    × (streamed_tokens s.events ≡ "Hel" ∷ "lo" ∷ [])
    × (s.token_count ≡ 2)
stream_response-ends_example =
    stream_response-ends "llama" models chunks finished (times_out ∷ []) refl

served_model_for_request-Attributable_example :
    Attributable "default" models
      (some "llama")
      (served_model_for_request "default" models (some "llama"))
served_model_for_request-Attributable_example =
    served_model_for_request-Attributable "default" models (some "llama")
