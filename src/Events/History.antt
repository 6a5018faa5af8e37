-- ===== src/Events/History.antt =====
-- Proofs that the bounded history of inference_exchange/coordinator/event_bus.py stands for all
-- that was published.
use inference_exchange.Prelude.{
  ℕ, zero, suc, ◌+◌, ◌-◌, ◌≤◌, ◌≡◌, refl, sym, ap, ◌∙◌, List, [], ◌∷◌, ◌++◌, length, length-append,
  length-drop, last_n, drop, arith,
}
use inference_exchange.Events.{
  Event, EventBus, new_bus, subscribe, unsubscribe, stamp, publish, recent_events, max_history,
}

drop-nil : {A : Type 0} (n : ℕ) → drop {A = A} n [] ≡ []
drop-nil zero = refl
drop-nil (suc n) = refl

drop-drop : {A : Type 0} (m n k : ℕ) (xs : List A) → k ≡ n + m → drop m (drop n xs) ≡ drop k xs
drop-drop m zero k xs e = ap (λ i. drop i xs) (omega (arith, e))
drop-drop m (suc n) k [] e = drop-nil m ∙ sym (drop-nil k)
drop-drop m (suc n) zero (x ∷ xs) e = absurd (omega (arith, e))
drop-drop m (suc n) (suc k) (x ∷ xs) e = drop-drop m n k xs (omega (arith, e))

drop-append :
    {A : Type 0} (n : ℕ) (xs ys : List A) → n ≤ length xs → drop n (xs ++ ys) ≡ drop n xs ++ ys
drop-append zero xs ys h = refl
drop-append (suc n) [] ys h = absurd (omega (arith, h))
drop-append (suc n) (x ∷ xs) ys h = drop-append n xs ys (omega (arith, h))

-- What a bounded history forgets does not show in a shorter one.
last_n-last_n :
    {A : Type 0} (m n : ℕ) (xs ys : List A)
    → m ≤ n + length ys
    → last_n m (last_n n xs ++ ys) ≡ last_n m (xs ++ ys)
last_n-last_n m n xs ys h =
    let k = length xs - n in
    let joined : drop k (xs ++ ys) ≡ drop k xs ++ ys = drop-append k xs ys (omega arith) in
    let rest = length (drop k xs ++ ys) - m in
    ap (drop rest) (sym joined)
    ∙ drop-drop rest k (length (xs ++ ys) - m) (xs ++ ys)
        (omega (arith, h, length-append (drop k xs) ys, length-drop k xs, length-append xs ys))

last_n-shorter : {A : Type 0} (m n : ℕ) (xs : List A) → m ≤ n → last_n m (last_n n xs) ≡ last_n m xs
last_n-shorter m n xs h =
    drop-drop (length (last_n n xs) - m) (length xs - n) (length xs - m) xs
      (omega (arith, h, length-drop (length xs - n) xs))

module _ (Value : Type 0) where
  pub data Step : Type 0 where
    published : (now : Value) (event : Event Value) → Step
    subscribed unsubscribed : (queue : ℕ) → Step

  abbrev pub step : Step → EventBus Value → EventBus Value
  step (published now event) bus = publish Value now event bus
  step (subscribed queue) bus = subscribe Value queue bus
  step (unsubscribed queue) bus = unsubscribe Value queue bus

  -- The bus after the steps, the latest of which is the first of the list.
  abbrev pub run : List Step → EventBus Value
  run [] = new_bus Value
  run (s ∷ ss) = step s (run ss)

  -- All events of the steps, stamped, the earliest first.
  abbrev pub published_events : List Step → List (Event Value)
  published_events [] = []
  published_events (published now event ∷ ss) = published_events ss ++ (stamp Value now event ∷ [])
  published_events (subscribed queue ∷ ss) = published_events ss
  published_events (unsubscribed queue ∷ ss) = published_events ss

  history-run : (ss : List Step) → (run ss).history ≡ last_n max_history (published_events ss)
  unfolding publish subscribe unsubscribe
  history-run [] = refl
  history-run (published now event ∷ ss) = rw (history-run ss) (
      last_n-last_n max_history max_history (published_events ss) (stamp Value now event ∷ [])
        (omega arith))
  history-run (subscribed queue ∷ ss) = history-run ss
  history-run (unsubscribed queue ∷ ss) = history-run ss

  -- After any sequence of subscriptions, unsubscriptions and published events, the n most recent
  -- events that the bus returns, for n from 1 to 50, are the last n of all events that were
  -- published, each with its timestamp, in their order.
  pub recent_events-run :
      (n : ℕ) (ss : List Step)
      → 1 ≤ n
      → n ≤ max_history
      → recent_events Value n (run ss) ≡ last_n n (published_events ss)
  unfolding recent_events
  recent_events-run zero ss low high = absurd (omega (arith, low))
  recent_events-run (suc n) ss low high =
      rw (history-run ss) (last_n-shorter (suc n) max_history (published_events ss) high)
