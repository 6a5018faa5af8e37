-- ===== src/Audit/Chain.antt =====
-- Proofs about the hash chain of inference_exchange/coordinator/audit_log.py.
use inference_exchange.Prelude.{
  Host, ℕ, suc, ◌≡◌, ◌≢◌, ◌⊎◌, inl, inr, refl, ap, ◌∙◌, String, String_discrete, List, [], ◌∷◌,
  ◌++◌, In, length, arith,
}
use inference_exchange.Audit.{Entry, Payload, AuditLog, open_log, log}

In-left : {A : Type 0} (xs ys : List A) (x : A) → In x xs → In x (xs ++ ys)
In-left [] ys x m = absurd m
In-left (y ∷ xs) ys x (inl e) = inl e
In-left (y ∷ xs) ys x (inr m) = inr (In-left xs ys x m)

In-last : {A : Type 0} (xs : List A) (x : A) → In x (xs ++ (x ∷ []))
In-last [] x = inl refl
In-last (y ∷ xs) x = inr (In-last xs x)

module _ (host : Host) (dumps : Entry → String) where
  -- The log after the events, the latest of which is the first of the list.
  abbrev pub written : List String → List (Payload × ℕ) → AuditLog
  written old [] = open_log old
  written old ((p, now) ∷ es) = log host dumps p now (written old es)

  -- Two different lines of the two files that have the same hash.
  abbrev pub Collides : AuditLog → AuditLog → Type 0
  Collides a b =
      (x : String) × (y : String) × In x a.file
      × In y b.file
      × (x ≢ y)
      × (host.sha256 x ≡ host.sha256 y)

  Collides-log :
      (p q : Payload) (m n : ℕ) (a b : AuditLog)
      → Collides a b
      → Collides (log host dumps p m a) (log host dumps q n b)
  unfolding log
  Collides-log p q m n a b (x, y, hx, hy, d, k) =
      (x, y, In-left a.file _ x hx, In-left b.file _ y hy, d, k)

  module _ (reads : (e f : Entry) → dumps e ≡ dumps f → e.prev_hash ≡ f.prev_hash) where
    -- Where the previous hash of an entry can be read from its line, two audit logs that are
    -- opened on the same lines, get equally many events and end with the same hash have the same
    -- file, or their files hold two different lines with the same SHA-256.
    pub written-tamper_evident :
        (old : List String) (es fs : List (Payload × ℕ))
        → length es ≡ length fs
        → (written old es).last_hash ≡ (written old fs).last_hash
        → ((written old es).file ≡ (written old fs).file)
          ⊎ Collides (written old es) (written old fs)
    unfolding log open_log
    written-tamper_evident old [] [] h k = inl refl
    written-tamper_evident old [] (f ∷ fs) h k = absurd (omega (arith, h))
    written-tamper_evident old (e ∷ es) [] h k = absurd (omega (arith, h))
    written-tamper_evident old ((p, m) ∷ es) ((q, n) ∷ fs) h k = elim (String_discrete x y) [
      | no d ↦ inr (x, y, In-last a.file x, In-last b.file y, d, k)
      | yes same ↦ elim (written-tamper_evident old es fs (omega (arith, h)) (reads _ _ same)) [
        | inl files ↦ inl (ap (λ l. l ++ (x ∷ [])) files ∙ ap (λ l. b.file ++ (l ∷ [])) same)
        | inr c ↦ inr (Collides-log p q m n a b c)
      ]
    ]
      where
        a : AuditLog
        a = written old es

        b : AuditLog
        b = written old fs

        x : String
        x = dumps (record { seq = suc a.seq; ts = m; prev_hash = a.last_hash; payload = p })

        y : String
        y = dumps (record { seq = suc b.seq; ts = n; prev_hash = b.last_hash; payload = q })
