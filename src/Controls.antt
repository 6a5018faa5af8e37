-- ===== src/Controls.antt =====
-- The operator's controls of inference_exchange/coordinator/operator_controls.py: how many requests
-- of one account run at once.
use inference_exchange.Prelude.{
  ℕ, suc, ◌-◌, ◌≤◌, ℤ, pos, ◌≡◌, refl, sym, subst, ◌∙◌, String, Bool, true, false, ◌&&◌, List, [],
  ◌∷◌, ◌==◌, text_eq, if◌then◌else◌, leb, ltb_ℤ, leb_ℤ, Option, none, some, arith, String_discrete,
}

-- `_active`: how many requests run for an account.
abbrev pub Active : Type 0
Active = List (String × ℕ)

pub record OperatorControls : Type 0 where
  pub inference_paused : Bool
  pub signup_disabled : Bool
  pub max_concurrent_per_account : ℤ
  pub active : Active

-- `self._active.get(id, 0)`
unfoldable pub lookup_active : String → Active → ℕ
lookup_active id [] = 0
lookup_active id ((a, n) ∷ d) = if a == id then n else lookup_active id d

unfoldable set_active : String → ℕ → Active → Active
set_active id n [] = (id, n) ∷ []
set_active id n ((a, m) ∷ d) = if a == id then (a, n) ∷ d else (a, m) ∷ set_active id n d

unfoldable drop_active : String → Active → Active
drop_active id [] = []
drop_active id ((a, m) ∷ d) = if a == id then drop_active id d else (a, m) ∷ drop_active id d

abbrev pub active_for : String → OperatorControls → ℕ
active_for id c = lookup_active id c.active

-- The account is at its limit; 0 is no limit.
abbrev pub at_limit : String → OperatorControls → Bool
at_limit id c =
    ltb_ℤ (pos 0) c.max_concurrent_per_account
    && leb_ℤ c.max_concurrent_per_account (pos (lookup_active id c.active))

unfoldable pub try_acquire : String → OperatorControls → Bool × OperatorControls
unfolding lookup_active set_active
try_acquire id c =
    if at_limit id c
    then (false, c)
    else (true, record c { active = set_active id (suc (lookup_active id c.active)) c.active })

unfoldable pub release : String → OperatorControls → OperatorControls
unfolding lookup_active set_active drop_active
release id c =
    if leb (lookup_active id c.active) 1
    then record c { active = drop_active id c.active }
    else record c { active = set_active id (lookup_active id c.active - 1) c.active }

abbrev set_if {ℓ} : {A : Type ℓ} → Option A → A → A
set_if none old = old
set_if (some new) old = new

-- `update`: an argument of None changes nothing.
unfoldable pub update_controls :
    Option Bool → Option Bool → Option ℤ → OperatorControls → OperatorControls
update_controls paused signup limit c = record c {
  inference_paused = set_if paused c.inference_paused;
  signup_disabled = set_if signup c.signup_disabled;
  max_concurrent_per_account = set_if limit c.max_concurrent_per_account;
}

lookup_active-set_active :
    (id j : String) (n : ℕ) (d : Active)
    → lookup_active j (set_active id n d) ≡ (if id == j then n else lookup_active j d)
unfolding lookup_active set_active
lookup_active-set_active id j n [] = refl
lookup_active-set_active id j n ((a, m) ∷ d) = ground (arith, lookup_active-set_active id j n d)

lookup_active-drop_active :
    (id j : String) (d : Active)
    → lookup_active j (drop_active id d) ≡ (if id == j then 0 else lookup_active j d)
unfolding lookup_active drop_active
lookup_active-drop_active id j [] = ground arith
lookup_active-drop_active id j ((a, m) ∷ d) = ground (arith, lookup_active-drop_active id j d)

-- A request for a slot adds one to the account that asks where it is granted, and nothing to any
-- other account or where it is refused.
pub try_acquire_lem :
    (id j : String) (c : OperatorControls)
    → let (granted, c') = try_acquire id c in
      active_for j c' ≡ (if granted && (id == j) then suc (active_for j c) else active_for j c)
unfolding try_acquire
try_acquire_lem id j c =
    ground (arith, lookup_active-set_active id j (suc (lookup_active id c.active)) c.active)

-- The end of a request takes one slot from its own account, if it has one, and none from any
-- other.
pub release_lem :
    (id j : String) (c : OperatorControls)
    → active_for j (release id c) ≡ (if id == j then active_for j c - 1 else active_for j c)
unfolding release
release_lem id j c = ground (
  arith,
  lookup_active-set_active id j (lookup_active id c.active - 1) c.active,
  lookup_active-drop_active id j c.active,
)

-- What happens to the slots: a request asks for one, or a request ends.
pub data Event : Type 0 where
  asks : String → Event
  ends : String → Event

abbrev pub handle : Event → OperatorControls → OperatorControls
handle (asks id) c = (try_acquire id c).1
handle (ends id) c = release id c

abbrev pub run : List Event → OperatorControls → OperatorControls
run [] c = c
run (e ∷ es) c = run es (handle e c)

try_acquire-limit :
    (id : String) (c : OperatorControls)
    → (try_acquire id c).1.max_concurrent_per_account ≡ c.max_concurrent_per_account
unfolding try_acquire
try_acquire-limit id c = ground arith

release-limit :
    (id : String) (c : OperatorControls)
    → (release id c).max_concurrent_per_account ≡ c.max_concurrent_per_account
unfolding release
release-limit id c = ground arith

try_acquire-bounded :
    (n : ℕ) (id j : String) (c : OperatorControls)
    → c.max_concurrent_per_account ≡ pos (suc n)
    → active_for id c ≤ suc n
    → active_for id (try_acquire j c).1 ≤ suc n
unfolding try_acquire
try_acquire-bounded n id j c hm h = elim (String_discrete j id) [
  | yes e ↦
      subst (λ k. active_for k (try_acquire j c).1 ≤ suc n) e
        (ground (
          arith,
          hm,
          subst (λ k. active_for k c ≤ suc n) (sym e) h,
          lookup_active-set_active j j (suc (lookup_active j c.active)) c.active,
        ))
  | no ne ↦
      ground (arith, h, ne, lookup_active-set_active j id (suc (lookup_active j c.active)) c.active)
]

-- Where an account may run n + 1 requests at once and runs no more, it runs no more after any
-- sequence of requests that start and end, of any accounts.
pub run-bounded :
    (n : ℕ) (id : String) (es : List Event) (c : OperatorControls)
    → c.max_concurrent_per_account ≡ pos (suc n)
    → active_for id c ≤ suc n
    → active_for id (run es c) ≤ suc n
run-bounded n id [] c hm h = h
run-bounded n id (asks j ∷ es) c hm h =
    run-bounded n id es (try_acquire j c).1 (try_acquire-limit j c ∙ hm)
      (try_acquire-bounded n id j c hm h)
run-bounded n id (ends j ∷ es) c hm h =
    run-bounded n id es (release j c) (release-limit j c ∙ hm)
      (ground (arith, h, release_lem j id c))
