-- ===== src/Countries/Activity.antt =====
-- `CountryActivity` of inference_exchange/coordinator/country_activity.py. The keyed digest under
-- `_hash` is a parameter; a set and a dictionary are lists.
use inference_exchange.Prelude.{
  ℕ, suc, String, Bool, false, not, ◌&&◌, ◌||◌, Option, none, some, List, [], ◌∷◌, map, ◌==◌,
  nat_eq, text_eq, text_lt, if◌then◌else◌, ltb, leb, length, select, first, any, update, elem,
  sort_by,
}
use inference_exchange.Countries.{is_country}

abbrev pub max_completions_per_day : ℕ
max_completions_per_day = 30_000

abbrev pub max_routes_per_day : ℕ
max_routes_per_day = 1024

abbrev pub min_requests : ℕ
min_requests = 5

abbrev pub min_consumers : ℕ
min_consumers = 3

-- The kinds of `_hash`.
pub data Kind : Type 0 where
  request_kind consumer_kind : Kind

-- An entry of `routes` with its key.
pub record Route : Type 0 where
  pub source : String
  pub target : String
  pub count : ℕ
  pub consumers : List String

-- An entry of `_days` with its key.
pub record Day : Type 0 where
  pub day : ℕ
  pub seen : List String
  pub routes : List Route

-- `_days`, with what no entry has as the empty list.
abbrev pub Days : Type 0
Days = List Day

-- The arguments of `record`, with the day of its clock and what `enabled` says then.
pub record Completion : Type 0 where
  pub enabled : Bool
  pub today : ℕ
  pub provider_country : Option String
  pub caller_country : Option String
  pub consumer_id : String
  pub request_id : String

-- `today - 1 <= day <= today`
abbrev pub in_window : ℕ → Day → Bool
in_window today d = leb today (suc d.day) && leb d.day today

unfoldable pub prune_days : ℕ → Days → Days
prune_days today days = select (in_window today) days

-- `expire`
unfoldable pub expire : Bool → ℕ → Days → Days
unfolding prune_days
expire enabled today days = if enabled then prune_days today days else []

abbrev pub in_countries : Option String → Bool
in_countries none = false
in_countries (some c) = is_country c

-- A consumer that is never counted.
abbrev pub is_reserved : String → Bool
is_reserved c = (c == "") || elem c ("anonymous" ∷ "default" ∷ "default-consumer" ∷ [])

abbrev pub empty_day : ℕ → Day
empty_day today = record { day = today; seen = []; routes = [] }

-- `self._days.setdefault(today, {'seen': set(), 'routes': {}})`
unfoldable pub open_day : ℕ → Days → Days
open_day today days = if any (λ d. d.day == today) days then days else empty_day today ∷ days

module _ (digest : ℕ → Kind → String → String) where
  -- The request was counted the day before.
  unfoldable pub counted_before : Completion → Days → Bool
  counted_before c days =
      any (λ d. (suc d.day == c.today) && elem (digest d.day request_kind c.request_id) d.seen) days

  -- The update of a route's counter.
  unfoldable pub bump : String → Route → Route
  bump h r = record r {
    count = suc r.count;
    consumers =
        if ltb (length r.consumers) min_consumers && not (elem h r.consumers)
        then h ∷ r.consumers
        else r.consumers;
  }

  abbrev pub is_route : String → String → Route → Bool
  is_route source target r = (r.source == source) && (r.target == target)

  -- `state['routes'].setdefault(route, …)` and the update of its counter.
  unfoldable pub count_route : String → String → String → List Route → List Route
  unfolding bump
  count_route h source target [] =
      bump h (record { source = source; target = target; count = 0; consumers = [] }) ∷ []
  count_route h source target (r ∷ rs) =
      if is_route source target r then bump h r ∷ rs else r ∷ count_route h source target rs

  -- The limits of a day, and the update of its state.
  unfoldable pub count_request : String → String → Completion → Day → Day
  unfolding count_route
  count_request source target c d =
      if elem (digest c.today request_kind c.request_id) d.seen
        || leb max_completions_per_day (length d.seen)
      then d
      else if not (any (is_route source target) d.routes)
          && leb max_routes_per_day (length d.routes)
      then d
      else record d {
        seen = digest c.today request_kind c.request_id ∷ d.seen;
        routes = count_route (digest c.today consumer_kind c.consumer_id) source target d.routes;
      }

  -- The part of `record` after the checks of its arguments.
  unfoldable pub record_open : String → String → Completion → Days → Days
  unfolding counted_before count_request open_day
  record_open source target c days =
      if counted_before c days
      then open_day c.today days
      else update (λ d. d.day == c.today) (count_request source target c) (open_day c.today days)

  abbrev pub record_between : Option String → Option String → Completion → Days → Days
  record_between none target c days = days
  record_between (some source) none c days = days
  record_between (some source) (some target) c days = record_open source target c days

  -- `record`; its checks make the countries texts.
  unfoldable pub record_completion : Completion → Days → Days
  unfolding prune_days record_open
  record_completion c days =
      if not c.enabled
        || not (in_countries c.provider_country)
        || not (in_countries c.caller_country)
      then prune_days c.today days
      else if is_reserved c.consumer_id || (c.request_id == "")
      then prune_days c.today days
      else record_between c.provider_country c.caller_country c (prune_days c.today days)

-- `count_band`: the bounds of the band, the upper one missing for `1,000+`.
unfoldable pub count_band : ℕ → ℕ × Option ℕ
count_band n =
    if leb n 9
    then (5, some 9)
    else if leb n 24
    then (10, some 24)
    else if leb n 49
    then (25, some 49)
    else if leb n 99
    then (50, some 99)
    else if leb n 249
    then (100, some 249)
    else if leb n 499
    then (250, some 499)
    else if leb n 999
    then (500, some 999)
    else (1000, none)

pub record Released : Type 0 where
  pub provider_country : String
  pub caller_country : String
  pub band : ℕ × Option ℕ

-- The order of the keys `(source, target)`.
abbrev pub route_before : Route → Route → Bool
route_before a b =
    text_lt a.source b.source || ((a.source == b.source) && text_lt a.target b.target)

abbrev pub is_released : Route → Bool
is_released r = leb min_requests r.count && leb min_consumers (length r.consumers)

abbrev pub release_route : Route → Released
release_route r = record {
  provider_country = r.source;
  caller_country = r.target;
  band = count_band r.count;
}

-- `self._days.get(today - 1, {}).get('routes', {})`
unfoldable pub routes_before : ℕ → Days → List Route
routes_before today days = elim (first (λ d. suc d.day == today) days) [
  | none ↦ []
  | some d ↦ d.routes
]

-- `snapshot`: the routes it gives out, and the state it leaves.
unfoldable pub snapshot : Bool → ℕ → Days → List Released × Days
unfolding prune_days routes_before
snapshot enabled today days =
    if enabled
    then (
      map release_route
          (select is_released (sort_by route_before (routes_before today (prune_days today days)))),
      prune_days today days,
    )
    else ([], [])
