-- ===== src/Scheduler/Circuits/Probes.antt =====
-- The queries of scheduler/circuits.py on which admission rests: the open circuits, and the
-- circuits whose back-off has run out and which one run may probe.
use market_quorum.Prelude.{
  ℕ, Bool, true, false, ◌&&◌, List, [], ◌∷◌, Option, none, some, leb, ltb, if◌then◌else◌, any, keep,
  map,
}
use market_quorum.Prelude.Text.{Text, text_eq, text_lt, starts_with, after, has_char}
use market_quorum.Prelude.Sorted.{order_by}
use market_quorum.Scheduler.Circuits.{
  BreakerStatus, closed, opened, half_open, CircuitBreaker, Circuits, gateway_name, vendor_prefix,
  colon, find_breaker, save_breaker,
}

-- `_, _, vendor = name.split(":", 2)`, which raises `ValueError` on a name with fewer colons.
unfoldable pub split_vendor : Text → Option Text
unfolding has_char after
split_vendor name =
    if has_char colon name && has_char colon (after colon name)
    then some (after colon (after colon name))
    else none

abbrev pub vendor_in : Option Text → List Text → Option Bool
vendor_in none vendors = none
vendor_in (some vendor) vendors = some (any (text_eq vendor) vendors)

-- `_is_relevant`; `none` where it raises.
unfoldable pub is_relevant : Text → Option (List Text) → Option Bool
unfolding split_vendor starts_with
is_relevant name none = some true
is_relevant name (some vendors) =
    if text_eq name gateway_name
    then some true
    else (if starts_with vendor_prefix name
        then vendor_in (split_vendor name) vendors
        else some false)

abbrev pub keep_name : Text → Option Bool → Option (List Text) → Option (List Text)
keep_name name none rest = none
keep_name name (some _) none = none
keep_name name (some relevant) (some names) = some (if relevant then name ∷ names else names)

-- `tuple(name for name in names if _is_relevant(name, vendors))`
unfoldable pub relevant_names : Option (List Text) → List Text → Option (List Text)
unfolding is_relevant
relevant_names vendors [] = some []
relevant_names vendors (name ∷ names) =
    keep_name name (is_relevant name vendors) (relevant_names vendors names)

abbrev pub is_later : Option ℕ → ℕ → Bool
is_later none now = true
is_later (some until) now = ltb now until

abbrev pub blocks_with : BreakerStatus → Option ℕ → ℕ → Bool
blocks_with half_open until now = true
blocks_with opened until now = is_later until now
blocks_with closed until now = false

-- The `WHERE` of `blockers`.
abbrev pub is_blocking : ℕ → CircuitBreaker → Bool
is_blocking now b = blocks_with b.status b.opened_until now

abbrev pub names_of : List CircuitBreaker → List Text
names_of = map (λ b. b.name)

unfoldable pub blockers : ℕ → Option (List Text) → Circuits → Option (List Text)
unfolding relevant_names order_by
blockers now vendors c =
    relevant_names vendors (order_by text_lt (names_of (keep (is_blocking now) c.breakers)))

abbrev pub has_expired : Option ℕ → ℕ → Bool
has_expired none now = false
has_expired (some until) now = leb until now

abbrev pub expires_with : BreakerStatus → Option ℕ → ℕ → Bool
expires_with opened until now = has_expired until now
expires_with closed until now = false
expires_with half_open until now = false

-- An open circuit whose back-off has run out.
abbrev pub is_expired : ℕ → CircuitBreaker → Bool
is_expired now b = expires_with b.status b.opened_until now

abbrev pub half_opened : CircuitBreaker → CircuitBreaker
half_opened b = record b { status = half_open; opened_until = none }

abbrev pub probe_found : ℕ → Circuits → Option CircuitBreaker → Bool × Circuits
probe_found now c none = (false, c)
probe_found now c (some b) =
    if is_expired now b
    then (true, record c { breakers = save_breaker (half_opened b) c.breakers })
    else (false, c)

unfoldable pub acquire_probe : Text → ℕ → Circuits → Bool × Circuits
unfolding find_breaker save_breaker
acquire_probe name now c = probe_found now c (find_breaker name c.breakers)

abbrev pub half_open_found : List CircuitBreaker → Option CircuitBreaker → List CircuitBreaker
half_open_found bs none = bs
half_open_found bs (some b) = save_breaker (half_opened b) bs

-- The loop of `acquire_expired_probes`.
unfoldable pub half_open_all : List Text → List CircuitBreaker → List CircuitBreaker
unfolding find_breaker save_breaker
half_open_all [] bs = bs
half_open_all (name ∷ names) bs = half_open_all names (half_open_found bs (find_breaker name bs))

abbrev pub acquire_names : Circuits → Option (List Text) → Option (List Text × Circuits)
acquire_names c none = none
acquire_names c (some names) = some (names, record c { breakers = half_open_all names c.breakers })

unfoldable pub acquire_expired_probes :
    ℕ → Option (List Text) → Circuits → Option (List Text × Circuits)
unfolding relevant_names half_open_all order_by
acquire_expired_probes now vendors c =
    acquire_names c
      (relevant_names vendors (order_by text_lt (names_of (keep (is_expired now) c.breakers))))
