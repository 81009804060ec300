-- ===== src/Scheduler/Circuits/Exclusion.antt =====
-- What acquiring the probes of scheduler/circuits.py does to the breakers.
use market_quorum.Prelude.{
  ℕ, ◌≡◌, refl, ◌∙◌, ap, Bool, true, false, ◌&&◌, ◌||◌, List, [], ◌∷◌, Option, none, some, arith,
  any, keep, Option-cases, inl, inr,
}
use market_quorum.Prelude.Text.{Text, text_eq, text_eq_iff, text_lt}
use market_quorum.Prelude.Sorted.{order_by, any-order_by}
use market_quorum.Scheduler.Circuits.{CircuitBreaker, Circuits, find_breaker, save_breaker}
use market_quorum.Scheduler.Circuits.Rows.{
  find_breaker-name, find_breaker-save, find_breaker-save_ne,
}
use market_quorum.Scheduler.Circuits.Probes.{
  is_relevant, relevant_names, keep_name, names_of, is_expired, half_opened, half_open_found,
  half_open_all, acquire_names, acquire_expired_probes,
}

-- The column `name` is unique.
abbrev pub IsDistinct : List CircuitBreaker → Type 0
IsDistinct [] = Unit
IsDistinct (b ∷ bs) = (find_breaker b.name bs ≡ none) × IsDistinct bs

abbrev pub holds_of : (CircuitBreaker → Bool) → Option CircuitBreaker → Bool
holds_of p none = false
holds_of p (some b) = p b

any-names_none :
    (p : CircuitBreaker → Bool) (n : Text) (bs : List CircuitBreaker)
    → find_breaker n bs ≡ none
    → any (text_eq n) (names_of (keep p bs)) ≡ false
unfolding find_breaker
any-names_none p n [] e = refl
any-names_none p n (b ∷ bs) e =
    ground (arith, text_eq_iff b.name n, text_eq_iff n b.name, any-names_none p n bs)

-- A circuit's name is selected exactly when its row passes the test.
pub any-names_of :
    (p : CircuitBreaker → Bool) (n : Text) (bs : List CircuitBreaker)
    → IsDistinct bs
    → any (text_eq n) (names_of (keep p bs)) ≡ holds_of p (find_breaker n bs)
unfolding find_breaker
any-names_of p n [] d = refl
any-names_of p n (b ∷ bs) d = ground (
  arith,
  text_eq_iff b.name n,
  text_eq_iff n b.name,
  any-names_none p n bs,
  any-names_of p n bs d.1,
)

keep_name_raises : (x : Text) (r : Option Bool) → keep_name x r none ≡ none
keep_name_raises x none = refl
keep_name_raises x (some _) = refl

pub any-relevant_names :
    (vendors : Option (List Text)) (n : Text) (relevant : Bool) (xs ys : List Text)
    → is_relevant n vendors ≡ some relevant
    → relevant_names vendors xs ≡ some ys
    → any (text_eq n) ys ≡ (any (text_eq n) xs && relevant)
unfolding relevant_names
any-relevant_names vendors n relevant [] ys r e = ground arith
any-relevant_names vendors n relevant (x ∷ xs) ys r e =
    elim (Option-cases (relevant_names vendors xs)) [
      | inl raised ↦ ground (arith, keep_name_raises x (is_relevant x vendors))
      | inr (zs, e') ↦
          ground (arith, text_eq_iff n x, any-relevant_names vendors n relevant xs zs r e')
    ]

-- The row of a circuit after a pass that probes it or not.
abbrev pub probed : Bool → Option CircuitBreaker → Option CircuitBreaker
probed t none = none
probed true (some b) = some (half_opened b)
probed false (some b) = some b

probed_twice : (s t : Bool) (r : Option CircuitBreaker) → probed t (probed s r) ≡ probed (s || t) r
probed_twice true true none = refl
probed_twice _ _ none = refl
probed_twice true true (some b) = refl
probed_twice _ _ (some b) = refl

find_breaker-half_open_found :
    (n name : Text) (bs : List CircuitBreaker)
    → find_breaker n (half_open_found bs (find_breaker name bs))
      ≡ probed (text_eq n name) (find_breaker n bs)
find_breaker-half_open_found n name bs = elim (Option-cases (find_breaker name bs)) [
  | inl missing ↦ ground (arith, text_eq_iff n name)
  | inr (b, found) ↦ ground (
    arith,
    text_eq_iff n name,
    find_breaker-name name b bs found,
    find_breaker-save name (half_opened b) b bs,
    find_breaker-save_ne n (half_opened b) bs,
  )
]

pub find_breaker-half_open_all :
    (n : Text) (names : List Text) (bs : List CircuitBreaker)
    → find_breaker n (half_open_all names bs) ≡ probed (any (text_eq n) names) (find_breaker n bs)
unfolding half_open_all
find_breaker-half_open_all n [] bs = ground arith
find_breaker-half_open_all n (name ∷ names) bs =
    find_breaker-half_open_all n names _
    ∙ ap (probed (any (text_eq n) names)) (find_breaker-half_open_found n name bs)
    ∙ probed_twice (text_eq n name) (any (text_eq n) names) (find_breaker n bs)

find_breaker-save_none :
    (n : Text) (b : CircuitBreaker) (bs : List CircuitBreaker)
    → find_breaker n bs ≡ none
    → find_breaker n (save_breaker b bs) ≡ none
unfolding find_breaker save_breaker
find_breaker-save_none n b [] e = refl
find_breaker-save_none n b (c ∷ bs) e = ground (
  arith,
  text_eq_iff c.name b.name,
  text_eq_iff c.name n,
  text_eq_iff b.name n,
  find_breaker-save_none n b bs,
)

pub save_breaker-IsDistinct :
    (b : CircuitBreaker) (bs : List CircuitBreaker) → IsDistinct bs → IsDistinct (save_breaker b bs)
unfolding save_breaker
save_breaker-IsDistinct b [] d = tt
save_breaker-IsDistinct b (c ∷ bs) d = ground (
  arith,
  text_eq_iff c.name b.name,
  find_breaker-save_none c.name b bs d.0,
  save_breaker-IsDistinct b bs d.1,
)

half_open_found-IsDistinct :
    (bs : List CircuitBreaker) (r : Option CircuitBreaker)
    → IsDistinct bs
    → IsDistinct (half_open_found bs r)
half_open_found-IsDistinct bs none d = d
half_open_found-IsDistinct bs (some b) d = save_breaker-IsDistinct (half_opened b) bs d

half_open_all-IsDistinct :
    (names : List Text) (bs : List CircuitBreaker)
    → IsDistinct bs
    → IsDistinct (half_open_all names bs)
unfolding half_open_all
half_open_all-IsDistinct [] bs d = d
half_open_all-IsDistinct (name ∷ names) bs d =
    half_open_all-IsDistinct names _ (half_open_found-IsDistinct bs (find_breaker name bs) d)

acquire_names-eq_some :
    (c : Circuits) (r : Option (List Text)) {names : List Text} {c' : Circuits}
    → acquire_names c r ≡ some (names, c')
    → (r ≡ some names) × (c'.breakers ≡ half_open_all names c.breakers)
acquire_names-eq_some c none e = cc
acquire_names-eq_some c (some names) e = ground arith

module _ (now : ℕ) (vendors : Option (List Text)) (c : Circuits) {names : List Text} {c' : Circuits}
    (d : IsDistinct c.breakers) (e : acquire_expired_probes now vendors c ≡ some (names, c')) where
  pub acquired :
      (relevant_names vendors (order_by text_lt (names_of (keep (is_expired now) c.breakers)))
        ≡ some names)
      × (c'.breakers ≡ half_open_all names c.breakers)
  unfolding acquire_expired_probes
  acquired = acquire_names-eq_some c _ e

  pub acquire-IsDistinct : IsDistinct c'.breakers
  acquire-IsDistinct = rw acquired.1 (half_open_all-IsDistinct names c.breakers d)

  -- Where circuits have distinct names, a call of `acquire_expired_probes` that does not fail
  -- returns exactly the circuits that are relevant to the vendors and whose back-off has run out,
  -- makes exactly their rows half-open, and leaves every other row as it is.
  pub acquire_expired_probes_lem :
      (n : Text) (relevant : Bool)
      → is_relevant n vendors ≡ some relevant
      → (any (text_eq n) names
          ≡ (holds_of (is_expired now) (find_breaker n c.breakers) && relevant))
        × (find_breaker n c'.breakers
            ≡ probed
                (holds_of (is_expired now) (find_breaker n c.breakers) && relevant)
                (find_breaker n c.breakers))
  acquire_expired_probes_lem n relevant r =
      let returned : any (text_eq n) names
          ≡ (holds_of (is_expired now) (find_breaker n c.breakers) && relevant) =
        any-relevant_names vendors n relevant _ names r acquired.0
        ∙ ap (λ t. t && relevant)
            (any-order_by text_lt (text_eq n) _ ∙ any-names_of (is_expired now) n c.breakers d) in
      (returned, rw (acquired.1, ← returned) (find_breaker-half_open_all n names c.breakers))
