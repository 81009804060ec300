-- ===== src/Scheduler/Circuits/Held.antt =====
-- What a later pass of scheduler/circuits.py sees of a circuit that a pass has made half-open.
use market_quorum.Prelude.{
  ℕ, ◌≡◌, refl, ◌∙◌, ap, Bool, true, false, ◌&&◌, List, [], ◌∷◌, Option, Option-cases, inl, inr,
  arith, Bool-cases, sym, ◌≢◌, none, some, any, keep,
}
use market_quorum.Prelude.Text.{Text, text_eq, text_lt}
use market_quorum.Prelude.Sorted.{order_by, any-order_by}
use market_quorum.Scheduler.Circuits.{CircuitBreaker, Circuits, find_breaker}
use market_quorum.Scheduler.Circuits.Rows.{find_breaker-name, find_breaker-save_ne}
use market_quorum.Scheduler.Circuits.Probes.{
  is_relevant, names_of, is_blocking, is_expired, blockers, half_opened, acquire_expired_probes,
  acquire_probe, keep_name, relevant_names,
}
use market_quorum.Scheduler.Circuits.Exclusion.{
  IsDistinct, holds_of, probed, any-names_of, any-relevant_names, acquired, acquire-IsDistinct,
  find_breaker-half_open_all, save_breaker-IsDistinct, acquire_expired_probes_lem,
}

holds_of-probed :
    (now : ℕ) (r : Option CircuitBreaker) (t : Bool)
    → (holds_of (is_expired now) r && t) ≡ true
    → (b : CircuitBreaker) × (probed (holds_of (is_expired now) r && t) r ≡ some (half_opened b))
holds_of-probed now none t h = cc
holds_of-probed now (some b) t h = (b, rw h)

-- Calls that take probes, one after another, at any times and for any vendors.
pub data Passes : Circuits → Circuits → Type 0 where
  no_more : (c : Circuits) → Passes c c
  pass :
      (now : ℕ) (vendors : Option (List Text)) (names : List Text) (c c' c'' : Circuits)
      → acquire_expired_probes now vendors c ≡ some (names, c')
      → Passes c' c''
      → Passes c c''
  probe :
      (name : Text) (now : ℕ) (c c'' : Circuits)
      → Passes (acquire_probe name now c).1 c''
      → Passes c c''

-- The circuit's row is half-open, and the rows have distinct names.
record IsHalfOpen (n : Text) (c : Circuits) : Type 0 where
  b : CircuitBreaker
  row : find_breaker n c.breakers ≡ some (half_opened b)
  distinct : IsDistinct c.breakers

any-keep_name :
    (n x : Text) (r : Option Bool) (rest : Option (List Text)) {ys : List Text}
    → keep_name x r rest ≡ some ys
    → text_eq n x ≡ false
    → (zs : List Text) × (rest ≡ some zs) × (any (text_eq n) ys ≡ any (text_eq n) zs)
any-keep_name n x none rest h e = cc
any-keep_name n x (some relevant) none h e = cc
any-keep_name n x (some true) (some zs) {ys} h e = (zs, refl, ground arith)
any-keep_name n x (some false) (some zs) {ys} h e = (zs, refl, ground arith)

-- Only names that are given are kept.
relevant_names-none :
    (vendors : Option (List Text)) (n : Text) (xs ys : List Text)
    → relevant_names vendors xs ≡ some ys
    → any (text_eq n) xs ≡ false
    → any (text_eq n) ys ≡ false
unfolding relevant_names
relevant_names-none vendors n [] ys h e = ground arith
relevant_names-none vendors n (x ∷ xs) ys h e =
    let (zs, k, same) =
      any-keep_name n x (is_relevant x vendors) (relevant_names vendors xs) h (ground arith) in
    same ∙ relevant_names-none vendors n xs zs k (ground arith)

module _ (n : Text) (now : ℕ) (vendors : Option (List Text)) (names : List Text) (c c' : Circuits)
    (held : IsHalfOpen n c) (e : acquire_expired_probes now vendors c ≡ some (names, c')) where
  not_taken : any (text_eq n) names ≡ false
  not_taken = relevant_names-none vendors n _ names (acquired now vendors c held.distinct e).0 (
      any-order_by text_lt (text_eq n) _
      ∙ any-names_of (is_expired now) n c.breakers held.distinct
      ∙ ap (holds_of (is_expired now)) held.row)

  pass-IsHalfOpen : IsHalfOpen n c'
  pass-IsHalfOpen = record {
    b = held.b;
    row =
        ap (find_breaker n) (acquired now vendors c held.distinct e).1
        ∙ find_breaker-half_open_all n names c.breakers
        ∙ ap (λ t. probed t (find_breaker n c.breakers)) not_taken
        ∙ ap (probed false) held.row;
    distinct = acquire-IsDistinct now vendors c held.distinct e;
  }

module _ (n name : Text) (now : ℕ) (c : Circuits) (held : IsHalfOpen n c) where
  expired-differs :
      (b : CircuitBreaker)
      → find_breaker name c.breakers ≡ some b
      → is_expired now b ≡ true
      → n ≢ b.name
  expired-differs b found expired q =
      let same : n ≡ name = q ∙ find_breaker-name name b c.breakers found in
      let row = ap (λ m. find_breaker m c.breakers) (sym same) ∙ held.row in
      let not_expired : is_expired now b ≡ false =
        ap (holds_of (is_expired now)) (sym found ∙ row) in
      cc

  probe-IsHalfOpen : IsHalfOpen n (acquire_probe name now c).1
  unfolding acquire_probe
  probe-IsHalfOpen = elim (Option-cases (find_breaker name c.breakers)) [
    | inl missing ↦ rw missing held
    | inr (b, found) ↦ elim (Bool-cases (is_expired now b)) [
      | inr waits ↦ rw (found, waits) held
      | inl expired ↦
          rw (found, expired)
            record {
              b = held.b;
              row =
                  find_breaker-save_ne n (half_opened b) c.breakers
                    (expired-differs b found expired)
                  ∙ held.row;
              distinct = save_breaker-IsDistinct (half_opened b) c.breakers held.distinct;
            }
    ]
  ]

  not_probed : (acquire_probe n now c).0 ≡ false
  unfolding acquire_probe
  not_probed = rw held.row refl

Passes-IsHalfOpen : (n : Text) (c c'' : Circuits) → Passes c c'' → IsHalfOpen n c → IsHalfOpen n c''
Passes-IsHalfOpen n _ _ (no_more c) held = held
Passes-IsHalfOpen n _ _ (pass now vendors names c c' c'' e rest) held =
    Passes-IsHalfOpen n c' c'' rest (pass-IsHalfOpen n now vendors names c c' held e)
Passes-IsHalfOpen n _ _ (probe name now c c'' rest) held =
    Passes-IsHalfOpen n (acquire_probe name now c).1 c'' rest (probe-IsHalfOpen n name now c held)

module _ (now : ℕ) (vendors : Option (List Text)) (c : Circuits) {names : List Text} {c' : Circuits}
    (d : IsDistinct c.breakers) (e : acquire_expired_probes now vendors c ≡ some (names, c'))
    (n : Text) (r : is_relevant n vendors ≡ some true) (taken : any (text_eq n) names ≡ true) where
  taken-IsHalfOpen : IsHalfOpen n c'
  taken-IsHalfOpen =
      let (returned, after) = acquire_expired_probes_lem now vendors c d e n true r in
      let (b, half) =
        holds_of-probed now (find_breaker n c.breakers) true (rw (← returned) taken) in
      record { b = b; row = after ∙ half; distinct = acquire-IsDistinct now vendors c d e }

  -- Where circuits have distinct names, a relevant circuit that a call of
  -- `acquire_expired_probes` has returned is, after any further calls of `acquire_expired_probes`
  -- and `acquire_probe` at any times and for any vendors, returned by no call of the first and
  -- granted by no call of the second, and is among the blockers of exactly the vendors that it is
  -- relevant to; no sample is recorded meanwhile.
  pub held_once :
      (later : ℕ) (others : Option (List Text)) (relevant : Bool) {again blocking : List Text}
      {last end : Circuits}
      → Passes c' last
      → is_relevant n others ≡ some relevant
      → acquire_expired_probes later others last ≡ some (again, end)
      → blockers later others last ≡ some blocking
      → (any (text_eq n) again ≡ false)
        × ((acquire_probe n later last).0 ≡ false)
        × (any (text_eq n) blocking ≡ relevant)
  unfolding blockers
  held_once later others relevant {again} {blocking} {last} {end} passes s e' f =
      let held = Passes-IsHalfOpen n c' last passes taken-IsHalfOpen in
      let listed : any (text_eq n)
            (order_by text_lt (names_of (keep (is_blocking later) last.breakers)))
          ≡ true =
        any-order_by text_lt (text_eq n) _
        ∙ any-names_of (is_blocking later) n last.breakers held.distinct
        ∙ ap (holds_of (is_blocking later)) held.row in
      (
        not_taken n later others again last end held e',
        not_probed n n later last held,
        any-relevant_names others n relevant _ blocking s f ∙ ap (λ t. t && relevant) listed,
      )
