-- ===== src/Scheduler/Circuits/Rows.antt =====
-- Reading and writing the rows of the breakers of scheduler/circuits.py by name.
use market_quorum.Prelude.{
  ◌≡◌, refl, false, List, [], ◌∷◌, ◌++◌, none, some, arith, All, Option-cases, inl, inr, sym, ◌≢◌,
  get_or_else,
}
use market_quorum.Prelude.Text.{Text, text_eq, text_eq_refl, text_eq→eq, text_eq_iff}
use market_quorum.Scheduler.Circuits.{
  CircuitBreaker, find_breaker, save_breaker, seeded, seed_breaker, locked_breaker,
}

pub find_breaker-name :
    (name : Text) (b : CircuitBreaker) (bs : List CircuitBreaker)
    → find_breaker name bs ≡ some b
    → b.name ≡ name
unfolding find_breaker
find_breaker-name name b [] e = cc
find_breaker-name name b (c ∷ bs) e =
    ground (arith, text_eq→eq c.name name, find_breaker-name name b bs)

pub save_breaker-All {κ} :
    (P : CircuitBreaker → Type κ) (b : CircuitBreaker) (bs : List CircuitBreaker)
    → P b
    → All P bs
    → All P (save_breaker b bs)
unfolding save_breaker
save_breaker-All P b [] hb h = tt
save_breaker-All P b (c ∷ bs) hb h = ground (arith, save_breaker-All P b bs hb h.1)

pub find_breaker-save :
    (name : Text) (b old : CircuitBreaker) (bs : List CircuitBreaker)
    → b.name ≡ name
    → find_breaker name bs ≡ some old
    → find_breaker name (save_breaker b bs) ≡ some b
unfolding find_breaker save_breaker
find_breaker-save name b old [] q e = cc
find_breaker-save name b old (c ∷ bs) q e = ground (
  arith,
  text_eq_iff b.name name,
  text_eq_iff c.name name,
  text_eq_iff c.name b.name,
  find_breaker-save name b old bs,
)

pub find_breaker-append :
    (name : Text) (bs : List CircuitBreaker)
    → find_breaker name bs ≡ none
    → find_breaker name (bs ++ seed_breaker name ∷ []) ≡ some (seed_breaker name)
unfolding find_breaker
find_breaker-append name [] e = ground (arith, text_eq_refl name)
find_breaker-append name (c ∷ bs) e = ground (arith, find_breaker-append name bs)

-- The row of a circuit, or the closed breaker with which it is seeded.
abbrev pub row : Text → List CircuitBreaker → CircuitBreaker
row name bs = get_or_else (find_breaker name bs) (seed_breaker name)

pub find_breaker-seeded-row :
    (name : Text) (bs : List CircuitBreaker)
    → find_breaker name (seeded name bs) ≡ some (row name bs)
unfolding seeded
find_breaker-seeded-row name bs = elim (Option-cases (find_breaker name bs)) [
  | inl missing ↦ rw (missing, seeded) (find_breaker-append name bs missing)
  | inr (b, found) ↦ rw (found, seeded) found
]

pub locked_breaker_lem :
    (name : Text) (bs : List CircuitBreaker)
    → locked_breaker name bs ≡ some (row name bs, seeded name bs)
unfolding locked_breaker
locked_breaker_lem name bs = rw (find_breaker-seeded-row name bs, locked_breaker) refl

pub text_ne : (s t : Text) → s ≢ t → text_eq s t ≡ false
text_ne s t h = ground (arith, text_eq_iff s t)

pub find_breaker-append_ne :
    (n name : Text) (bs : List CircuitBreaker)
    → n ≢ name
    → find_breaker n (bs ++ seed_breaker name ∷ []) ≡ find_breaker n bs
unfolding find_breaker
find_breaker-append_ne n name [] h = rw (text_ne name n (λ e. h (sym e)))
find_breaker-append_ne n name (c ∷ bs) h = ground (arith, find_breaker-append_ne n name bs h)

pub find_breaker-seeded_ne :
    (n name : Text) (bs : List CircuitBreaker)
    → n ≢ name
    → find_breaker n (seeded name bs) ≡ find_breaker n bs
unfolding seeded
find_breaker-seeded_ne n name bs h = ground (arith, find_breaker-append_ne n name bs h)

pub find_breaker-save_ne :
    (n : Text) (b : CircuitBreaker) (bs : List CircuitBreaker)
    → n ≢ b.name
    → find_breaker n (save_breaker b bs) ≡ find_breaker n bs
unfolding find_breaker save_breaker
find_breaker-save_ne n b [] h = refl
find_breaker-save_ne n b (c ∷ bs) h = ground (
  arith,
  text_eq_iff c.name b.name,
  text_eq_iff c.name n,
  text_eq_iff b.name n,
  find_breaker-save_ne n b bs h,
)
