-- ===== src/Assessments/Delete/Spared.antt =====
-- What `AssessmentService.delete` of assessments/service.py takes away and what it spares.
use market_quorum.Prelude.{
  ℕ, ◌==◌, ◌≡◌, ◌≢◌, refl, sym, ap, ◌∙◌, Bool, true, false, not, ◌||◌, List, [], ◌∷◌, map, Option,
  none, some, any, keep, is_empty, any-keep, Bool-cases, inl, inr, arith, ==_iff, ◌⊎◌, Option-cases,
}
use market_quorum.Prelude.Table.{Table, lookup, erase, lookup-erase, lookup-any}
use market_quorum.Prelude.Sorted.{by_key, order_by, any-order_by}
use market_quorum.Store.{Database, AssessmentRun, AssessmentRequest, RunEvent}
use market_quorum.Assessments.{RunContext, run_context}
use market_quorum.Assessments.Delete.{
  depends_on, created_key, find_dependent_run_ids, prune, has_request, has_batch, without_run,
  without_request, without_snapshot, delete_assessment_graph,
}

module _ {V : Type 0} where
  -- A row stays if it is another one, or is referred to.
  lookup-prune :
      (b : Bool) (j k : ℕ) (t : Table V)
      → (j ≢ k) ⊎ (b ≡ true)
      → lookup j (prune b k t) ≡ lookup j t
  lookup-prune true j k t h = refl
  lookup-prune false j k t (inl other) = ground (arith, lookup-erase j k t)
  lookup-prune false j k t (inr kept) = cc

  map-empty :
      {B : Type 0} (f : V → B) (p : V → Bool) (xs : List V)
      → is_empty (map f xs) ≡ true
      → any p xs ≡ false
  map-empty f p [] h = refl
  map-empty f p (x ∷ xs) h = cc

pub dependents-none :
    (run_id : ℕ) (db : Database)
    → is_empty (find_dependent_run_ids run_id db) ≡ true
    → any (depends_on run_id) db.runs ≡ false
unfolding find_dependent_run_ids
dependents-none run_id db h =
    let rows = keep (depends_on run_id) db.runs in
    sym (any-keep (depends_on run_id) db.runs)
    ∙ sym (any-order_by (by_key created_key) (depends_on run_id) rows)
    ∙ map-empty (λ (id, _). id) (depends_on run_id) (order_by (by_key created_key) rows) h

-- The tables that a deletion leaves.
pub record IsPruned (context : RunContext) (db db' : Database) : Type 0 where
  pub users : db'.users ≡ db.users
  pub instruments : db'.instruments ≡ db.instruments
  pub runs : db'.runs ≡ erase context.run_id db.runs
  pub requests :
      db'.requests
      ≡ prune (has_request context.run.request_id db'.runs) context.run.request_id db.requests
  pub batches :
      db'.batches
      ≡ prune
          (has_request context.run.request_id db'.runs
            || has_batch context.request.batch_id db'.requests)
          context.request.batch_id
          db.batches
  pub events : db'.events ≡ keep (λ (e : RunEvent). not (e.run_id == context.run_id)) db.events
  pub leases : db'.leases ≡ erase context.run_id db.leases

pub graph-IsPruned :
    (context : RunContext) (db : Database)
    → IsPruned context db (delete_assessment_graph context db)
unfolding delete_assessment_graph
graph-IsPruned context db = at context.run.config_snapshot_id
  where
    rest : Database
    rest =
        without_request context.run.request_id context.request.batch_id
          (without_run context.run_id db)

    at : (o : Option ℕ) → IsPruned context db (without_snapshot o rest)
    at none = record {
      users = refl;
      instruments = refl;
      runs = refl;
      requests = refl;
      batches = refl;
      events = refl;
      leases = refl;
    }
    at (some id) = record {
      users = refl;
      instruments = refl;
      runs = refl;
      requests = refl;
      batches = refl;
      events = refl;
      leases = refl;
    }

-- A row that another row refers to is not the key, or the key is referred to.
referred :
    {W : Type 0} (f : W → ℕ) (k b : ℕ) (w : W) (rows : Table W)
    → lookup k rows ≡ some w
    → (f w ≢ b) ⊎ (any (λ (_, r). f r == b) rows ≡ true)
referred f k b w rows h = elim (Bool-cases (f w == b)) [
  | inl same ↦ inr (lookup-any (λ (_, r). f r == b) k w rows h same)
  | inr other ↦ inl (ground (arith, ==_iff (f w) b))
]

referred_or : {P : Type 0} (a : Bool) {b : Bool} → P ⊎ (b ≡ true) → P ⊎ ((a || b) ≡ true)
referred_or a (inl h) = inl h
referred_or true (inr h) = inr refl
referred_or false (inr h) = inr h

-- The rows of another run are spared.
module _ (context : RunContext) (db db' : Database) (p : IsPruned context db db') (j : ℕ)
    (other : j ≢ context.run_id) where
  runs_same : lookup j db'.runs ≡ lookup j db.runs
  runs_same = ap (lookup j) p.runs ∙ lookup-prune false j context.run_id db.runs (inl other)

  request_same :
      (run : AssessmentRun)
      → lookup j db.runs ≡ some run
      → lookup run.request_id db'.requests ≡ lookup run.request_id db.requests
  request_same run h =
      ap (lookup run.request_id) p.requests
      ∙ lookup-prune _ run.request_id context.run.request_id db.requests (
          referred (λ (r : AssessmentRun). r.request_id) j context.run.request_id run db'.runs
            (runs_same ∙ h))

  batch_same :
      (run : AssessmentRun) (request : AssessmentRequest)
      → lookup j db.runs ≡ some run
      → lookup run.request_id db.requests ≡ some request
      → lookup request.batch_id db'.batches ≡ lookup request.batch_id db.batches
  batch_same run request h k =
      ap (lookup request.batch_id) p.batches
      ∙ lookup-prune _ request.batch_id context.request.batch_id db.batches (
          referred_or (has_request context.run.request_id db'.runs) (
            referred (λ (r : AssessmentRequest). r.batch_id) run.request_id context.request.batch_id
              request db'.requests (request_same run h ∙ k)))

  pub run_context-pruned : run_context j db' ≡ run_context j db
  unfolding run_context
  run_context-pruned = elim (Option-cases (lookup j db.runs)) [
    | inl e ↦ rw (run_context, runs_same, e) refl
    | inr (run, e) ↦ elim (Option-cases (lookup run.request_id db.requests)) [
      | inl k ↦ rw (run_context, runs_same, e, request_same run e, k) refl
      | inr (request, k) ↦ elim (Option-cases (lookup request.instrument_id db.instruments)) [
        | inl l ↦ rw (run_context, runs_same, e, request_same run e, k, p.instruments, l) refl
        | inr (instrument, l) ↦ elim (Option-cases (lookup request.batch_id db.batches)) [
          | inl m ↦
              rw
                (
                  run_context,
                  runs_same,
                  e,
                  request_same run e,
                  k,
                  p.instruments,
                  l,
                  batch_same run request e k,
                  m,
                )
                refl
          | inr (batch, m) ↦
              rw
                (
                  run_context,
                  runs_same,
                  e,
                  request_same run e,
                  k,
                  p.instruments,
                  l,
                  batch_same run request e k,
                  m,
                  p.users,
                )
                refl
        ]
      ]
    ]
  ]
