-- ===== src/Webhooks/Pairs.antt =====
-- What the insertions of `enqueue_missing` of webhooks/worker.py do to the pairs of a webhook and an event.
use market_quorum.Prelude.{
  ℕ, ◌+◌, ◌≤◌, ◌==◌, ◌≡◌, ◌∙◌, true, false, List, [], ◌∷◌, ◌++◌, some, arith, Bool-cases, inl, inr,
  any, bit, count, keep, length, any-none, any-some, any-append, any-last, length-keep, take-all,
  count-append, ==_iff,
}
use market_quorum.Prelude.Table.{Table, lookup, lookup-any-keep}
use market_quorum.Prelude.Sorted.{order_by, length-order_by, any-order_by, by_key}
use market_quorum.Webhooks.{Webhook, WebhookDelivery, StoredEvent}
use market_quorum.Webhooks.Enqueue.{
  NewId, Inserted, is_pair, has_delivery, new_delivery, insert_ignore, insert_all, event_key,
  is_missing, missing_events,
}

-- How many deliveries of the event the webhook has.
unfoldable pub deliveries_of : ℕ → ℕ → Table WebhookDelivery → ℕ
deliveries_of w e = count (λ (_, d). is_pair w e d)

abbrev pub IsPaired : Table WebhookDelivery → Type 0
IsPaired ds = (w e : ℕ) → deliveries_of w e ds ≤ 1

pub deliveries_of-append :
    (w e id : ℕ) (d : WebhookDelivery) (ds : Table WebhookDelivery)
    → deliveries_of w e (ds ++ (id, d) ∷ []) ≡ deliveries_of w e ds + bit (is_pair w e d)
unfolding deliveries_of
deliveries_of-append w e id d ds =
    omega (arith, count-append (λ (_, d). is_pair w e d) ds ((id, d) ∷ []))

pub deliveries_of-none :
    (w e : ℕ) (ds : Table WebhookDelivery) → has_delivery w e ds ≡ false → deliveries_of w e ds ≡ 0
unfolding deliveries_of
deliveries_of-none w e ds h = any-none (λ (_, d). is_pair w e d) ds h

pub deliveries_of-some :
    (w e : ℕ) (ds : Table WebhookDelivery) → has_delivery w e ds ≡ true → 1 ≤ deliveries_of w e ds
unfolding deliveries_of
deliveries_of-some w e ds h = any-some (λ (_, d). is_pair w e d) ds h

-- With room for all, an event of the webhook's types that has no delivery is among those found.
pub missing_events-any :
    (limit w e : ℕ) (hook : Webhook) (events : Table StoredEvent) (ds : Table WebhookDelivery)
    (x : StoredEvent)
    → length events ≤ limit
    → lookup e events ≡ some x
    → is_missing w hook ds (e, x) ≡ true
    → any (λ (i, _). i == e) (missing_events limit w hook events ds) ≡ true
unfolding missing_events
missing_events-any limit w e hook events ds x room found missing =
    let lt = by_key (event_key) in
    let rows = keep (is_missing w hook ds) events in
    let sorted = any-order_by lt (λ (i, _). i == e) rows in
    let all =
      take-all limit (order_by lt rows)
        (omega (arith, length-order_by lt rows, length-keep (is_missing w hook ds) events)) in
    rw all (
      sorted
      ∙ lookup-any-keep (λ (i, _). i == e) (is_missing w hook ds) e x events found (ground arith)
          missing)

module _ (new_id : NewId) (now : ℕ) where
  pub insert_ignore-IsPaired :
      (w e : ℕ) (s : Inserted) → IsPaired s.1 → IsPaired (insert_ignore new_id now w e s).1
  insert_ignore-IsPaired w e (n, ds) p w' e' = elim (Bool-cases (has_delivery w e ds)) [
    | inl old ↦ rw old (p w' e')
    | inr new ↦ rw new (
        ground (
          arith,
          p w' e',
          deliveries_of-append w' e' (new_id ds) (new_delivery w e now) ds,
          deliveries_of-none w e ds,
        ))
  ]

  pub insert_ignore-kept :
      (w e w' e' : ℕ) (s : Inserted)
      → has_delivery w' e' s.1 ≡ true
      → has_delivery w' e' (insert_ignore new_id now w e s).1 ≡ true
  insert_ignore-kept w e w' e' (n, ds) h = elim (Bool-cases (has_delivery w e ds)) [
    | inl old ↦ rw old h
    | inr new ↦ rw new (any-append (λ (_, d). is_pair w' e' d) ds _ h)
  ]

  pub insert_ignore-done :
      (w e : ℕ) (s : Inserted) → has_delivery w e (insert_ignore new_id now w e s).1 ≡ true
  insert_ignore-done w e (n, ds) = elim (Bool-cases (has_delivery w e ds)) [
    | inl old ↦ rw old old
    | inr new ↦ rw new (any-last (λ (_, d). is_pair w e d) ds _ (ground arith))
  ]

  pub insert_all-IsPaired :
      (w : ℕ) (es : List (ℕ × StoredEvent)) (s : Inserted)
      → IsPaired s.1
      → IsPaired (insert_all new_id now w es s).1
  insert_all-IsPaired w [] s p = p
  insert_all-IsPaired w ((e, x) ∷ es) s p =
      insert_all-IsPaired w es (insert_ignore new_id now w e s) (insert_ignore-IsPaired w e s p)

  pub insert_all-kept :
      (w w' e' : ℕ) (es : List (ℕ × StoredEvent)) (s : Inserted)
      → has_delivery w' e' s.1 ≡ true
      → has_delivery w' e' (insert_all new_id now w es s).1 ≡ true
  insert_all-kept w w' e' [] s h = h
  insert_all-kept w w' e' ((e, x) ∷ es) s h =
      insert_all-kept w w' e' es (insert_ignore new_id now w e s) (insert_ignore-kept w e w' e' s h)

  pub insert_all-done :
      (w e : ℕ) (es : List (ℕ × StoredEvent)) (s : Inserted)
      → any (λ (i, _). i == e) es ≡ true
      → has_delivery w e (insert_all new_id now w es s).1 ≡ true
  insert_all-done w e [] s h = cc
  insert_all-done w e ((i, x) ∷ es) s h = elim (Bool-cases (i == e)) [
    | inl same ↦
        let eq : i ≡ e = ground (arith, ==_iff i e) in
        insert_all-kept w w e es (insert_ignore new_id now w i s) (rw eq (insert_ignore-done w e s))
    | inr other ↦ insert_all-done w e es (insert_ignore new_id now w i s) (ground arith)
  ]
