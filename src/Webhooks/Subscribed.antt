-- ===== src/Webhooks/Subscribed.antt =====
-- What `enqueue_missing` of webhooks/worker.py makes complete: one delivery for each webhook and event.
use market_quorum.Prelude.{
  ℕ, ◌≤◌, ◌==◌, ◌≡◌, refl, ◌∙◌, Bool, true, ◌&&◌, List, [], ◌∷◌, some, arith, String, Bool-cases,
  inl, inr, any, keep, length, is_empty, any-nonempty, ==_iff,
}
use market_quorum.Prelude.Table.{Table, lookup, lookup-any-keep}
use market_quorum.Prelude.Sorted.{any-order_by}
use market_quorum.Webhooks.{Webhook, StoredEvent, Outbox, type_eq, is_active_status, active}
use market_quorum.Webhooks.Enqueue.{
  NewId, Inserted, has_delivery, missing_events, enqueue_hook, enqueue_each, enqueue_missing, id_lt,
  active_hooks,
}
use market_quorum.Webhooks.Pairs.{
  IsPaired, deliveries_of, deliveries_of-some, insert_all-IsPaired, insert_all-kept,
  insert_all-done, missing_events-any,
}

-- The webhook `w` has the type.
wants : ℕ → List String → ℕ × Webhook → Bool
wants w type (i, hook) = i == w && any (type_eq type) hook.event_types_json

module _ (new_id : NewId) (now : ℕ) where
  enqueue_hook-IsPaired :
      (limit : ℕ) (events : Table StoredEvent) (hook : ℕ × Webhook) (s : Inserted)
      → IsPaired s.1
      → IsPaired (enqueue_hook new_id now limit events hook s).1
  enqueue_hook-IsPaired limit events (w, h) s p = elim (Bool-cases (is_empty h.event_types_json)) [
    | inl none_wanted ↦ rw none_wanted p
    | inr wanted ↦
        rw wanted (insert_all-IsPaired new_id now w (missing_events limit w h events s.1) s p)
  ]

  enqueue_hook-kept :
      (limit w e : ℕ) (events : Table StoredEvent) (hook : ℕ × Webhook) (s : Inserted)
      → has_delivery w e s.1 ≡ true
      → has_delivery w e (enqueue_hook new_id now limit events hook s).1 ≡ true
  enqueue_hook-kept limit w e events (i, h) s d = elim (Bool-cases (is_empty h.event_types_json)) [
    | inl none_wanted ↦ rw none_wanted d
    | inr wanted ↦
        rw wanted (insert_all-kept new_id now i w e (missing_events limit i h events s.1) s d)
  ]

  enqueue_hook-done :
      (limit w e : ℕ) (events : Table StoredEvent) (h : Webhook) (x : StoredEvent) (s : Inserted)
      → length events ≤ limit
      → lookup e events ≡ some x
      → any (type_eq x.event.event_type) h.event_types_json ≡ true
      → has_delivery w e (enqueue_hook new_id now limit events (w, h) s).1 ≡ true
  enqueue_hook-done limit w e events h x s room found wanted =
      let some_type = any-nonempty (type_eq x.event.event_type) h.event_types_json wanted in
      rw some_type (elim (Bool-cases (has_delivery w e s.1)) [
        | inl old ↦ insert_all-kept new_id now w w e (missing_events limit w h events s.1) s old
        | inr new ↦
            insert_all-done new_id now w e (missing_events limit w h events s.1) s
              (missing_events-any limit w e h events s.1 x room found (rw wanted (rw new refl)))
      ])

  enqueue_each-IsPaired :
      (limit : ℕ) (events : Table StoredEvent) (hooks : List (ℕ × Webhook)) (s : Inserted)
      → IsPaired s.1
      → IsPaired (enqueue_each new_id now limit events hooks s).1
  enqueue_each-IsPaired limit events [] s p = p
  enqueue_each-IsPaired limit events (hook ∷ hooks) s p =
      enqueue_each-IsPaired limit events hooks (enqueue_hook new_id now limit events hook s)
        (enqueue_hook-IsPaired limit events hook s p)

  enqueue_each-kept :
      (limit w e : ℕ) (events : Table StoredEvent) (hooks : List (ℕ × Webhook)) (s : Inserted)
      → has_delivery w e s.1 ≡ true
      → has_delivery w e (enqueue_each new_id now limit events hooks s).1 ≡ true
  enqueue_each-kept limit w e events [] s d = d
  enqueue_each-kept limit w e events (hook ∷ hooks) s d =
      enqueue_each-kept limit w e events hooks (enqueue_hook new_id now limit events hook s)
        (enqueue_hook-kept limit w e events hook s d)

  enqueue_each-done :
      (limit w e : ℕ) (events : Table StoredEvent) (hooks : List (ℕ × Webhook)) (x : StoredEvent)
      (s : Inserted)
      → length events ≤ limit
      → lookup e events ≡ some x
      → any (wants w x.event.event_type) hooks ≡ true
      → has_delivery w e (enqueue_each new_id now limit events hooks s).1 ≡ true
  unfolding wants
  enqueue_each-done limit w e events [] x s room found h = cc
  enqueue_each-done limit w e events ((i, hook) ∷ hooks) x s room found h =
      elim (Bool-cases (wants w x.event.event_type (i, hook))) [
        | inl wanted ↦
            let same : i ≡ w = ground (arith, ==_iff i w) in
            enqueue_each-kept limit w e events hooks
              (enqueue_hook new_id now limit events (i, hook) s)
              (rw same (enqueue_hook-done limit w e events hook x s room found (ground arith)))
        | inr other ↦
            enqueue_each-done limit w e events hooks x
              (enqueue_hook new_id now limit events (i, hook) s) room found (ground arith)
      ]

  active_hooks-any :
      (w : ℕ) (type : List String) (hook : Webhook) (hooks : Table Webhook)
      → lookup w hooks ≡ some hook
      → hook.status ≡ active
      → any (type_eq type) hook.event_types_json ≡ true
      → any (wants w type) (active_hooks hooks) ≡ true
  unfolding wants
  active_hooks-any w type hook hooks found is_on wanted =
      any-order_by id_lt (wants w type) (keep (λ (_, h). is_active_status h.status) hooks)
      ∙ lookup-any-keep (wants w type) (λ (_, h). is_active_status h.status) w hook hooks found
          (ground arith) (rw is_on refl)

  enqueue_missing-done :
      (limit : ℕ) (box : Outbox) (w e : ℕ) (hook : Webhook) (x : StoredEvent)
      → length box.events ≤ limit
      → lookup w box.webhooks ≡ some hook
      → hook.status ≡ active
      → lookup e box.events ≡ some x
      → any (type_eq x.event.event_type) hook.event_types_json ≡ true
      → has_delivery w e (enqueue_missing new_id now limit box).1.deliveries ≡ true
  unfolding enqueue_missing
  enqueue_missing-done limit box w e hook x room found is_on event wanted =
      enqueue_each-done limit w e box.events (active_hooks box.webhooks) x (0, box.deliveries) room
        event (active_hooks-any w x.event.event_type hook box.webhooks found is_on wanted)

  pub enqueue_missing-IsPaired :
      (limit : ℕ) (box : Outbox)
      → IsPaired box.deliveries
      → IsPaired (enqueue_missing new_id now limit box).1.deliveries
  unfolding enqueue_missing
  enqueue_missing-IsPaired limit box p =
      enqueue_each-IsPaired limit box.events (active_hooks box.webhooks) (0, box.deliveries) p

  -- Where no webhook has two deliveries of an event and the limit is at least the number of
  -- events, `enqueue_missing` keeps that no webhook has two deliveries of an event, and gives
  -- each active webhook one delivery of each event of its types.
  pub enqueue_missing-once :
      (limit : ℕ) (box : Outbox) (w e : ℕ) (hook : Webhook) (x : StoredEvent)
      → IsPaired box.deliveries
      → length box.events ≤ limit
      → lookup w box.webhooks ≡ some hook
      → hook.status ≡ active
      → lookup e box.events ≡ some x
      → any (type_eq x.event.event_type) hook.event_types_json ≡ true
      → IsPaired (enqueue_missing new_id now limit box).1.deliveries
        × (deliveries_of w e (enqueue_missing new_id now limit box).1.deliveries ≡ 1)
  enqueue_missing-once limit box w e hook x p room found is_on event wanted =
      let paired = enqueue_missing-IsPaired limit box p in
      let after = (enqueue_missing new_id now limit box).1.deliveries in
      let done =
        deliveries_of-some w e after
          (enqueue_missing-done limit box w e hook x room found is_on event wanted) in
      (paired, omega (arith, paired w e, done))
