-- ===== src/Webhooks/Returned.antt =====
-- One call of `run_once` of webhooks/worker.py: it returns, and leaves nothing that it claimed open.
use mathlib.Core.Path.{subst}
use market_quorum.Prelude.{
  ℕ, ◌+◌, ◌<◌, ◌≤◌, ◌≡◌, refl, ap, sym, ◌⊎◌, Bool, true, false, Option, none, some, arith, String,
  inl, inr,
}
use market_quorum.Prelude.Table.{lookup, IsUnique, lookup-insert_self}
use market_quorum.Store.Tx.{Result, ok}
use market_quorum.Webhooks.{WebhookDelivery, Outbox, pending, delivered, failed}
use market_quorum.Webhooks.Delivery.{
  DeliveryAttempt, max_attempts, minutes, IsSettled, final_attempt, deliver_webhook-Settles,
}
use market_quorum.Webhooks.Enqueue.{enqueue_missing}
use market_quorum.Webhooks.Queue.{
  ClaimedDelivery, recover_expired_claims, claim, complete, complete_row, completed, is_held_claim,
  delivering_until,
}
use market_quorum.Webhooks.Phases.{
  Follows, Follows-trans, recover_expired_claims-Follows, enqueue_missing-Follows, complete-Follows,
}
use market_quorum.Webhooks.Keys.{IsFresh, recover_expired_claims-IsUnique, enqueue_missing-IsUnique}
use market_quorum.Webhooks.Claiming.{IsBegun, claim-IsBegun, claim-none}
use market_quorum.Webhooks.Run.{Settings, attempt_with, complete_with, deliver_claimed, run_once}

-- The delivery has ended, or waits for a later time and has an attempt left.
abbrev pub IsClosed : ℕ → WebhookDelivery → Type 0
IsClosed now d =
    (d.status ≡ delivered) × (d.next_attempt_at ≡ none)
    ⊎ (d.status ≡ failed) × (d.next_attempt_at ≡ none)
    ⊎ (d.status ≡ pending)
      × (d.attempt < max_attempts)
      × (t : ℕ) × (d.next_attempt_at ≡ some t)
      × (now < t)

-- A delivery of which an attempt was begun and closed.
pub record IsAttempted (now : ℕ) (box box' : Outbox) : Type 0 where
  pub id : ℕ
  pub row : WebhookDelivery
  pub row' : WebhookDelivery
  pub was : lookup id box.deliveries ≡ some row
  pub is : lookup id box'.deliveries ≡ some row'
  pub begun : row'.attempt ≡ row.attempt + 1
  pub closed : IsClosed now row'

-- The outbox that `claim` finds.
abbrev pub prepared : Settings → ℕ → Outbox → Outbox
prepared w now box = (enqueue_missing w.new_id now 100 (recover_expired_claims now box).1).1

-- Either an attempt was made, or nothing was claimed.
abbrev pub IsOutcome : ℕ → Outbox → Outbox → Bool → Type 0
IsOutcome now found box' true = IsAttempted now found box'
IsOutcome now found box' false = box' ≡ found

-- `r` is what a call returns that claimed a delivery of `found`.
pub record HasReturned (now : ℕ) (box found : Outbox) (r : Result Bool × Outbox) : Type 0 where
  pub result : Bool
  pub returned : r.0 ≡ ok result
  pub follows : Follows box.deliveries r.1.deliveries
  pub outcome : IsOutcome now found r.1 result

attempt_with-Settles :
    (w : Settings) (now : ℕ) (claimed : ClaimedDelivery) (secret : Option String)
    → 1 ≤ claimed.attempt
    → (r : DeliveryAttempt) × (attempt_with w now claimed secret ≡ ok r)
      × IsSettled claimed.attempt now r
attempt_with-Settles w now claimed none h =
    (final_attempt failed none, refl, inr (inl (refl, refl)))
attempt_with-Settles w now claimed (some secret) h =
    deliver_webhook-Settles w.network w.allowlist w.client claimed.endpoint claimed.event_id secret
      claimed.payload claimed.attempt now h

complete-IsAttempted :
    (now : ℕ) (is_locked : ℕ → Bool) (claimed : ClaimedDelivery) (result : DeliveryAttempt)
    (box box' : Outbox)
    → IsBegun is_locked now claimed box box'
    → IsSettled claimed.attempt now result
    → IsAttempted now box (complete claimed result box')
unfolding complete
complete-IsAttempted now is_locked claimed result box box' b s =
    let d = delivering_until (now + minutes 5) b.row in
    let held : is_held_claim claimed d ≡ true = ground (arith, b.attempt) in
    let id = claimed.delivery_id in
    record {
      id = id;
      row = b.row;
      row' = completed result d;
      was = b.next.found;
      is =
          rw (b.written, complete_row)
            (rw held (lookup-insert_self id (completed result d) box'.deliveries));
      begun = refl;
      closed = ground (arith, b.attempt);
    }

module _ (w : Settings) (now : ℕ) where
  claimed-returned :
      (is_locked : ℕ → Bool) (claimed : ClaimedDelivery) (box found b : Outbox)
      → Follows box.deliveries found.deliveries
      → IsBegun is_locked now claimed found b
      → HasReturned now box found (deliver_claimed w now (some claimed, b))
  claimed-returned is_locked claimed box found b f begun =
      let secret = w.decrypt claimed.encrypted_secret in
      let (r, e, settled) =
        attempt_with-Settles w now claimed secret (omega (arith, begun.attempt)) in
      let step : deliver_claimed w now (some claimed, b) ≡ (ok true, complete claimed r b) =
        ap (λ x. complete_with w now claimed x b) e in
      subst (HasReturned now box found) (sym step) (record {
        result = true;
        returned = refl;
        follows = Follows-trans box.deliveries found.deliveries _ f (
            Follows-trans found.deliveries b.deliveries _ begun.follows
              (complete-Follows claimed r b));
        outcome = complete-IsAttempted now is_locked claimed r found b begun settled;
      })

  deliver_claimed-returned :
      (is_locked : ℕ → Bool) (box found : Outbox) (x : Option ClaimedDelivery × Outbox)
      → Follows box.deliveries found.deliveries
      → IsUnique found.deliveries
      → claim w.texts is_locked now found ≡ x
      → HasReturned now box found (deliver_claimed w now x)
  deliver_claimed-returned is_locked box found (none, b) f u e =
      let same = claim-none w.texts is_locked now found e in
      record {
        result = false;
        returned = refl;
        follows = subst (λ c. Follows box.deliveries c.deliveries) same f;
        outcome = sym same;
      }
  deliver_claimed-returned is_locked box found (some claimed, b) f u e =
      claimed-returned is_locked claimed box found b f
        (claim-IsBegun w.texts is_locked now found u e)

  -- Where the keys of the deliveries are unique and new identifiers are fresh, `run_once`
  -- returns: no delivery is lost and each goes on by the course from due to posted and from there
  -- to sent, dropped or due; where the result is true, one attempt of a delivery was begun and
  -- the delivery has ended, or is due at a later time and has had fewer than five attempts; where
  -- it is false, nothing was claimed.
  pub run_once-HasReturned :
      (is_locked : ℕ → Bool) (box : Outbox)
      → IsUnique box.deliveries
      → IsFresh w.new_id
      → HasReturned now box (prepared w now box) (run_once w now is_locked box)
  unfolding run_once
  run_once-HasReturned is_locked box u fresh =
      let recovered = (recover_expired_claims now box).1 in
      let found = prepared w now box in
      deliver_claimed-returned is_locked box found (claim w.texts is_locked now found)
        (Follows-trans box.deliveries recovered.deliveries found.deliveries
          (recover_expired_claims-Follows now box)
          (enqueue_missing-Follows w.new_id now 100 recovered))
        (enqueue_missing-IsUnique w.new_id fresh now 100 recovered
          (recover_expired_claims-IsUnique now box u))
        refl
