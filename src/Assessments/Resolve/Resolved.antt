-- ===== src/Assessments/Resolve/Resolved.antt =====
-- What `_resolve_stocklean_items` of assessments/service.py returns.
use mathlib.Core.Path.{subst, ap₂}
use market_quorum.Prelude.{
  ℕ, ◌==◌, ◌≡◌, refl, sym, ap, ◌∙◌, ◌↔◌, true, false, not, ◌||◌, List, [], ◌∷◌, some, String, any,
  length, is_empty, map, All, not-eq-true, ==_iff,
}
use market_quorum.Store.{Principal}
use market_quorum.Store.Tx.{Result, ok, ok-cancel}
use market_quorum.Assessments.Resolve.Steps.{
  item_at, check-eq-ok, required-eq-ok, check-true, required-some, compatible-suited,
  item_with-first, then_each-eq-ok, response-eq-ok,
}
use market_quorum.Assessments.Resolve.{
  stock, same_asset_type, SubmitAssessments, CandidateItem, ResolvedItem, is_fundamentals,
  compatible_analysts, ExternalKey, keyed_items, candidate_of, item_with, is_rejected, may_enroll,
  asset_type_of, agrees, resolve_admission, then_each, then_complete, resolve_all, ResearchClient,
  resolve_response, resolve_stocklean_items,
}

-- The admission is for the item at a place of the submission, and allows the principal to have the
-- item assessed by the analysts that its asset type leaves.
pub record IsResolvedItem (external_key : ExternalKey) (principal : Principal)
    (command : SubmitAssessments) (r : ResolvedItem) : Type 0 where
  pub place :
      (i : ℕ) × (item_at i command.items ≡ some r.item)
      × (external_key command.idempotency_key i r.item.ticker
          ≡ r.data_admission.external_request_key)
  pub found :
      item_with r.data_admission.external_request_key
        (keyed_items external_key command.idempotency_key 0 command.items)
      ≡ some r.item
  pub admitted : is_rejected r.data_admission.readiness ≡ false
  pub identified : r.data_admission.identity ≡ some r.identity
  pub enrolled : may_enroll principal r.data_admission.scope ≡ true
  pub asset_type : r.asset_type ≡ asset_type_of r.identity
  pub agreed : agrees r.item.asset_type r.asset_type ≡ true
  pub analysts : r.analysts ≡ compatible_analysts command.analysts r.asset_type
  pub staffed : is_empty r.analysts ≡ false
  pub suited : (same_asset_type r.asset_type stock || not (any is_fundamentals r.analysts)) ≡ true

-- The provider has answered for as many items as were submitted, with what the results carry.
pub record IsResolved (external_key : ExternalKey) (subject_ref : Principal → String)
    (client : ResearchClient) (principal : Principal) (command : SubmitAssessments)
    (rs : List ResolvedItem) : Type 0 where
  pub answered :
      client (subject_ref principal) (
        map
          (candidate_of command.analysts)
          (keyed_items external_key command.idempotency_key 0 command.items))
      ≡ ok (map (λ (r : ResolvedItem). r.data_admission) rs)
  pub all_answered : length rs ≡ length command.items
  pub items : All (IsResolvedItem external_key principal command) rs

module _ (external_key : ExternalKey) (principal : Principal) (command : SubmitAssessments) where
  admission-IsResolvedItem :
      (admission : CandidateItem) {r : ResolvedItem}
      → resolve_admission principal command.analysts
          (keyed_items external_key command.idempotency_key 0 command.items)
          admission
        ≡ ok r
      → (r.data_admission ≡ admission) × IsResolvedItem external_key principal command r
  unfolding resolve_admission
  admission-IsResolvedItem admission {r} h =
      let (item, found, k) =
        required-eq-ok
          (item_with admission.external_request_key
            (keyed_items external_key command.idempotency_key 0 command.items))
          _ _ h in
      let (admitted, k) = check-eq-ok (not (is_rejected admission.readiness)) _ _ k in
      let (identity, identified, k) = required-eq-ok admission.identity _ _ k in
      let (enrolled, k) = check-eq-ok (may_enroll principal admission.scope) _ _ k in
      let (agreed, k) = check-eq-ok (agrees item.asset_type (asset_type_of identity)) _ _ k in
      let (staffed, k) =
        check-eq-ok (not (is_empty (compatible_analysts command.analysts (asset_type_of identity))))
          _ _ k in
      let place =
        item_with-first external_key command.idempotency_key command.items
          admission.external_request_key found in
      subst
        (λ (r : ResolvedItem).
          (r.data_admission ≡ admission) × IsResolvedItem external_key principal command r)
        (ok-cancel k)
        (
          refl,
          record {
            place = place;
            found = found;
            admitted = not-eq-true _ admitted;
            identified = identified;
            enrolled = enrolled;
            asset_type = refl;
            agreed = agreed;
            analysts = refl;
            staffed = not-eq-true _ staffed;
            suited = compatible-suited (asset_type_of identity) command.analysts;
          },
        )

  resolve_IsResolvedItem :
      (r : ResolvedItem)
      → IsResolvedItem external_key principal command r
      → resolve_admission principal command.analysts
          (keyed_items external_key command.idempotency_key 0 command.items)
          r.data_admission
        ≡ ok r
  unfolding resolve_admission
  resolve_IsResolvedItem r c =
      let t = c.asset_type in
      let analysts = c.analysts ∙ ap (compatible_analysts command.analysts) t in
      required-some _ _ _ c.found
      ∙ check-true _ _ _ (ap not c.admitted)
      ∙ required-some _ _ _ c.identified
      ∙ check-true _ _ _ c.enrolled
      ∙ check-true _ _ _ (subst (λ t. agrees r.item.asset_type t ≡ true) t c.agreed)
      ∙ check-true _ _ _ (ap (λ xs. not (is_empty xs)) (sym analysts) ∙ ap not c.staffed)
      ∙ ap₂ (λ t analysts. Result.ok (record r { asset_type = t; analysts = analysts })) (sym t)
          (sym analysts)

  resolve_all-All :
      (response : List CandidateItem) {rs : List ResolvedItem}
      → resolve_all principal command.analysts
          (keyed_items external_key command.idempotency_key 0 command.items)
          response
        ≡ ok rs
      → (map (λ (r : ResolvedItem). r.data_admission) rs ≡ response)
        × All (IsResolvedItem external_key principal command) rs
  unfolding resolve_all
  resolve_all-All [] {rs} h =
      subst
        (λ (rs : List ResolvedItem).
          (map (λ (r : ResolvedItem). r.data_admission) rs ≡ [])
          × All (IsResolvedItem external_key principal command) rs)
        (ok-cancel h) (refl, tt)
  resolve_all-All (a ∷ more) {rs} h =
      let (r, rest, e, k, same) = then_each-eq-ok _ _ h in
      let (from, one) = admission-IsResolvedItem a e in
      let (all_from, all) = resolve_all-All more k in
      subst
        (λ (rs : List ResolvedItem).
          (map (λ (r : ResolvedItem). r.data_admission) rs ≡ a ∷ more)
          × All (IsResolvedItem external_key principal command) rs)
        same (ap₂ (λ x xs. x ∷ xs) from all_from, (one, all))

  resolve_all-back :
      (rs : List ResolvedItem)
      → All (IsResolvedItem external_key principal command) rs
      → resolve_all principal command.analysts
          (keyed_items external_key command.idempotency_key 0 command.items)
          (map (λ (r : ResolvedItem). r.data_admission) rs)
        ≡ ok rs
  unfolding resolve_all
  resolve_all-back [] all = refl
  resolve_all-back (r ∷ rs) (one, all) =
      ap₂ then_each (resolve_IsResolvedItem r one) (resolve_all-back rs all)

  module _ (subject_ref : Principal → String) (client : ResearchClient)
      (rs : List ResolvedItem) where
    resolve-IsResolved :
        resolve_stocklean_items external_key subject_ref client principal command ≡ ok rs
        → IsResolved external_key subject_ref client principal command rs
    unfolding resolve_stocklean_items
    resolve-IsResolved h =
        let (response, resolved, answered, e, k) = response-eq-ok principal command _ _ h in
        let (complete, k) = check-eq-ok (length resolved == length command.items) _ _ k in
        let (from, all) = resolve_all-All response e in
        subst (IsResolved external_key subject_ref client principal command) (ok-cancel k) record {
          answered = answered ∙ ap ok (sym from);
          all_answered = (==_iff _ _).0 complete;
          items = all;
        }

    IsResolved-resolve :
        IsResolved external_key subject_ref client principal command rs
        → resolve_stocklean_items external_key subject_ref client principal command ≡ ok rs
    unfolding resolve_stocklean_items
    IsResolved-resolve c =
        let keyed = keyed_items external_key command.idempotency_key 0 command.items in
        ap (resolve_response principal command keyed) c.answered
        ∙ ap (then_complete command.items) (resolve_all-back rs c.items)
        ∙ check-true (length rs == length command.items) _ (ok rs) ((==_iff _ _).1 c.all_answered)

    -- A list of results is what `_resolve_stocklean_items` returns exactly where the provider's
    -- client, asked for the items of the submission under their keys, answers with what the
    -- results carry, in their order; there are as many results as items; and each result is for
    -- the item at the place that its key is made from, is not rejected, has an identity whose
    -- asset type is the one the item asks for, if any, has a scope that the principal may enroll,
    -- and has the analysts that its asset type leaves, at least one, with none of the
    -- fundamentals for what is not a stock.
    pub resolve_stocklean_items-IsResolved_iff :
        (resolve_stocklean_items external_key subject_ref client principal command ≡ ok rs)
        ↔ IsResolved external_key subject_ref client principal command rs
    resolve_stocklean_items-IsResolved_iff = (resolve-IsResolved, IsResolved-resolve)
