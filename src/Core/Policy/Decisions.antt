-- ===== src/Core/Policy/Decisions.antt =====
-- When the policy allows a retry or an automatic revision.
use agent_supervisor_runtime.Base.{
  ℕ, ◌<◌, String, Bool, true, false, List, [], ◌∷◌, Option, none, some, ◌≡◌, ◌≢◌, refl, ◌↔◌, inl,
  inr, arith, eq_iff, any, All, Bool-cases, Option-cases,
}
use agent_supervisor_runtime.Contracts.State.{TaskRecord}
use agent_supervisor_runtime.Contracts.Review.{Review, ReviewFinding, revise}
use agent_supervisor_runtime.Core.Policy.{
  PolicyConfig, allow, should_retry_worker, can_auto_revise, wants_user, same_fingerprint, repeats,
}

-- A retry is allowed exactly below the limit.
pub should_retry_worker_iff :
    (config : PolicyConfig) (n : ℕ)
    → (should_retry_worker config n ≡ allow) ↔ (n < config.max_worker_retries)
unfolding should_retry_worker
should_retry_worker_iff config n = ground arith

any-All {ℓ} :
    {A : Type ℓ} (p : A → Bool) (xs : List A) → (any p xs ≡ false) ↔ All (λ x. p x ≡ false) xs
any-All p [] = ((λ h. tt), λ h. refl)
any-All p (x ∷ xs) = (
  (λ h. (ground arith, (any-All p xs).0 (ground arith))),
  λ h. ground (arith, (any-All p xs).1 h.1, h.0),
)

All-map {ℓ κ} :
    {A : Type ℓ} {P Q : A → Type κ} (f : (x : A) → P x → Q x) (xs : List A) → All P xs → All Q xs
All-map f [] h = tt
All-map f (x ∷ xs) h = (f x h.0, All-map f xs h.1)

-- Two findings have the same fingerprint, and it says something.
abbrev pub Shared : ReviewFinding → ReviewFinding → Type 0
Shared f g = (a : String) × (f.fingerprint ≡ some a) × (g.fingerprint ≡ some a) × (a ≢ "")

-- No finding comes back from the previous review.
abbrev pub NoRepeat : List ReviewFinding → Option Review → Type 0
NoRepeat findings none = Unit
NoRepeat findings (some previous) = All (λ f. All (λ g. ¬ Shared f g) previous.findings) findings

same_fingerprint_sound : (f g : ReviewFinding) → same_fingerprint f g ≡ false → ¬ Shared f g
same_fingerprint_sound f g h (a, p, q, r) = ground (arith, eq_iff a a, eq_iff a "")

same_fingerprint_complete : (f g : ReviewFinding) → ¬ Shared f g → same_fingerprint f g ≡ false
same_fingerprint_complete f g h = elim (Bool-cases (same_fingerprint f g)) [
  | inr e ↦ e
  | inl e ↦ elim (Option-cases f.fingerprint) [
    | inl p ↦ ground arith
    | inr (a, p) ↦ elim (Option-cases g.fingerprint) [
      | inl q ↦ ground arith
      | inr (b, q) ↦ absurd (h (a, p, ground (arith, eq_iff a b), ground (arith, eq_iff a "")))
    ]
  ]
]

repeats_iff :
    (findings : List ReviewFinding) (previous : Option Review)
    → (repeats findings previous ≡ false) ↔ NoRepeat findings previous
repeats_iff findings none = ((λ h. tt), λ h. refl)
repeats_iff findings (some previous) = (
  (λ h.
      All-map
        (λ f k.
          All-map (same_fingerprint_sound f) previous.findings ((any-All _ previous.findings).0 k))
        findings ((any-All _ findings).0 h)),
  λ h. (any-All _ findings).1 (
      All-map
        (λ f k.
          (any-All _ previous.findings).1
            (All-map (same_fingerprint_complete f) previous.findings k))
        findings h),
)

-- What an automatic revision needs.
pub record Revisable (config : PolicyConfig) (r : TaskRecord) (review : Review)
    (previous : Option Review) : Type 0 where
  pub asked : review.decision ≡ revise
  pub decidable : All (λ (f : ReviewFinding). f.requires_user_decision ≢ some true) review.findings
  pub below_limit : r.revision_count < config.max_revisions
  pub fresh : NoRepeat review.findings previous

wants_user_iff :
    (f : ReviewFinding) → (wants_user f ≡ false) ↔ (f.requires_user_decision ≢ some true)
wants_user_iff f = ground arith

-- An automatic revision is allowed exactly when the supervisor asked for one, no finding wants the
-- user's decision, the revision limit is not reached, and no fingerprint that is not empty stands
-- both in this review and in the previous one.
pub can_auto_revise_iff :
    (config : PolicyConfig) (r : TaskRecord) (review : Review) (previous : Option Review)
    → (can_auto_revise config r review previous ≡ allow) ↔ Revisable config r review previous
unfolding can_auto_revise
can_auto_revise_iff config r review previous = (
  (λ h. record {
    asked = ground arith;
    decidable =
        All-map (λ f. (wants_user_iff f).0) review.findings
          ((any-All wants_user review.findings).0 (ground arith));
    below_limit = ground arith;
    fresh = (repeats_iff review.findings previous).0 (ground arith);
  }),
  λ h.
      let e =
        (any-All wants_user review.findings).1
          (All-map (λ f. (wants_user_iff f).1) review.findings h.decidable) in
      let k = (repeats_iff review.findings previous).1 h.fresh in
      ground (arith, e, k, h.asked, h.below_limit),
)
