-- ===== src/Deployment/Conditions.antt =====
-- The conditions that deploymentConditions builds.
use churnless.Base.{
  ◌≡◌, refl, ◌∙◌, inl, inr, Bool, true, false, Bool-cases, Option, none, some, List, [], ◌∷◌, ◌++◌,
  keep, count_if, arith, if◌then◌else◌,
}
use mathlib.Core.List.{append-nil}
use churnless.Int32.{ℤ}
use churnless.Api.{
  Time, Deployment, DeploymentStatus, DeploymentCondition, ConditionType, available, progressing,
}
use churnless.Upstream.{Upstream}
use churnless.Deployment.Totals.{desired_replicas}
use churnless.Deployment.Status.{
  same_type, same_status, is_other, keep_times, preserve_loop, preserve_condition_time,
  min_available, available_condition, progressing_condition, deployment_conditions,
}

abbrev pub has_type : ConditionType → DeploymentCondition → Bool
has_type t c = same_type c.type t

-- The first condition of the type.
unfoldable pub find_condition :
    ConditionType → List DeploymentCondition → Option DeploymentCondition
find_condition t [] = none
find_condition t (c ∷ cs) = if has_type t c then some c else find_condition t cs

keep_others : (xs : List DeploymentCondition) → keep is_other (keep is_other xs) ≡ keep is_other xs
keep_others [] = refl
keep_others (c ∷ cs) = ground (arith, keep_others cs)

keep-append :
    (xs ys : List DeploymentCondition)
    → keep is_other (xs ++ ys) ≡ keep is_other xs ++ keep is_other ys
keep-append [] ys = refl
keep-append (c ∷ cs) ys = ground (arith, keep-append cs ys)

others_only :
    (t : ConditionType)
    → ((c : DeploymentCondition) → is_other c ≡ true → has_type t c ≡ false)
    → (xs ys : List DeploymentCondition)
    → count_if (has_type t) (keep is_other xs ++ ys) ≡ count_if (has_type t) ys
others_only t apart [] ys = refl
others_only t apart (c ∷ cs) ys = elim (Bool-cases (is_other c)) [
  | inl other ↦ rw (other, apart c other) (others_only t apart cs ys)
  | inr own ↦ rw own (others_only t apart cs ys)
]

-- What preserve_condition_time may change of a condition is its dates.
preserved :
    (now : Time) (existing : List DeploymentCondition) (c : DeploymentCondition)
    → let r = preserve_condition_time now existing c in
      (r.type ≡ c.type) × (r.status ≡ c.status) × (r.reason ≡ c.reason) × (r.message ≡ c.message)
unfolding preserve_condition_time preserve_loop keep_times
preserved now [] c = (refl, refl, refl, refl)
preserved now (old ∷ existing) c = elim (Bool-cases (same_type old.type c.type)) [
  | inl same ↦ rw (preserve_condition_time, same) (refl, refl, refl, refl)
  | inr other ↦ rw (preserve_condition_time, other) (preserved now existing c)
]

dates_of :
    (now : Time) (existing : List DeploymentCondition) (c : DeploymentCondition)
    → (preserve_condition_time now existing c).last_transition_time
      ≡ elim (find_condition c.type existing) [
        | none ↦ now
        | some old ↦ if same_status old.status c.status then old.last_transition_time else now
      ]
unfolding preserve_condition_time preserve_loop keep_times find_condition
dates_of now [] c = refl
dates_of now (old ∷ existing) c = elim (Bool-cases (same_type old.type c.type)) [
  | inl same ↦ rw (preserve_condition_time, find_condition, same) refl
  | inr other ↦ rw (preserve_condition_time, find_condition, other) (dates_of now existing c)
]

-- A condition keeps its type, status, reason and message. Its transition time is that of the first
-- stored condition of its type where the status is still the same, and the present otherwise.
pub preserve_condition_time-transition :
    (now : Time) (existing : List DeploymentCondition) (c : DeploymentCondition)
    → let r = preserve_condition_time now existing c in
      (r.type ≡ c.type)
      × (r.status ≡ c.status)
      × (r.reason ≡ c.reason)
      × (r.message ≡ c.message)
      × (r.last_transition_time ≡ elim (find_condition c.type existing) [
        | none ↦ now
        | some old ↦ if same_status old.status c.status then old.last_transition_time else now
      ])
preserve_condition_time-transition now existing c =
    let (t, s, r, m) = preserved now existing c in (t, s, r, m, dates_of now existing c)

available_type : (up : Upstream) (n m : ℤ) → (available_condition up n m).type ≡ available
unfolding available_condition
available_type up n m = ground arith

progressing_type :
    (up : Upstream) (b : Bool) (n m d : ℤ) → (progressing_condition up b n m d).type ≡ progressing
unfolding progressing_condition
progressing_type up b n m d = ground arith

module _ (existing : List DeploymentCondition) (a p : DeploymentCondition)
    (a_type : a.type ≡ available) (p_type : p.type ≡ progressing) where
  abbrev whole : List DeploymentCondition
  whole = keep is_other existing ++ a ∷ p ∷ []

  one_available : count_if (has_type available) whole ≡ 1
  one_available =
      others_only available (λ c h. ground arith) existing (a ∷ p ∷ [])
      ∙ ground (arith, a_type, p_type)

  one_progressing : count_if (has_type progressing) whole ≡ 1
  one_progressing =
      others_only progressing (λ c h. ground arith) existing (a ∷ p ∷ [])
      ∙ ground (arith, a_type, p_type)

  others_kept : keep is_other whole ≡ keep is_other existing
  others_kept =
      rw (keep-append (keep is_other existing) (a ∷ p ∷ []), keep_others existing, a_type, p_type)
        (append-nil (keep is_other existing))

-- The new conditions have one Available and one Progressing condition, and the others are the stored
-- ones in their order.
pub deployment_conditions-once :
    (up : Upstream) (now later : Time) (workload : Deployment) (status : DeploymentStatus)
    → let result = deployment_conditions up now later workload status in
      (count_if (has_type available) result ≡ 1)
      × (count_if (has_type progressing) result ≡ 1)
      × (keep is_other result ≡ keep is_other workload.status.conditions)
unfolding deployment_conditions
deployment_conditions-once up now later workload status =
    let existing = workload.status.conditions in
    let floor = min_available up workload in
    let desired = desired_replicas workload.spec.replicas in
    let a = available_condition up status.available_replicas floor in
    let p =
      progressing_condition up workload.spec.paused status.updated_replicas
        status.available_replicas desired in
    let a' = preserve_condition_time now existing a in
    let p' = preserve_condition_time later existing p in
    let a_type : a'.type ≡ available =
      (preserved now existing a).0 ∙ available_type up status.available_replicas floor in
    let p_type : p'.type ≡ progressing =
      (preserved later existing p).0
      ∙ progressing_type up workload.spec.paused status.updated_replicas status.available_replicas
          desired in
    (
      one_available existing a' p' a_type p_type,
      one_progressing existing a' p' a_type p_type,
      others_kept existing a' p' a_type p_type,
    )
