-- ===== src/Deployment/Rounds/Converges.antt =====
-- A rollout comes to its end when the Pods become available between the runs.
use churnless.Base.{
  ℕ, zero, suc, ◌+◌, ◌-◌, ◌≤◌, ◌<◌, ◌≡◌, refl, max, Option, none, some, List, [], ◌∷◌, map, All,
  arith,
}
use churnless.Int32.{ℤ, pos, pos_part, limit}
use churnless.Api.{ReplicaSet, ReplicaSetStatus}
use churnless.Deployment.Counts.{spec_count, status_count, IsCounted, sum_spec, sum_old}
use churnless.Deployment.Rolling.{rolling_target}
use churnless.Deployment.Plan.{InRange}
use churnless.Deployment.Surge.{rolling_target-StaysWithin}
use churnless.Deployment.Progress.{AllAvailable, rolling_target-none_done}
use churnless.Deployment.Rounds.{Fleet, changed, scale_to, with_status, IsReport, roll, observe}
use churnless.Deployment.Rounds.Reached.{IsWithin, left_of, Step-IsWithin, roll-left, observe-left}

-- Every replica that is asked for is available.
abbrev pub all_available : ReplicaSet → ReplicaSetStatus
all_available rs = record rs.status { available_replicas = pos (spec_count rs) }

abbrev pub after_choice : Option (ReplicaSet × ℤ) → Fleet → Fleet
after_choice none fleet = fleet
after_choice (some (t, k)) fleet = changed (scale_to t (pos_part k)) fleet

abbrev pub ready : Fleet → Fleet
ready fleet = changed (with_status all_available) fleet

-- The Pods become available, and then the reconciler scales what it chooses.
abbrev pub round : ℕ → ℕ → ℕ → Fleet → Fleet
round d s u fleet =
    after_choice (rolling_target (pos d) (pos s) (pos u) (ready fleet).current (ready fleet).sets)
      (ready fleet)

unfoldable pub rounds : ℕ → ℕ → ℕ → ℕ → Fleet → Fleet
rounds zero d s u fleet = fleet
rounds (suc n) d s u fleet = rounds n d s u (round d s u fleet)

AllAvailable-all_available :
    (rss : List ReplicaSet) → AllAvailable (map (with_status all_available) rss)
AllAvailable-all_available [] = tt
AllAvailable-all_available (rs ∷ rss) = (omega arith, AllAvailable-all_available rss)

all_available-IsCounted :
    (rss : List ReplicaSet)
    → All IsCounted rss
    → sum_spec rss < limit
    → All
        (λ rs.
          IsCounted (with_status all_available rs)
          × (status_count (with_status all_available rs) < limit))
        rss
unfolding sum_spec
all_available-IsCounted [] c small = tt
all_available-IsCounted (rs ∷ rss) c small = (
  (record { spec_eq = c.0.spec_eq; status_eq = refl }, omega arith),
  all_available-IsCounted rss c.1 (omega arith),
)

module _ (d s u most : ℕ) (enough : d + s ≤ most) (small : most + most < limit)
    (budget : 0 < d → 0 < s + u) where
  -- One round keeps the counts in range, and brings the fleet nearer to its goal.
  round-IsWithin :
      (fleet : Fleet)
      → IsWithin most d s u fleet
      → IsWithin most d s u (round d s u fleet)
        × (left_of d (round d s u fleet) ≤ left_of d fleet - 1)
  round-IsWithin fleet i =
      choose (rolling_target (pos d) (pos s) (pos u) (ready fleet).current (ready fleet).sets) refl
    where
      reports : IsReport all_available fleet
      reports =
          all_available-IsCounted fleet.sets i.range.counted (omega (arith, i.range.total_small))

      within : IsWithin most d s u (ready fleet)
      within = Step-IsWithin d s u most enough small i (observe all_available reports)

      same_left : left_of d (ready fleet) ≡ left_of d fleet
      same_left = observe-left d s u fleet all_available

      choose :
          (o : Option (ReplicaSet × ℤ))
          → rolling_target (pos d) (pos s) (pos u) (ready fleet).current (ready fleet).sets ≡ o
          → IsWithin most d s u (after_choice o (ready fleet))
            × (left_of d (after_choice o (ready fleet)) ≤ left_of d fleet - 1)
      choose none e =
          let done =
            rolling_target-none_done within.range (budget) (AllAvailable-all_available fleet.sets)
              e in
          (within, omega (arith, done))
      choose (some (t, k)) e =
          let (n, same, stays) = rolling_target-StaysWithin within.range t k e in
          let e' : rolling_target (pos d) (pos s) (pos u) (ready fleet).current (ready fleet).sets
              ≡ some (t, pos n) =
            rw (← same) e in
          rw same (
            Step-IsWithin d s u most enough small within (roll t n e'),
            omega (arith, same_left, roll-left d s u {f = ready fleet} t n within.range e'),
          )

  rounds_done :
      (n : ℕ) (fleet : Fleet)
      → IsWithin most d s u fleet
      → left_of d fleet ≤ n
      → left_of d (rounds n d s u fleet) ≡ 0
  unfolding rounds
  rounds_done zero fleet i le = omega arith
  rounds_done (suc n) fleet i le =
      let (i', closer) = round-IsWithin fleet i in
      rounds_done n (round d s u fleet) i' (omega (arith, closer))

-- From a fleet whose counts are in range, with twice the larger of its total and desired + maxSurge
-- below 2 ^ 31, and with a maxSurge or a maxUnavailable above 0 where replicas are wanted: where the
-- Pods become available between the runs, the rollout is done after as many rounds as there were old
-- replicas, and current ones missing or too many. The current ReplicaSet then asks for the desired
-- replicas, and the old ones for none.
pub rounds-done :
    (d s u n : ℕ) (fleet : Fleet)
    → InRange d s u fleet.current fleet.sets
    → let most = max (sum_spec fleet.sets) (d + s) in
      most + most < limit
      → (0 < d → 0 < s + u)
      → left_of d fleet ≤ n
      → let final = rounds n d s u fleet in
        (spec_count final.current ≡ d) × (sum_old final.current final.sets ≡ 0)
rounds-done d s u n fleet i small budget enough =
    let most = max (sum_spec fleet.sets) (d + s) in
    omega (
      arith,
      rounds_done d s u most (omega arith) small budget n fleet
          (record { range = i; total_le = omega arith }) enough,
    )
