-- ===== src/ReplicaSet/Coverage.antt =====
-- podCandidates misses no Pod, and returns none from the cache.
use churnless.Base.{
  ◌≡◌, refl, subst, ◌∙◌, ◌⊎◌, inl, inr, Bool, true, false, Bool-cases, List, [], ◌∷◌, ◌++◌, All,
  sort_stable,
}
use churnless.Sorted.{sort_stable-All}
use churnless.Api.{Pod, ReplicaSet}
use churnless.Action.{pure, Action, Error, Result, ok, err, fail, continue, is_not_found}
use churnless.Action.Returns.{Returns-ok, bind_ok}
use churnless.Upstream.{Upstream}
use churnless.Client.{Client, ObjectKey}
use churnless.Deployment.Actions.{key_of}
use churnless.ReplicaSet.Pods.{pod_key, bytes_less}
use churnless.ReplicaSet.Claim.{is_candidate, put_candidates, refresh_loop, pod_candidates}
use churnless.ReplicaSet.Candidates.{AnswersKeys}
use churnless.ReplicaSet.Listed.{
  Among, All-weaken, All-Among, Among-append, Extends, put_candidates_there, put_candidates-Among,
  is_candidate-sort, same_key, appended, appended_there,
}

-- A live read: what was asked for, and the answer.
abbrev pub Read : Type 0
Read = ObjectKey × Result Pod

-- A read has answered with the Pod.
abbrev pub IsRead : List Read → Pod → Type 0
IsRead reads p = (key : ObjectKey) × Among (key, ok p) reads

-- A read of the Pod has answered that it is not there.
abbrev pub IsGone : List Read → Pod → Type 0
IsGone reads p = (e : Error) × Among (key_of p.metadata, err e) reads × (is_not_found e ≡ true)

-- Each of the Pods is a candidate, or has gone.
abbrev pub Covers : List Read → List Pod → List Pod → Type 0
Covers reads pods cs = All (λ p. (is_candidate p cs ≡ true) ⊎ IsGone reads p) pods

-- The reads ask for Pods of the list only.
abbrev pub AsksFor : List Pod → List Read → Type 0
AsksFor pods reads = All (λ r. (p : Pod) × Among p pods × (key_of p.metadata ≡ r.0)) reads

-- A Pod that the selector has listed live, or that was read live.
abbrev pub IsFresh : List Pod → List Read → Pod → Type 0
IsFresh matching reads p = Among p matching ⊎ IsRead reads p

IsGone-later : (r : Read) (reads : List Read) (p : Pod) → IsGone reads p → IsGone (r ∷ reads) p
IsGone-later r reads p (e, there, gone) = (e, inr there, gone)

Covers-later :
    (r : Read) (reads : List Read) (pods cs : List Pod)
    → Covers reads pods cs
    → Covers (r ∷ reads) pods cs
Covers-later r reads pods cs a =
    All-weaken
      (λ p h. elim h [ inl there ↦ inl there | inr gone ↦ inr (IsGone-later r reads p gone) ]) pods
      a

AsksFor-later :
    (pod : Pod) (pods : List Pod) (reads : List Read)
    → AsksFor pods reads
    → AsksFor (pod ∷ pods) reads
AsksFor-later pod pods reads a = All-weaken (λ r (p, there, e). (p, inr there, e)) reads a

module _ {S : Type 0} (api : Client S) where
  -- From one world the live reads, each with its answer, lead to the other, and nothing else is done.
  abbrev pub Log : api.World → List Read → api.World → Type 0
  Log w [] w' = w ≡ w'
  Log w ((key, answer) ∷ reads) w' =
      (next : api.World) × (◌≡◌ {A = Result Pod × api.World} (api.live_get_pod key w)
        (answer, next))
      × Log next reads w'

  -- What a run has returned, and the reads that it has made for it.
  abbrev pub Covered : List Pod → List Pod → api.World → api.World → List Pod → Type 0
  Covered matching controlled w w' pods =
      (reads : List Read) × Log w reads w'
      × AsksFor controlled reads
      × All (λ p. is_candidate p pods ≡ true) matching
      × Covers reads controlled pods
      × All (IsFresh matching reads) pods

from_matching :
    (matching : List Pod) (p : Pod) → Among p (put_candidates matching []) → Among p matching
from_matching matching p h = elim (put_candidates-Among matching [] p h) [
  | inl there ↦ there
  | inr none ↦ absurd none
]

each-IsFresh :
    (matching cs : List Pod) (reads : List Read)
    → All (λ p. Among p (put_candidates matching []) ⊎ IsRead reads p) cs
    → All (IsFresh matching reads) cs
each-IsFresh matching cs reads a =
    All-weaken
      (λ p h. elim h [ inl there ↦ inl (from_matching matching p there) | inr read ↦ inr read ]) cs
      a

module _ (up : Upstream) (api : Client up.Selector) (answers : AnswersKeys api) where
  record Refreshed (candidates pods cs : List Pod) (w w' : api.World) : Type 0 where
    reads : List Read
    log : Log api w reads w'
    asks : AsksFor pods reads
    extends : Extends candidates cs
    covers : Covers reads pods cs
    each : All (λ p. Among p candidates ⊎ IsRead reads p) cs

  -- What the loop does with the answer to a read.
  abbrev gone_on : List Pod → List Pod → Result Pod → Action api.World (List Pod)
  gone_on candidates pods found = elim found [
    | ok fresh ↦ refresh_loop up api (candidates ++ fresh ∷ []) pods
    | err e ↦ elim (is_not_found e) [ true ↦ refresh_loop up api candidates pods | false ↦ fail e ]
  ]

  refresh_loop-Refreshed :
      (candidates pods cs : List Pod) (w w' : api.World)
      → refresh_loop up api candidates pods w ≡ (ok cs, w')
      → Refreshed candidates pods cs w w'
  unfolding refresh_loop
  refresh_loop-Refreshed candidates [] cs w w' run =
      let same : candidates ≡ cs = cc run in
      rw (← same) (record {
        reads = [];
        log = cc run;
        asks = tt;
        extends = λ p h. h;
        covers = tt;
        each = All-weaken (λ p h. inl h) candidates (All-Among candidates);
      })
  refresh_loop-Refreshed candidates (pod ∷ pods) cs w w' run =
      elim (Bool-cases (is_candidate pod candidates)) [
        | inl e ↦
            let r = refresh_loop-Refreshed candidates pods cs w w' (rw (refresh_loop, e) at run) in
            record {
              reads = r.reads;
              log = r.log;
              asks = AsksFor-later pod pods r.reads r.asks;
              extends = r.extends;
              covers = (inl (r.extends pod e), r.covers);
              each = r.each;
            }
        | inr e ↦
            by_answer (λ ds w1. refresh_loop-Refreshed ds pods cs w1 w')
              (api.live_get_pod (key_of pod.metadata) w) refl (rw (refresh_loop, e) at run)
      ]
    where
      key : ObjectKey
      key = key_of pod.metadata

      by_answer :
          ((ds : List Pod) (w1 : api.World)
            → refresh_loop up api ds pods w1 ≡ (ok cs, w')
            → Refreshed ds pods cs w1 w')
          → (p : Result Pod × api.World) → api.live_get_pod (key_of pod.metadata) w ≡ p
          → ◌≡◌ {A = Result (List Pod) × api.World} (gone_on candidates pods p.0 p.1) (ok cs, w')
          → Refreshed candidates (pod ∷ pods) cs w w'
      by_answer rest (ok fresh, w1) read run' =
          let r = rest (candidates ++ fresh ∷ []) w1 run' in
          let same = same_key pod fresh (Returns-ok _ _ w w1 fresh (answers.live key) read) in
          record {
            reads = (key, ok fresh) ∷ r.reads;
            log = (w1, read, r.log);
            asks = ((pod, inl refl, refl), AsksFor-later pod pods r.reads r.asks);
            extends = λ p h. r.extends p (appended candidates fresh p h);
            covers = (
              inl (r.extends pod (appended_there candidates pod fresh same)),
              Covers-later (key, ok fresh) r.reads pods cs r.covers,
            );
            each =
                All-weaken
                  (λ p h. elim h [
                    | inl there ↦ elim (Among-append p fresh candidates there) [
                      | inl before ↦ inl before
                      | inr same ↦ inr (key, inl (rw same refl))
                    ]
                    | inr (k, later) ↦ inr (k, inr later)
                  ])
                  cs r.each;
          }
      by_answer rest (err x, w1) read run' = elim (Bool-cases (is_not_found x)) [
        | inr other ↦ absurd (cc (let f = rw (gone_on, other) at run' in f))
        | inl gone ↦
            let r = rest candidates w1 (rw (gone_on, gone) at run') in
            record {
              reads = (key, err x) ∷ r.reads;
              log = (w1, read, r.log);
              asks = ((pod, inl refl, refl), AsksFor-later pod pods r.reads r.asks);
              extends = r.extends;
              covers =
                  (inr (x, inl refl, gone), Covers-later (key, err x) r.reads pods cs r.covers);
              each =
                  All-weaken
                    (λ p h. elim h [ inl there ↦ inl there | inr (k, later) ↦ inr (k, inr later) ])
                    cs r.each;
            }
      ]

  sorted-Covered :
      (less : Pod → Pod → Bool) (matching controlled cs : List Pod) (w w' : api.World)
      → Refreshed (put_candidates matching []) controlled cs w w'
      → Covered api matching controlled w w' (sort_stable less cs)
  sorted-Covered less matching controlled cs w w' r = (
    r.reads,
    r.log,
    r.asks,
    All-weaken (λ p h. is_candidate-sort less p cs ∙ r.extends p h) matching
        (put_candidates_there matching []),
    All-weaken
        (λ p h. elim h [
          | inl there ↦ inl (is_candidate-sort less p cs ∙ there)
          | inr gone ↦ inr gone
        ])
        controlled r.covers,
    sort_stable-All less (IsFresh matching r.reads) cs (each-IsFresh matching cs r.reads r.each),
  )

  -- Where a Pod that is read live is the one that was asked for: a run of podCandidates by way of the
  -- index, after the live list has given `matching` and the cache `controlled`, makes only live reads of
  -- Pods of `controlled`. What it returns has every Pod of `matching`, and every Pod of `controlled` but
  -- those for which one of these reads has answered that they are not there; and each Pod that it
  -- returns stands in `matching` or is the answer to one of these reads.
  pub pod_candidates-Covers :
      (workload : ReplicaSet) (selector : up.Selector) (matching controlled pods : List Pod)
      (w w1 w2 w3 : api.World)
      → api.live_list_matching_pods workload.metadata.namespace selector w ≡ (ok matching, w1)
      → api.cached_list_controlled_pods workload.metadata.namespace workload.metadata.uid w1
        ≡ (ok controlled, w2)
      → pod_candidates up api true workload selector w ≡ (ok pods, w3)
      → Covered api matching controlled w2 w3 pods
  unfolding pod_candidates
  pod_candidates-Covers workload selector matching controlled pods w w1 w2 w3 live cached run =
      let listed = put_candidates matching [] in
      let by_key : Pod → Pod → Bool = λ left right. bytes_less (pod_key left) (pod_key right) in
      let (cs, found, ended) =
        bind_ok (λ cs. pure (sort_stable by_key cs)) (refresh_loop up api listed controlled) w2 w3
          pods (rw (pod_candidates, live, continue, cached, continue) at run) in
      let sorted : sort_stable by_key cs ≡ pods = cc ended in
      let there : (refresh_loop up api listed controlled w2).1 ≡ w3 = cc ended in
      let r = refresh_loop-Refreshed listed controlled cs w2 w3 (cc (found, there)) in
      subst (Covered api matching controlled w2 w3) sorted
        (sorted-Covered by_key matching controlled cs w2 w3 r)
