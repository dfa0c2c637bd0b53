-- ===== src/ReplicaSet/Live.antt =====
-- The live Pods of a ReplicaSet on an API server, and what deleteFirst leaves of them.
use churnless.Base.{
  ℕ, zero, suc, ◌+◌, ◌≤◌, ◌≡◌, refl, ap, ◌∙◌, Bool, true, false, not, String, List, [], ◌∷◌, All,
  length, keep, count_if, arith,
}
use churnless.Api.{Pod, ObjectMeta, ReplicaSet}
use churnless.Action.{ok, continue}
use churnless.Upstream.{Upstream}
use churnless.Client.{Client}
use churnless.ReplicaSet.Pods.{pod_key, same_bytes}
use churnless.ReplicaSet.DistinctKeys.{same_bytes-eq, same_bytes_comm, HasOtherKey, DistinctKeys}
use churnless.ReplicaSet.Listed.{same_bytes_self}
use churnless.ReplicaSet.Replicas.{delete_first}

abbrev pub has_key_of : Pod → Pod → Bool
has_key_of p q = same_bytes (pod_key q) (pod_key p)

-- The Pods once the one with the key of `p` is deleted.
abbrev pub without : Pod → List Pod → List Pod
without p = keep (λ q. not (has_key_of p q))

-- The server grants every request. `view` shows the live Pods of the ReplicaSet `owner`, which have
-- distinct keys: one more after the creation of a Pod that `owner` controls, and those without its key
-- after the deletion of a Pod.
pub record Serves (up : Upstream) (api : Client up.Selector) (owner : ObjectMeta)
    (view : api.World → List Pod) : Type 0 where
  pub distinct : (w : api.World) → DistinctKeys (view w)
  pub created :
      (p : Pod) (w : api.World)
      → up.is_controlled_by p.metadata owner ≡ true
      → (w' : api.World) × (api.create_pod p w ≡ (ok tt, w'))
        × (length (view w') ≡ suc (length (view w)))
  pub deleted :
      (p : Pod) (w : api.World)
      → (w' : api.World) × (api.delete_pod p w ≡ (ok tt, w')) × (view w' ≡ without p (view w))
  pub clock : (w : api.World) → view (api.now w).1 ≡ view w
  pub list_sets :
      (n : List ℕ) (w : api.World)
      → (rss : List ReplicaSet) × (w' : api.World) × (api.reader_list_replica_sets n w
          ≡ (ok rss, w'))
        × (view w' ≡ view w)
  pub list_pods :
      (n : List ℕ) (w : api.World)
      → (pods : List Pod) × (w' : api.World) × (api.reader_list_pods n w ≡ (ok pods, w'))
        × (view w' ≡ view w)
  pub list_controlled :
      (n : List ℕ) (uid : String) (w : api.World)
      → (pods : List Pod) × (w' : api.World) × (api.cached_list_controlled_pods n uid w
          ≡ (ok pods, w'))
        × (view w' ≡ view w)

-- A Pod's key is that of one other Pod alone.
keys_apart : (p d q : Pod) → has_key_of d p ≡ false → has_key_of d q ≡ true → has_key_of p q ≡ false
keys_apart p d q h k =
    rw (same_bytes-eq (pod_key q) (pod_key d) k) (same_bytes_comm (pod_key d) (pod_key p) ∙ h)

count_if-without :
    (p d : Pod) (v : List Pod)
    → has_key_of d p ≡ false
    → count_if (has_key_of p) (without d v) ≡ count_if (has_key_of p) v
count_if-without p d [] h = refl
count_if-without p d (q ∷ v) h = ground (arith, keys_apart p d q h, count_if-without p d v h)

length-without :
    (d : Pod) (v : List Pod) → length (without d v) + count_if (has_key_of d) v ≡ length v
length-without d [] = refl
length-without d (q ∷ v) = ground (arith, length-without d v)

-- The key of each of the Pods stands once in the view.
abbrev pub Once : List Pod → List Pod → Type 0
Once v = All (λ p. count_if (has_key_of p) v ≡ 1)

none_other : (p : Pod) (v : List Pod) → All (HasOtherKey p) v → count_if (has_key_of p) v ≡ 0
none_other p [] a = refl
none_other p (q ∷ v) (b, a) = rw b (none_other p v a)

pub DistinctKeys-Once : (v : List Pod) → DistinctKeys v → Once v v
DistinctKeys-Once [] d = tt
DistinctKeys-Once (p ∷ v) (o, d) =
    (ground (arith, same_bytes_self p, none_other p v o), later v o (DistinctKeys-Once v d))
  where
    later : (qs : List Pod) → All (HasOtherKey p) qs → Once v qs → Once (p ∷ v) qs
    later [] o a = tt
    later (q ∷ qs) (b, o) (c, a) =
        (ground (arith, c, b, same_bytes_comm (pod_key q) (pod_key p)), later qs o a)

Once-without :
    (d : Pod) (v ps : List Pod) → All (HasOtherKey d) ps → Once v ps → Once (without d v) ps
Once-without d v [] o a = tt
Once-without d v (p ∷ ps) (b, o) (c, a) = (count_if-without p d v b ∙ c, Once-without d v ps o a)

module _ (up : Upstream) (api : Client up.Selector) (owner : ObjectMeta)
    (view : api.World → List Pod) (serves : Serves up api owner view) where
  -- The first Pods of the list are gone, and no other.
  pub delete_first-length :
      (n : ℕ) (ps : List Pod) (w : api.World)
      → n ≤ length ps
      → DistinctKeys ps
      → Once (view w) ps
      → (w' : api.World) × (delete_first up api n ps w ≡ (ok tt, w'))
        × (length (view w') + n ≡ length (view w))
  unfolding delete_first
  delete_first-length zero ps w le d o = (w, refl, omega arith)
  delete_first-length (suc n) [] w le d o = absurd (omega arith)
  delete_first-length (suc n) (p ∷ ps) w le (others, d) (one, o) =
      let (w1, e1, shown) = serves.deleted p w in
      let (w2, e2, count) =
        delete_first-length n ps w1 (omega arith) d
          (rw shown (Once-without p (view w) ps others o)) in
      (
        w2,
        rw (delete_first, e1, continue) e2,
        omega (arith, count, ap length shown, length-without p (view w), one),
      )
