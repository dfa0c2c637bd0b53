-- ===== src/ReplicaSet/Uids.antt =====
-- The UIDs of the related ReplicaSets: each stands once, and a Pod counts once for them.
use churnless.Base.{
  ℕ, ◌+◌, ◌≡◌, refl, inl, inr, false, ◌||◌, Bool-cases, Option, none, some, String, List, [], ◌∷◌,
  ◌++◌, arith, str_eq, eq_iff, if◌then◌else◌,
}
use churnless.StringMap.{has_key}
use churnless.Api.{OwnerReference}
use churnless.ReplicaSet.Replicas.{controlled_by_uid, owned_by_one_of, with_uids}

-- No UID stands twice.
abbrev pub Unique : List String → Type 0
Unique [] = Unit
Unique (uid ∷ uids) = (has_key uid uids ≡ false) × Unique uids

has_key-append :
    (k uid : String) (set : List String)
    → has_key k (set ++ uid ∷ []) ≡ (has_key k set || str_eq uid k)
unfolding has_key
has_key-append k uid [] = ground arith
has_key-append k uid (j ∷ set) = ground (arith, has_key-append k uid set)

append-Unique :
    (uid : String) (set : List String)
    → has_key uid set ≡ false
    → Unique set
    → Unique (set ++ uid ∷ [])
unfolding has_key
append-Unique uid [] new u = (refl, tt)
append-Unique uid (j ∷ set) new (a, u) = (
  ground (arith, new, a, has_key-append j uid set, eq_iff j uid, eq_iff uid j),
  append-Unique uid set (ground (arith, new)) u,
)

pub with_uids-Unique : (set uids : List String) → Unique set → Unique (with_uids set uids)
unfolding with_uids
with_uids-Unique set [] u = u
with_uids-Unique set (uid ∷ uids) u = elim (Bool-cases (has_key uid set)) [
  | inl known ↦ rw (with_uids, known) (with_uids-Unique set uids u)
  | inr new ↦
      rw (with_uids, new) (with_uids-Unique (set ++ uid ∷ []) uids (append-Unique uid set new u))
]

-- What a Pod adds for the UIDs that are its controller's.
unfoldable pub shared : List String → Option OwnerReference → ℕ → ℕ
shared [] o x = 0
shared (uid ∷ uids) o x = (if controlled_by_uid uid o then x else 0) + shared uids o x

shared_other :
    (uids : List String) (owner : OwnerReference) (x : ℕ)
    → has_key owner.uid uids ≡ false
    → shared uids (some owner) x ≡ 0
unfolding shared has_key
shared_other [] owner x e = refl
shared_other (uid ∷ uids) owner x e =
    ground (arith, e, eq_iff uid owner.uid, eq_iff owner.uid uid, shared_other uids owner x)

-- Where no UID stands twice, a Pod counts once or not at all.
pub shared_once :
    (uids : List String) (o : Option OwnerReference) (x : ℕ)
    → Unique uids
    → shared uids o x ≡ (if owned_by_one_of uids o then x else 0)
unfolding shared has_key
shared_once [] none x u = refl
shared_once [] (some owner) x u = refl
shared_once (uid ∷ uids) none x (a, u) = omega (arith, shared_once uids none x u)
shared_once (uid ∷ uids) (some owner) x (a, u) = elim (Bool-cases (str_eq owner.uid uid)) [
  | inl same ↦
      let e : owner.uid ≡ uid = ground (arith, same, eq_iff owner.uid uid) in
      let other = shared_other uids owner x (rw e a) in
      ground (arith, same, other, e, eq_iff uid owner.uid)
  | inr differs ↦ ground (
    arith,
    differs,
    shared_once uids (some owner) x u,
    eq_iff uid owner.uid,
    eq_iff owner.uid uid,
  )
]
