-- ===== src/StringMap/Laws.antt =====
-- Laws of StringMap: maps whose keys are distinct, and sets of keys.
use text.Mathlib.TextPositions.{eq_refl}
use churnless.Base.{
  ◌≡◌, refl, ◌∙◌, Bool, true, false, some, String, List, [], ◌∷◌, All, every, arith, str_eq, eq_iff,
}
use churnless.StringMap.{StringMap, lookup, put, copy, has_key, lookup-put, lookup-copy}

-- No key stands twice.
abbrev pub IsMap : StringMap → Type 0
IsMap [] = Unit
IsMap ((k, v) ∷ m) = All (λ e. str_eq k e.0 ≡ false) m × IsMap m

-- Each entry of `m` is what the map `p` has at its key.
abbrev pub Includes : StringMap → StringMap → Type 0
Includes p = All (λ e. lookup e.0 p ≡ some e.1)

Includes-cons :
    (k v : String) (p m : StringMap)
    → Includes p m
    → All (λ e. str_eq k e.0 ≡ false) m
    → Includes ((k, v) ∷ p) m
unfolding lookup
Includes-cons k v p [] i a = tt
Includes-cons k v p ((j, w) ∷ m) i a = (rw a.0 i.0, Includes-cons k v p m i.1 a.1)

pub Includes-self : (m : StringMap) → IsMap m → Includes m m
unfolding lookup
Includes-self [] h = tt
Includes-self ((k, v) ∷ m) h = (rw (eq_refl k), Includes-cons k v m m (Includes-self m h.1) h.0)

pub Includes-copy : (dst src m : StringMap) → Includes src m → Includes (copy dst src) m
Includes-copy dst src [] i = tt
Includes-copy dst src ((k, v) ∷ m) i = (lookup-copy k dst src ∙ rw i.0, Includes-copy dst src m i.1)

pub Includes-put :
    (k v : String) (p m : StringMap)
    → Includes p m
    → All (λ e. str_eq k e.0 ≡ false) m
    → Includes (put k v p) m
Includes-put k v p [] i a = tt
Includes-put k v p ((j, w) ∷ m) i a =
    (lookup-put k j v p ∙ rw a.0 i.0, Includes-put k v p m i.1 a.1)

pub every-has_key :
    (p : String → Bool) (ks : List String)
    → ((k : String) → has_key k ks ≡ true → p k ≡ true)
    → every p ks ≡ true
unfolding has_key
every-has_key p [] h = refl
every-has_key p (k ∷ ks) h =
    ground (arith, h k, eq_iff k k, every-has_key p ks (λ j m. h j (ground (arith, m))))
