-- ===== src/StringMap.antt =====
-- Go's map[string]string as an association list, and map[string]struct{} as a list of keys.
-- A key that stands twice counts once, by its first entry.
pub mod Laws
use churnless.Base.{
  ◌≡◌, refl, Bool, true, false, ◌||◌, ◌&&◌, Option, none, some, String, List, [], ◌∷◌, arith,
  str_eq, eq_iff, if◌then◌else◌,
}

abbrev pub StringMap : Type 0
StringMap = List (String × String)

-- `v, ok := m[k]`
unfoldable pub lookup : String → StringMap → Option String
lookup k [] = none
lookup k ((j, v) ∷ m) = if str_eq j k then some v else lookup k m

abbrev pub or_empty : Option String → String
or_empty none = ""
or_empty (some v) = v

-- `m[k]`: the empty text for a key that is not there.
abbrev pub get : StringMap → String → String
get m k = or_empty (lookup k m)

-- `m[k] = v`
unfoldable pub put : String → String → StringMap → StringMap
put k v [] = (k, v) ∷ []
put k v ((j, w) ∷ m) = if str_eq j k then (k, v) ∷ m else (j, w) ∷ put k v m

-- `delete(m, k)`
unfoldable pub delete : String → StringMap → StringMap
delete k [] = []
delete k ((j, v) ∷ m) = let rest = delete k m in if str_eq j k then rest else (j, v) ∷ rest

-- `maps.Copy(dst, src)`. The order in which Go visits the keys is not specified.
unfoldable pub copy : StringMap → StringMap → StringMap
copy dst [] = dst
copy dst ((k, v) ∷ src) = put k v (copy dst src)

-- Whether a key is in a set of keys: `_, ok := set[k]`.
unfoldable pub has_key : String → List String → Bool
has_key k [] = false
has_key k (j ∷ ks) = str_eq j k || has_key k ks

pub lookup-put :
    (k j : String) (v : String) (m : StringMap)
    → lookup j (put k v m) ≡ (if str_eq k j then some v else lookup j m)
unfolding lookup put
lookup-put k j v [] = refl
lookup-put k j v ((i, w) ∷ m) =
    ground (arith, eq_iff k j, eq_iff i k, eq_iff i j, lookup-put k j v m)

pub lookup-delete :
    (k j : String) (m : StringMap)
    → lookup j (delete k m) ≡ (if str_eq k j then none else lookup j m)
unfolding lookup delete
lookup-delete k j [] = ground arith
lookup-delete k j ((i, w) ∷ m) =
    ground (arith, eq_iff k j, eq_iff i k, eq_iff i j, lookup-delete k j m)

-- The first of two optional values that is there.
abbrev pub or_else : Option String → Option String → Option String
or_else none d = d
or_else (some v) d = some v

pub lookup-copy :
    (j : String) (dst src : StringMap)
    → lookup j (copy dst src) ≡ or_else (lookup j src) (lookup j dst)
unfolding lookup copy
lookup-copy j dst [] = refl
lookup-copy j dst ((k, v) ∷ src) =
    ground (arith, lookup-put k j v (copy dst src), lookup-copy j dst src)

-- The entries whose key passes a test.
unfoldable pub keep_keys : (String → Bool) → StringMap → StringMap
keep_keys p [] = []
keep_keys p ((k, v) ∷ m) = let rest = keep_keys p m in if p k then (k, v) ∷ rest else rest

abbrev pub keys : StringMap → List String
keys [] = []
keys ((k, v) ∷ m) = k ∷ keys m

abbrev same_value : Option String → Option String → Bool
same_value none none = true
same_value (some a) (some b) = str_eq a b
same_value _ _ = false

agree_on : List String → StringMap → StringMap → Bool
agree_on [] m n = true
agree_on (k ∷ ks) m n = same_value (lookup k m) (lookup k n) && agree_on ks m n

-- `maps.Equal(m, n)`
unfoldable pub equal : StringMap → StringMap → Bool
unfolding agree_on lookup
equal m n = agree_on (keys m) m n && agree_on (keys n) m n
