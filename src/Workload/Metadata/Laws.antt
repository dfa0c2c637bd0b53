-- ===== src/Workload/Metadata/Laws.antt =====
-- setPodMetadata makes podMetadataMatches hold, and what it does to each key.
use text.Mathlib.TextPositions.{eq_refl}
use churnless.Base.{
  ◌≡◌, refl, sym, ◌∙◌, true, false, ◌&&◌, not, none, some, String, List, [], ◌∷◌, All, every, arith,
  str_eq, eq_iff, if◌then◌else◌,
}
use churnless.StringMap.{
  StringMap, lookup, get, put, delete, has_key, or_else, lookup-put, lookup-delete, lookup-copy,
}
use churnless.StringMap.Laws.{
  IsMap, Includes, Includes-self, Includes-copy, Includes-put, every-has_key,
}
use churnless.Api.{PodTemplateSpec, Pod}
use churnless.Upstream.{Upstream}
use churnless.Workload.Template.{
  revision_annotation, managed_label_keys_annotation, managed_annotation_keys_annotation,
}
use churnless.Workload.Metadata.{
  drop_unmanaged, has_values, encode_managed_keys, decode_managed_keys, set_labels, set_annotations,
  set_pod_metadata, pod_metadata_matches, managed_template_label_keys,
  managed_template_annotation_keys, is_own_annotation,
}

-- json.Unmarshal reads what json.Marshal has written of the sorted keys, and slices.Sorted keeps the
-- elements.
pub record KeyCodec (up : Upstream) (ks : List String) : Type 0 where
  pub unmarshal-marshal : up.unmarshal_keys (up.marshal_keys (up.sorted ks)) ≡ some (up.sorted ks)
  pub has_key-sorted : (k : String) → has_key k (up.sorted ks) ≡ has_key k ks

lookup-drop_unmanaged :
    (managed ks : List String) (m : StringMap) (j : String)
    → lookup j (drop_unmanaged managed ks m)
      ≡ (if has_key j ks && not (has_key j managed) then none else lookup j m)
unfolding drop_unmanaged has_key
lookup-drop_unmanaged managed [] m j = refl
lookup-drop_unmanaged managed (k ∷ ks) m j = ground (
  arith,
  lookup-drop_unmanaged managed ks m j,
  lookup-drop_unmanaged managed ks (delete k m) j,
  lookup-delete k j m,
  eq_iff k j,
)

has_values_of : (p m : StringMap) → Includes p m → has_values p m ≡ true
unfolding has_values
has_values_of p [] i = refl
has_values_of p ((k, v) ∷ m) i = rw (i.0, eq_refl v) (has_values_of p m i.1)

module _ (up : Upstream) (ks : List String) (codec : KeyCodec up ks) where
  decode-encode : decode_managed_keys up (encode_managed_keys up ks) ≡ up.sorted ks
  unfolding decode_managed_keys encode_managed_keys
  decode-encode = rw codec.unmarshal-marshal

  encoded_ok : every (λ k. has_key k ks) (decode_managed_keys up (encode_managed_keys up ks)) ≡ true
  encoded_ok =
      rw decode-encode
        (every-has_key (λ k. has_key k ks) (up.sorted ks) (λ k h. sym (codec.has_key-sorted k) ∙ h))

-- The template does not set the annotations that the controller writes itself.
abbrev pub OwnFree : StringMap → Type 0
OwnFree = All (λ e. is_own_annotation e.0 ≡ false)

own_apart :
    (own : String) (m : StringMap)
    → ((k : String) → is_own_annotation k ≡ false → str_eq own k ≡ false)
    → OwnFree m
    → All (λ e. str_eq own e.0 ≡ false) m
own_apart own [] apart h = tt
own_apart own ((k, v) ∷ m) apart h = (apart k h.0, own_apart own m apart h.1)

revision_apart : (k : String) → is_own_annotation k ≡ false → str_eq revision_annotation k ≡ false
revision_apart k h = ground (arith, eq_iff revision_annotation k, eq_iff k revision_annotation)

label_keys_apart :
    (k : String) → is_own_annotation k ≡ false → str_eq managed_label_keys_annotation k ≡ false
label_keys_apart k h =
    ground (arith, eq_iff managed_label_keys_annotation k, eq_iff k managed_label_keys_annotation)

annotation_keys_apart :
    (k : String) → is_own_annotation k ≡ false → str_eq managed_annotation_keys_annotation k ≡ false
annotation_keys_apart k h = ground (
  arith,
  eq_iff managed_annotation_keys_annotation k,
  eq_iff k managed_annotation_keys_annotation,
)

-- A Pod with the metadata of the template and the revision that was applied.
abbrev marked : (up : Upstream) → Pod → PodTemplateSpec → String → Pod
marked up pod template rev =
    let p = set_pod_metadata up pod template in
    record p {
      metadata = record p.metadata {
        annotations = put revision_annotation rev p.metadata.annotations;
      };
    }

module _ (up : Upstream) where
  -- For a template whose labels and annotations have distinct keys, that sets none of the controller's
  -- own annotations, and whose keys JSON reads back: what the patch writes satisfies
  -- podMetadataMatches, whatever the Pod had before.
  pub marked-matches :
      (pod : Pod) (template : PodTemplateSpec) (rev : String)
      → IsMap template.labels
      → IsMap template.annotations
      → OwnFree template.annotations
      → KeyCodec up (managed_template_label_keys template.labels)
      → KeyCodec up (managed_template_annotation_keys template.annotations)
      → pod_metadata_matches up (marked up pod template rev) template ≡ true
  unfolding pod_metadata_matches set_pod_metadata set_labels set_annotations
  marked-matches pod template rev l a o lc ac = simp (
    has_values_of _ template.labels (Includes-copy _ _ _ (Includes-self _ l)),
    has_values_of _ template.annotations (
        Includes-put _ _ _ _
          (Includes-put _ _ _ _
            (Includes-put _ _ _ _ (Includes-copy _ _ _ (Includes-self _ a))
              (own_apart _ _ label_keys_apart o))
            (own_apart _ _ annotation_keys_apart o))
          (own_apart _ _ revision_apart o)),
    lookup-put,
    encoded_ok up _ lc,
    encoded_ok up _ ac,
    eq_refl,
  )

  -- A label of the template gets the template's value. Another label goes if it was managed before
  -- and is not a template label any more, and is kept as it was otherwise.
  pub lookup-set_labels :
      (labels annotations template : StringMap) (j : String)
      → lookup j (set_labels up labels annotations template)
        ≡ or_else (lookup j template) (
            if has_key j (decode_managed_keys up (get annotations managed_label_keys_annotation))
              && not (has_key j (managed_template_label_keys template))
            then none
            else lookup j labels)
  unfolding set_labels
  lookup-set_labels labels annotations template j = simp (lookup-copy, lookup-drop_unmanaged)

has_values-false :
    (p m : StringMap) (k v : String)
    → lookup k m ≡ some v
    → str_eq (get p k) v ≡ false
    → has_values p m ≡ false
unfolding has_values lookup
has_values-false p [] k v e ne = cc
has_values-false p ((j, w) ∷ m) k v e ne = ground (arith, has_values-false p m k v, eq_iff j k)

-- A Pod that has just been marked does not match a template that sets the revision annotation itself,
-- to anything but the revision that was applied.
marked_never_matches :
    (up : Upstream) (pod : Pod) (template : PodTemplateSpec) (rev v : String)
    → lookup revision_annotation template.annotations ≡ some v
    → str_eq rev v ≡ false
    → pod_metadata_matches up (marked up pod template rev) template ≡ false
unfolding pod_metadata_matches
marked_never_matches up pod template rev v e ne =
    rw
      (has_values-false (marked up pod template rev).metadata.annotations template.annotations
        revision_annotation v e (rw lookup-put ne))
      (ground arith)
