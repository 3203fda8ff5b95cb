-- ===== src/Cli/Namespaces/Patches.antt =====
-- Which namespaces the commands of cmd/ecnet/cli patch.
use erie_canal_net.Base.{
  ℕ, ◌≡◌, refl, ap, ◌∙◌, inl, inr, Bool, true, false, not, List, [], ◌∷◌, Option, none, some, Text,
  codes, ◌==◌, nat_eq, list_eq, if◌then◌else◌, lookup, arith, Bool-cases, if_either, ==_refl, ◌||◌,
}
use erie_canal_net.Cli.Namespaces.{
  Namespace, Patch, Api, CommandError, Step, fail, next, for_each, add_patch, label_at,
  monitor_label, ignore_label, is_none_left, send, is_ignored, no_mesh, not_listed, add_found,
  add_one, namespace_add, remove_patch, remove_found, namespace_remove,
}

abbrev patches_of : Step → List Patch
patches_of (fail e patches) = patches
patches_of (next patches) = patches

for_each_keeps :
    (Q : List Patch → Type 0) (body : Text → List Patch → Step)
    → ((ns : Text) (patches : List Patch) → Q patches → Q (patches_of (body ns patches)))
    → (nss : List Text) (patches : List Patch) → Q patches
    → Q (for_each body nss patches).1
unfolding for_each
for_each_keeps Q body keeps [] patches q = q
for_each_keeps Q body keeps (ns ∷ nss) patches q =
    goes (body ns patches) (keeps ns patches q) (λ after h. for_each_keeps Q body keeps nss after h)
  where
    goes :
        (s : Step)
        → Q (patches_of s)
        → ((after : List Patch) → Q after → Q (for_each body nss after).1)
        → Q
            (elim s as (λ _. Option CommandError × List Patch) [
              | fail e after ↦ (some e, after)
              | next after ↦ for_each body nss after
            ]).1
    goes (fail e after) h rest = h
    goes (next after) h rest = rest after h

module _ (api : Api) (ecnet_name : Text) (disable_injection : Bool) where
  -- A patch that adds its namespace to the mesh, sent when the mesh was there and the namespace was, had no
  -- controller that could be seen, was not of the mesh and was not to be ignored
  pub record IsAddition (p : Patch) (before : List Patch) : Type 0 where
    pub some_mesh : (n : ℕ) × (api.list_meshes before ecnet_name ≡ some n) × ((n == 0) ≡ false)
    pub no_controller : is_none_left (api.list_controllers before p.target) ≡ true
    pub namespace : Namespace
    pub present : api.get_namespace before p.target ≡ some namespace
    pub not_member : (ecnet_name == label_at monitor_label namespace) ≡ false
    pub not_ignored : (label_at ignore_label namespace == codes "true") ≡ false
    pub content : p ≡ add_patch ecnet_name disable_injection p.target

  abbrev pub AllAdditions : List Patch → Type 0
  AllAdditions [] = Unit
  AllAdditions (p ∷ before) = IsAddition p before × AllAdditions before

  module _ (ns : Text) (patches : List Patch) (all : AllAdditions patches) where
    found-AllAdditions :
        (n : ℕ)
        → api.list_meshes patches ecnet_name ≡ some n
        → (n == 0) ≡ false
        → is_none_left (api.list_controllers patches ns) ≡ true
        → (o : Option Namespace) → api.get_namespace patches ns ≡ o
        → AllAdditions (patches_of (add_found api ecnet_name disable_injection ns patches o))
    unfolding add_found send
    found-AllAdditions n listed several free none e = all
    found-AllAdditions n listed several free (some it) e =
        if_either (λ s. AllAdditions (patches_of s)) (ecnet_name == label_at monitor_label it)
          (next patches) _ (λ member. all)
          (λ other.
            if_either (λ s. AllAdditions (patches_of s)) (label_at ignore_label it == codes "true")
              (fail is_ignored patches) _ (λ ignored. all)
              (λ kept.
                if_either (λ s. AllAdditions (patches_of s))
                  (api.accepts (add_patch ecnet_name disable_injection ns ∷ patches)) _ _
                  (λ _. (added other kept, all)) (λ _. (added other kept, all))))
      where
        added :
            (ecnet_name == label_at monitor_label it) ≡ false
            → (label_at ignore_label it == codes "true") ≡ false
            → IsAddition (add_patch ecnet_name disable_injection ns) patches
        added other kept = record {
          some_mesh = (n, listed, several);
          no_controller = free;
          namespace = it;
          present = e;
          not_member = other;
          not_ignored = kept;
          content = refl;
        }

    one-AllAdditions :
        (o : Option ℕ)
        → api.list_meshes patches ecnet_name ≡ o
        → AllAdditions (
            patches_of (elim o [
              | none ↦ fail not_listed patches
              | some n ↦
                  if n == 0
                  then fail no_mesh patches
                  else if not (is_none_left (api.list_controllers patches ns))
                  then next patches
                  else add_found api ecnet_name disable_injection ns patches
                      (api.get_namespace patches ns)
            ]))
    one-AllAdditions none e = all
    one-AllAdditions (some n) e =
        if_either (λ s. AllAdditions (patches_of s)) (n == 0) (fail no_mesh patches) _ (λ _. all)
          (λ several.
            if_either (λ s. AllAdditions (patches_of s))
              (not (is_none_left (api.list_controllers patches ns))) (next patches) _ (λ _. all)
              (λ free.
                found-AllAdditions n e several (ground (arith, free)) (api.get_namespace patches ns)
                  refl))

  -- Every patch that the command sends, the one that was refused included, adds its namespace to the mesh,
  -- and was sent when the API server had deployments of the mesh, and the namespace was there, without the
  -- label of the mesh and without an ignore label that is true; no controller was listed in it, but perhaps
  -- because of an error.
  pub namespace_add-AllAdditions :
      (nss : List Text) (before : List Patch)
      → AllAdditions before
      → AllAdditions (namespace_add api ecnet_name disable_injection nss before).1
  unfolding namespace_add add_one
  namespace_add-AllAdditions =
      for_each_keeps AllAdditions (add_one api ecnet_name disable_injection) (λ ns patches all.
        one-AllAdditions ns patches all (api.list_meshes patches ecnet_name) refl)

-- What the API server does of a patch that it accepts: null removes a key, a text replaces it.
pub record Merges (api : Api) : Type 0 where
  pub merged :
      (p : Patch) (before : List Patch) (n : Namespace)
      → api.accepts (p ∷ before) ≡ true
      → api.get_namespace before p.target ≡ some n
      → (after : Namespace) × (api.get_namespace (p ∷ before) p.target ≡ some after)
        × ((key : Text)
            → lookup key after.labels
              ≡ elim (lookup key p.labels) [ none ↦ lookup key n.labels | some change ↦ change ])

module _ (api : Api) (ecnet_name : Text) (disable_injection : Bool) (ns : Text)
    (before : List Patch) where
  abbrev pub added_to : List Patch
  added_to = add_patch ecnet_name disable_injection ns ∷ before

  abbrev pub removed_from : List Patch
  removed_from = remove_patch ns ∷ added_to

  remove_member :
      (n : Namespace)
      → lookup monitor_label n.labels ≡ some ecnet_name
      → api.accepts removed_from ≡ true
      → remove_found api ecnet_name ns added_to (some n) ≡ (none, removed_from)
  unfolding remove_found
  remove_member n h ok = ground (arith, h, ok, ==_refl ecnet_name)

  -- If the API server accepts both patches and merges them, then a namespace that was added to the mesh is
  -- removed from it without an error, and has then the labels that it had before it was added, but neither
  -- the label of the mesh nor the ignore label.
  pub add_then_remove :
      (n : Namespace) (key : Text)
      → Merges api
      → api.get_namespace before ns ≡ some n
      → api.accepts added_to ≡ true
      → api.accepts removed_from ≡ true
      → (namespace_remove api ecnet_name ns added_to ≡ (none, removed_from))
        × ((after : Namespace) × (api.get_namespace removed_from ns ≡ some after)
            × (lookup key after.labels ≡ (
                if monitor_label == key || ignore_label == key then none else lookup key n.labels)))
  unfolding namespace_remove lookup
  add_then_remove n key m present added removed =
      let (mid, at_mid, labels_mid) =
        m.merged (add_patch ecnet_name disable_injection ns) before n added present in
      let (after, at_end, labels_end) = m.merged (remove_patch ns) added_to mid removed at_mid in
      (
        ap (remove_found api ecnet_name ns added_to) at_mid
            ∙ remove_member mid (labels_mid monitor_label) removed,
        (after, at_end, labels_end key ∙ labels_key mid (labels_mid key)),
      )
    where
      labels_key :
          (mid : Namespace)
          → lookup key mid.labels ≡ elim (lookup key ((monitor_label, some ecnet_name) ∷ [])) [
            | none ↦ lookup key n.labels
            | some change ↦ change
          ]
          → elim (lookup key (remove_patch ns).labels) [
            | none ↦ lookup key mid.labels
            | some change ↦ change
          ]
            ≡ (if monitor_label == key || ignore_label == key then none else lookup key n.labels)
      labels_key mid h = elim (Bool-cases (monitor_label == key)) [
        | inl e ↦ ground (arith, e)
        | inr e ↦ ground (arith, e, h)
      ]
