-- ===== src/Cli/Namespaces.antt =====
-- namespace_add.go, namespace_remove.go, namespace_ignore.go and namespace_list.go of cmd/ecnet/cli. The
-- API server is a parameter: its replies are functions of the patches sent so far, newest first. What is
-- printed is left out, but for the rows of the list.
pub mod Patches
use erie_canal_net.Base.{
  ℕ, Bool, true, false, not, ◌&&◌, List, [], ◌∷◌, Option, none, some, Text, codes, ◌==◌, nat_eq,
  list_eq, if◌then◌else◌, Assoc, lookup, has_key,
}
use erie_canal_net.Cli.Confirm.{trim_space}

abbrev pub monitor_label : Text
monitor_label = codes "flomesh.io/monitored-by"

abbrev pub ignore_label : Text
ignore_label = codes "flomesh.io/ignore"

abbrev pub injection_annotation : Text
injection_annotation = codes "flomesh.io/sidecar-injection"

abbrev pub metrics_annotation : Text
metrics_annotation = codes "flomesh.io/metrics"

pub record Namespace : Type 0 where
  pub name : Text
  pub labels : Assoc Text Text
  pub annotations : Assoc Text Text

-- A strategic merge patch of metadata: `none` is null.
pub record Patch : Type 0 where
  pub target : Text
  pub labels : Assoc Text (Option Text)
  pub annotations : Assoc Text (Option Text)

-- `list_meshes` counts the deployments with the name of the mesh, `list_controllers` those of the controller
-- in a namespace.
pub record Api : Type 0 where
  pub list_meshes : List Patch → Text → Option ℕ
  pub list_controllers : List Patch → Text → Option ℕ
  pub get_namespace : List Patch → Text → Option Namespace
  pub accepts : List Patch → Bool

pub data CommandError : Type 0 where
  not_listed no_mesh no_namespace is_ignored other_mesh refused : CommandError

-- What the body of a loop over namespaces does: the command returns an error, or the loop goes on.
pub data Step : Type 0 where
  fail : CommandError → List Patch → Step
  next : List Patch → Step

pub for_each :
    (Text → List Patch → Step) → List Text → List Patch → Option CommandError × List Patch
for_each body [] patches = (none, patches)
for_each body (ns ∷ nss) patches = elim (body ns patches) [
  | fail e patches' ↦ (some e, patches')
  | next patches' ↦ for_each body nss patches'
]

abbrev pub add_patch : Text → Bool → Text → Patch
add_patch ecnet_name disable_injection ns = record {
  target = ns;
  labels = (monitor_label, some ecnet_name) ∷ [];
  annotations =
      (injection_annotation, some (if disable_injection then codes "disabled" else codes "enabled"))
      ∷ [];
}

abbrev pub ignore_patch : Text → Patch
ignore_patch ns = record {
  target = ns;
  labels = (ignore_label, some (codes "true")) ∷ [];
  annotations = [];
}

abbrev pub remove_patch : Text → Patch
remove_patch ns = record {
  target = ns;
  labels = (monitor_label, none) ∷ (ignore_label, none) ∷ [];
  annotations = (injection_annotation, none) ∷ (metrics_annotation, none) ∷ [];
}

-- A label, empty where there is none
abbrev pub label_at : Text → Namespace → Text
label_at key n = elim (lookup key n.labels) [ none ↦ [] | some t ↦ t ]

abbrev pub is_none_left : Option ℕ → Bool
is_none_left none = true
is_none_left (some n) = n == 0

module _ (api : Api) where
  pub send : Patch → List Patch → Step
  send p patches =
      if api.accepts (p ∷ patches) then next (p ∷ patches) else fail refused (p ∷ patches)

  -- The body of the loop of `namespaceAddCmd.run`; an error in listing the controllers is dropped.
  pub add_found : Text → Bool → Text → List Patch → Option Namespace → Step
  unfolding send
  add_found ecnet_name disable_injection ns patches none = fail no_namespace patches
  add_found ecnet_name disable_injection ns patches (some n) =
      if ecnet_name == label_at monitor_label n
      then next patches
      else if label_at ignore_label n == codes "true"
      then fail is_ignored patches
      else send (add_patch ecnet_name disable_injection ns) patches

  pub add_one : Text → Bool → Text → List Patch → Step
  unfolding add_found
  add_one ecnet_name disable_injection ns patches = elim (api.list_meshes patches ecnet_name) [
    | none ↦ fail not_listed patches
    | some n ↦
        if n == 0
        then fail no_mesh patches
        else if not (is_none_left (api.list_controllers patches ns))
        then next patches
        else add_found ecnet_name disable_injection ns patches (api.get_namespace patches ns)
  ]

  unfoldable pub namespace_add :
      Text → Bool → List Text → List Patch → Option CommandError × List Patch
  unfolding for_each add_one
  namespace_add ecnet_name disable_injection = for_each (add_one ecnet_name disable_injection)

  -- `namespaceIgnoreCmd.run`
  pub ignore_one : Text → List Patch → Step
  unfolding send
  ignore_one given patches =
      let ns = trim_space given in
      elim (api.get_namespace patches ns) [
        | none ↦ fail no_namespace patches
        | some _ ↦ send (ignore_patch ns) patches
      ]

  unfoldable pub namespace_ignore : List Text → List Patch → Option CommandError × List Patch
  unfolding for_each ignore_one
  namespace_ignore = for_each ignore_one

  -- `namespaceRemoveCmd.run`
  pub remove_found : Text → Text → List Patch → Option Namespace → Option CommandError × List Patch
  remove_found ecnet_name ns patches none = (some no_namespace, patches)
  remove_found ecnet_name ns patches (some n) =
      let patches' = remove_patch ns ∷ patches in
      elim (lookup monitor_label n.labels) [
        | none ↦ (none, patches)
        | some mesh ↦
            if not (mesh == ecnet_name)
            then (some other_mesh, patches)
            else (if api.accepts patches' then none else some refused, patches')
      ]

  unfoldable pub namespace_remove : Text → Text → List Patch → Option CommandError × List Patch
  unfolding remove_found
  namespace_remove ecnet_name ns patches =
      remove_found ecnet_name ns patches (api.get_namespace patches ns)

-- The rows of `namespaceListCmd.run`
pub record Row : Type 0 where
  pub name : Text
  pub ecnet_name : Text
  pub injection : Text

abbrev pub row_of : Namespace → Row
row_of n = record {
  name = n.name;
  ecnet_name = label_at monitor_label n;
  injection =
      if has_key ignore_label n.labels
      then codes "disabled (ignored)"
      else elim (lookup injection_annotation n.annotations) [ none ↦ codes "-" | some t ↦ t ];
}
