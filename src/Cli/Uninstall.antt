-- ===== src/Cli/Uninstall.antt =====
-- uninstall_ecnet.go of cmd/ecnet/cli, with what util.go gives it of the control planes in the cluster.
-- The cluster is a parameter: its replies are functions of the changes asked for so far, newest first.
-- What is printed is left out.
pub mod Targets
use erie_canal_net.Base.{
  ℕ, Bool, true, false, not, ◌&&◌, ◌||◌, List, [], ◌∷◌, ◌++◌, Option, none, some, Text, codes, ◌==◌,
  nat_eq, list_eq, if◌then◌else◌, is_empty, Assoc, lookup,
}
use erie_canal_net.Cli.Confirm.{confirm}

-- ecnet_list.go: `ecnetInfo`
pub record EcnetInfo : Type 0 where
  pub name : Text
  pub namespace : Text
  pub version : Text
  pub monitored_namespaces : List Text

pub record Deployment : Type 0 where
  pub labels : Assoc Text Text
  pub namespace : Text

-- The changes that the command asks for; a release is uninstalled in the namespace of the configuration.
pub data Change : Type 0 where
  uninstall_release : Text → Text → Change
  delete_namespace : Text → Change
  delete_crd : Text → Change
  delete_secret : Text → Text → Change

pub data Deletion : Type 0 where
  deleted not_found delete_failed : Deletion

pub record Cluster : Type 0 where
  pub controller_deployments : List Change → Option (List Deployment)
  pub namespaces_monitored : List Change → Text → Option (List Text)
  pub init_config : List Change → Text → Bool
  pub uninstalls : List Change → Bool
  pub deletes : List Change → Deletion

-- `uninstallCniCmd` and whether the environment is managed
pub record Command : Type 0 where
  pub ecnet_name : Text
  pub ecnet_namespace : Text
  pub force : Bool
  pub delete_ns : Bool
  pub delete_cluster_wide_resources : Bool
  pub is_managed : Bool

pub data CliError : Type 0 where
  not_listed not_answered not_initialised not_uninstalled namespace_kept resources_kept : CliError

abbrev pub text_at : Text → Assoc Text Text → Text
text_at key labels = elim (lookup key labels) [ none ↦ [] | some t ↦ t ]

module _ (cl : Cluster) where
  abbrev pub monitored : List Change → Text → List Text
  monitored changes name = elim (cl.namespaces_monitored changes name) [
    | none ↦ []
    | some names ↦ names
  ]

  abbrev pub info_of : List Change → Deployment → EcnetInfo
  info_of changes d =
      let name = text_at (codes "ecnetName") d.labels in
      let version = text_at (codes "app.kubernetes.io/version") d.labels in
      record {
        name = name;
        namespace = d.namespace;
        version = if is_empty version then codes "Unknown" else version;
        monitored_namespaces = monitored changes name;
      }

  pub infos_of : List Change → List Deployment → List EcnetInfo
  infos_of changes [] = []
  infos_of changes (d ∷ ds) = info_of changes d ∷ infos_of changes ds

  -- `getEcnetInfoList`
  unfoldable pub get_ecnet_info_list : List Change → Option (List EcnetInfo)
  unfolding infos_of
  get_ecnet_info_list changes = elim (cl.controller_deployments changes) [
    | none ↦ none
    | some ds ↦ some (infos_of changes ds)
  ]

-- `ecnetSpecified` and `findEcnet`
abbrev pub ecnet_specified : Command → Bool
ecnet_specified cmd = not (is_empty cmd.ecnet_name)

abbrev pub find_ecnet : Text → List EcnetInfo → Bool
find_ecnet name [] = false
find_ecnet name (e ∷ es) = e.name == name || find_ecnet name es

-- `promptEcnetUninstall`; `none` is its error.
pub prompt_ecnet_uninstall : Command → List EcnetInfo → List Text → Option (List EcnetInfo)
unfolding confirm
prompt_ecnet_uninstall cmd [] stdin = some []
prompt_ecnet_uninstall cmd (e ∷ es) stdin =
    let (answer, left) = confirm stdin 3 in
    let skipped = prompt_ecnet_uninstall cmd es stdin in
    let asked = prompt_ecnet_uninstall cmd es left in
    if ecnet_specified cmd && not (e.name == cmd.ecnet_name) then skipped else elim answer [
      | none ↦ none
      | some yes_said ↦ elim asked [
        | none ↦ none
        | some chosen ↦ some (if yes_said then e ∷ chosen else chosen)
      ]
    ]

-- The control plane that `--force` uninstalls
abbrev pub forced_ecnet : Command → List EcnetInfo → EcnetInfo
forced_ecnet cmd (only_one ∷ []) = record {
  name = only_one.name;
  namespace = only_one.namespace;
  version = [];
  monitored_namespaces = [];
}
forced_ecnet cmd _ = record {
  name = cmd.ecnet_name;
  namespace = cmd.ecnet_namespace;
  version = [];
  monitored_namespaces = [];
}

abbrev pub deletion_error : Deletion → Option CliError
deletion_error deleted = none
deletion_error not_found = none
deletion_error delete_failed = some namespace_kept

module _ (cl : Cluster) where
  -- `deleteNs`
  pub delete_ns_of : Command → Text → List Change → Option CliError × List Change
  delete_ns_of cmd ns changes =
      let changes' = delete_namespace ns ∷ changes in
      if cmd.delete_ns then (deletion_error (cl.deletes changes'), changes') else (none, changes)

  -- The loop over the control planes to uninstall
  pub uninstall_each : Command → List EcnetInfo → List Change → Option CliError × List Change
  unfolding delete_ns_of
  uninstall_each cmd [] changes = (none, changes)
  uninstall_each cmd (m ∷ ms) changes =
      let changes' = uninstall_release m.namespace m.name ∷ changes in
      let (kept, changes'') = delete_ns_of cmd m.namespace changes' in
      let rest = uninstall_each cmd ms changes'' in
      if not (cl.init_config changes m.namespace)
      then (some not_initialised, changes)
      else if not (cl.uninstalls changes')
          && (not cmd.delete_cluster_wide_resources && not cmd.delete_ns)
      then (some not_uninstalled, changes')
      else elim kept [ some e ↦ (some e, changes'') | none ↦ rest ]

  -- The loops of `uninstallCustomResourceDefinitions` and `uninstallSecrets`: whether a deletion failed
  pub delete_each : List Change → List Change → Bool × List Change
  delete_each [] changes = (false, changes)
  delete_each (c ∷ cs) changes =
      let (failed, changes') = delete_each cs (c ∷ changes) in
      (
        elim (cl.deletes (c ∷ changes)) [
          | deleted ↦ failed
          | not_found ↦ failed
          | delete_failed ↦ true
        ],
        changes',
      )

  -- `uninstallClusterResources`; there are no secrets.
  pub uninstall_cluster_resources : List Change → Bool × List Change
  unfolding delete_each
  uninstall_cluster_resources changes =
      let (crds, changes') =
        delete_each (delete_crd (codes "ecnetconfigs.config.flomesh.io") ∷ []) changes in
      let (secrets, changes'') = delete_each [] changes' in (crds || secrets, changes'')

  -- `deleteClusterResources`
  pub delete_cluster_resources : Command → List Change → Option CliError × List Change
  unfolding uninstall_cluster_resources get_ecnet_info_list
  delete_cluster_resources cmd changes =
      let (failed, changes') = uninstall_cluster_resources changes in
      if not cmd.delete_cluster_wide_resources
      then (none, changes)
      else elim (get_ecnet_info_list cl changes) [
        | none ↦ (some not_listed, changes)
        | some _ ↦ (if failed then some resources_kept else none, changes')
      ]

  -- The end of `run`
  pub after_uninstall : Command → Option CliError × List Change → Option CliError × List Change
  unfolding delete_cluster_resources
  after_uninstall cmd (some e, changes) = (some e, changes)
  after_uninstall cmd (none, changes) = delete_cluster_resources cmd changes

  -- `run`, once the control planes are listed. The list is printed before the prompts, which lists them
  -- again.
  pub run_found : Command → List Text → List Change → List EcnetInfo → Option CliError × List Change
  unfolding prompt_ecnet_uninstall uninstall_each after_uninstall
  run_found cmd stdin changes infos =
      let chosen = prompt_ecnet_uninstall cmd infos stdin in
      if is_empty infos || (ecnet_specified cmd && not (find_ecnet cmd.ecnet_name infos))
      then (none, changes)
      else if cmd.force
      then after_uninstall cmd (uninstall_each cmd (forced_ecnet cmd infos ∷ []) changes)
      else elim (get_ecnet_info_list cl changes) [
        | none ↦ (some not_listed, changes)
        | some _ ↦ elim chosen [
          | none ↦ (some not_answered, changes)
          | some ms ↦ after_uninstall cmd (uninstall_each cmd ms changes)
        ]
      ]

  -- `run`, with the chunks of its input: its error and the changes
  unfoldable pub run_uninstall : Command → List Text → List Change → Option CliError × List Change
  unfolding run_found
  run_uninstall cmd stdin changes =
      if cmd.is_managed
      then delete_cluster_resources cmd changes
      else elim (get_ecnet_info_list cl changes) [
        | none ↦ (some not_listed, changes)
        | some infos ↦ run_found cmd stdin changes infos
      ]
