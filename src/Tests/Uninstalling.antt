-- ===== src/Tests/Uninstalling.antt =====
-- A cluster with two control planes.
use erie_canal_net.Base.{
  ◌≡◌, refl, Bool, true, false, List, [], ◌∷◌, ◌++◌, none, some, Text, codes, All, to_lower, nat_eq,
  list_eq, lookup,
}
use erie_canal_net.Cli.Uninstall.{
  EcnetInfo, Deployment, Cluster, Command, uninstall_release, delete_namespace, deleted,
  get_ecnet_info_list, run_uninstall,
}
use erie_canal_net.Cli.Uninstall.Targets.{IsAllowed, uninstalls-IsAllowed}
use erie_canal_net.Cli.Confirm.{confirm}

abbrev plane_in : Text → Deployment
plane_in namespace = record {
  labels = (codes "ecnetName", codes "ecnet") ∷ [];
  namespace = namespace;
}

-- `helm` answers that there is no release.
abbrev cluster : Cluster
cluster = record {
  controller_deployments = λ _. some (plane_in (codes "east") ∷ plane_in (codes "west") ∷ []);
  namespaces_monitored = λ _ _. none;
  init_config = λ _ _. true;
  uninstalls = λ _. false;
  deletes = λ _. deleted;
}

abbrev plane : Text → EcnetInfo
plane namespace = record {
  name = codes "ecnet";
  namespace = namespace;
  version = codes "Unknown";
  monitored_namespaces = [];
}

abbrev planes : List EcnetInfo
planes = plane (codes "east") ∷ plane (codes "west") ∷ []

abbrev command : Bool → Command
command force = record {
  ecnet_name = codes "ecnet";
  ecnet_namespace = codes "default";
  force = force;
  delete_ns = true;
  delete_cluster_wide_resources = false;
  is_managed = false;
}

abbrev typed_answers : List Text
typed_answers = (codes "n" ++ 10 ∷ []) ∷ (codes "y" ++ 10 ∷ []) ∷ []

planes_found : get_ecnet_info_list cluster [] ≡ some planes
unfolding get_ecnet_info_list lookup
planes_found = refl

uninstalls_example :
    All
      (IsAllowed (command false) planes)
      (run_uninstall cluster (command false) typed_answers []).1
uninstalls_example =
    uninstalls-IsAllowed (command false) cluster typed_answers planes refl planes_found

answered_run : run_uninstall cluster (command false) typed_answers [] ≡ (
  none,
  delete_namespace (codes "west") ∷ uninstall_release (codes "west") (codes "ecnet") ∷ [],
)
unfolding run_uninstall confirm to_lower get_ecnet_info_list lookup
answered_run = refl

-- With `--force` and two control planes, the namespace of the settings is deleted, where there is none.
forced_run : run_uninstall cluster (command true) [] [] ≡ (
  none,
  delete_namespace (codes "default") ∷ uninstall_release (codes "default") (codes "ecnet") ∷ [],
)
unfolding run_uninstall get_ecnet_info_list lookup
forced_run = refl
