-- ===== src/Cli/Uninstall/Targets.antt =====
-- What `ecnet uninstall` of cmd/ecnet/cli/uninstall_ecnet.go uninstalls.
use erie_canal_net.Base.{
  ◌≡◌, refl, sym, subst, inl, inr, Bool, true, false, not, ◌&&◌, ◌||◌, List, [], ◌∷◌, Option, none,
  some, Text, codes, ◌==◌, nat_eq, list_eq, if◌then◌else◌, is_empty, arith, All, Among, if_either,
}
use mathlib.Core.Option.{some-injective}
use erie_canal_net.Cli.Confirm.{confirm}
use erie_canal_net.Cli.Uninstall.{
  EcnetInfo, Change, uninstall_release, delete_namespace, delete_crd, delete_secret, Cluster,
  Command, CliError, get_ecnet_info_list, ecnet_specified, find_ecnet, prompt_ecnet_uninstall,
  deletion_error, not_listed, not_answered, resources_kept, delete_ns_of, uninstall_each,
  delete_each, uninstall_cluster_resources, delete_cluster_resources, after_uninstall, run_found,
  run_uninstall,
}

All-from : {A : Type 0} {Q : A → Type 0} (xs : List A) → ((x : A) → Among x xs → Q x) → All Q xs
All-from [] h = tt
All-from (x ∷ xs) h = (h x (inl refl), All-from xs (λ y m. h y (inr m)))

module _ (cmd : Command) (found : List EcnetInfo) where
  -- A control plane that was found, of the name that was given, if one was
  abbrev pub IsTarget : EcnetInfo → Type 0
  IsTarget m = Among m found × ((is_empty cmd.ecnet_name || m.name == cmd.ecnet_name) ≡ true)

  -- A change that the command may make
  abbrev pub IsAllowed : Change → Type 0
  IsAllowed (uninstall_release ns name) =
      (cmd.is_managed ≡ false)
      × ((m : EcnetInfo) × IsTarget m × (m.namespace ≡ ns) × (m.name ≡ name))
  IsAllowed (delete_namespace ns) =
      (cmd.is_managed ≡ false)
      × (cmd.delete_ns ≡ true)
      × ((m : EcnetInfo) × IsTarget m × (m.namespace ≡ ns))
  IsAllowed (delete_crd name) =
      (cmd.delete_cluster_wide_resources ≡ true) × (name ≡ codes "ecnetconfigs.config.flomesh.io")
  IsAllowed (delete_secret ns name) = ⊥

  prompt-IsTarget :
      (es : List EcnetInfo) (stdin : List Text) (chosen : List EcnetInfo)
      → All (λ m. Among m found) es
      → prompt_ecnet_uninstall cmd es stdin ≡ some chosen
      → All IsTarget chosen
  unfolding prompt_ecnet_uninstall
  prompt-IsTarget [] stdin chosen all h = subst (All IsTarget) (some-injective _ _ h) tt
  prompt-IsTarget (e ∷ es) stdin chosen all got =
      if_either (λ o. o ≡ some chosen → All IsTarget chosen)
        (ecnet_specified cmd && not (e.name == cmd.ecnet_name)) _ _
        (λ other h. prompt-IsTarget es stdin chosen all.1 h)
        (λ named.
          asked named (confirm stdin 3).0 (prompt_ecnet_uninstall cmd es (confirm stdin 3).1)
            (λ ms g. prompt-IsTarget es (confirm stdin 3).1 ms all.1 g))
        got
    where
      asked :
          (ecnet_specified cmd && not (e.name == cmd.ecnet_name)) ≡ false
          → (answer : Option Bool) (rest : Option (List EcnetInfo))
          → ((ms : List EcnetInfo) → rest ≡ some ms → All IsTarget ms)
          → (elim answer [
            | none ↦ none
            | some yes_said ↦ elim rest [
              | none ↦ none
              | some ms ↦ some (if yes_said then e ∷ ms else ms)
            ]
          ])
            ≡ some chosen
          → All IsTarget chosen
      asked named none rest from h = ground (arith, h)
      asked named (some b) none from h = ground (arith, h)
      asked named (some true) (some ms) from h =
          subst (All IsTarget) (some-injective _ _ h) ((all.0, ground (arith, named)), from ms refl)
      asked named (some false) (some ms) from h =
          subst (All IsTarget) (some-injective _ _ h) (from ms refl)

  module _ (cl : Cluster) where
    abbrev Fine : Option CliError × List Change → Type 0
    Fine r = All IsAllowed r.1

    delete_ns_of-IsAllowed :
        (m : EcnetInfo) (changes : List Change)
        → cmd.is_managed ≡ false
        → IsTarget m
        → All IsAllowed changes
        → Fine (delete_ns_of cl cmd m.namespace changes)
    unfolding delete_ns_of
    delete_ns_of-IsAllowed m changes free target all =
        if_either Fine cmd.delete_ns
          (
            deletion_error (cl.deletes (delete_namespace m.namespace ∷ changes)),
            delete_namespace m.namespace ∷ changes,
          )
          (none, changes) (λ e. ((free, e, (m, target, refl)), all)) (λ e. all)

    delete_cluster_resources-IsAllowed :
        (changes : List Change)
        → All IsAllowed changes
        → Fine (delete_cluster_resources cl cmd changes)
    unfolding delete_cluster_resources uninstall_cluster_resources delete_each
    delete_cluster_resources-IsAllowed changes all =
        if_either Fine (not cmd.delete_cluster_wide_resources) _ _ (λ e. all)
          (λ e. listed e (get_ecnet_info_list cl changes))
      where
        listed :
            not cmd.delete_cluster_wide_resources ≡ false
            → (o : Option (List EcnetInfo))
            → Fine (elim o [
              | none ↦ (some not_listed, changes)
              | some _ ↦ (
                if (uninstall_cluster_resources cl changes).0 then some resources_kept else none,
                (uninstall_cluster_resources cl changes).1,
              )
            ])
        listed e none = all
        listed e (some _) = ((ground (arith, e), refl), all)

    after_uninstall-IsAllowed :
        (r : Option CliError × List Change) → Fine r → Fine (after_uninstall cl cmd r)
    unfolding after_uninstall
    after_uninstall-IsAllowed (some e, changes) all = all
    after_uninstall-IsAllowed (none, changes) all = delete_cluster_resources-IsAllowed changes all

    uninstall_each-IsAllowed :
        (ms : List EcnetInfo) (changes : List Change)
        → cmd.is_managed ≡ false
        → All IsTarget ms
        → All IsAllowed changes
        → Fine (uninstall_each cl cmd ms changes)
    unfolding uninstall_each
    uninstall_each-IsAllowed [] changes free targets all = all
    uninstall_each-IsAllowed (m ∷ ms) changes free targets all =
        if_either Fine (not (cl.init_config changes m.namespace)) _ _ (λ e. all)
          (λ e.
            if_either Fine
              (not (cl.uninstalls (uninstall_release m.namespace m.name ∷ changes))
                && (not cmd.delete_cluster_wide_resources && not cmd.delete_ns))
              _ _ (λ e. asked)
              (λ e.
                goes_on
                  (delete_ns_of cl cmd m.namespace (uninstall_release m.namespace m.name ∷ changes))
                  (λ after h. uninstall_each-IsAllowed ms after free targets.1 h)
                  (delete_ns_of-IsAllowed m (uninstall_release m.namespace m.name ∷ changes) free
                    targets.0 asked)))
      where
        asked : All IsAllowed (uninstall_release m.namespace m.name ∷ changes)
        asked = ((free, (m, targets.0, refl, refl)), all)

        goes_on :
            (r : Option CliError × List Change)
            → ((after : List Change) → All IsAllowed after → Fine (uninstall_each cl cmd ms after))
            → Fine r
            → Fine (elim r.0 [ some e ↦ (some e, r.1) | none ↦ uninstall_each cl cmd ms r.1 ])
        goes_on (some e, after) rest h = h
        goes_on (none, after) rest h = rest after h

    run_found-IsAllowed :
        (stdin : List Text)
        → cmd.is_managed ≡ false
        → cmd.force ≡ false
        → Fine (run_found cl cmd stdin [] found)
    unfolding run_found
    run_found-IsAllowed stdin free unforced =
        if_either Fine
          (is_empty found || (ecnet_specified cmd && not (find_ecnet cmd.ecnet_name found)))
          (none, []) _ (λ e. tt)
          (λ e.
            if_either Fine cmd.force _ _ (λ f. absurd (ground (arith, f, unforced)))
              (λ f.
                printed (get_ecnet_info_list cl []) (prompt_ecnet_uninstall cmd found stdin)
                  (λ ms g. after_uninstall-IsAllowed (uninstall_each cl cmd ms []) (
                    uninstall_each-IsAllowed ms [] free
                      (prompt-IsTarget found stdin ms (All-from found (λ m at. at)) g) tt))))
      where
        printed :
            (o chosen : Option (List EcnetInfo))
            → ((ms : List EcnetInfo)
                → chosen ≡ some ms
                → Fine (after_uninstall cl cmd (uninstall_each cl cmd ms [])))
            → Fine (elim o [
              | none ↦ (some not_listed, [])
              | some _ ↦ elim chosen [
                | none ↦ (some not_answered, [])
                | some ms ↦ after_uninstall cl cmd (uninstall_each cl cmd ms [])
              ]
            ])
        printed none chosen h = tt
        printed (some _) none h = tt
        printed (some _) (some ms) h = h ms refl

-- Without `--force`, whatever is answered and however the cluster replies, the command only uninstalls
-- control planes that were found, each in its own namespace and of the name that was given if one was; it
-- only deletes namespaces of those, if it was told to; it deletes no custom resource definition but that
-- of the configuration, if it was told to; and in a managed environment it does only the last.
pub uninstalls-IsAllowed :
    (cmd : Command) (cl : Cluster) (stdin : List Text) (found : List EcnetInfo)
    → cmd.force ≡ false
    → get_ecnet_info_list cl [] ≡ some found
    → All (IsAllowed cmd found) (run_uninstall cl cmd stdin []).1
unfolding run_uninstall
uninstalls-IsAllowed cmd cl stdin found unforced listed =
    if_either (Fine cmd found cl) cmd.is_managed _ _
      (λ managed. delete_cluster_resources-IsAllowed cmd found cl [] tt)
      (λ free.
        subst
          (λ o. Fine cmd found cl (elim o [
            | none ↦ (some not_listed, [])
            | some infos ↦ run_found cl cmd stdin [] infos
          ]))
          (sym listed) (run_found-IsAllowed cmd found cl stdin free unforced))
