-- ===== src/Tests/Adding.antt =====
-- An API server that merges patches, and the namespaces added through it.
use erie_canal_net.Base.{
  ◌≡◌, refl, ap, ◌∙◌, true, false, ◌||◌, List, [], ◌∷◌, Option, none, some, Text, codes, ◌==◌,
  nat_eq, list_eq, if◌then◌else◌, Assoc, lookup, insert, remove, lookup-insert, lookup-remove,
  ==_refl, arith,
}
use erie_canal_net.Cli.Namespaces.{
  Namespace, Patch, Api, monitor_label, ignore_label, namespace_add, namespace_remove, row_of,
}
use erie_canal_net.Cli.Namespaces.Patches.{
  AllAdditions, namespace_add-AllAdditions, Merges, added_to, removed_from, add_then_remove,
}

-- The first change of a key is made.
abbrev merge : Assoc Text (Option Text) → Assoc Text Text → Assoc Text Text
merge [] labels = labels
merge ((key, none) ∷ changes) labels = remove key (merge changes labels)
merge ((key, some t) ∷ changes) labels = insert key t (merge changes labels)

lookup-merge :
    (key : Text) (changes : Assoc Text (Option Text)) (labels : Assoc Text Text)
    → lookup key (merge changes labels)
      ≡ elim (lookup key changes) [ none ↦ lookup key labels | some change ↦ change ]
unfolding lookup
lookup-merge key [] labels = refl
lookup-merge key ((k, none) ∷ changes) labels =
    ground (arith, lookup-remove k key (merge changes labels), lookup-merge key changes labels)
lookup-merge key ((k, some t) ∷ changes) labels =
    ground (arith, lookup-insert k key t (merge changes labels), lookup-merge key changes labels)

abbrev shop : Namespace
shop = record { name = codes "shop"; labels = (codes "team", codes "a") ∷ []; annotations = [] }

abbrev patched : Patch → Option Namespace → Option Namespace
patched p none = none
patched p (some n) = some (record n { labels = merge p.labels n.labels })

abbrev namespace_at : List Patch → Text → Option Namespace
namespace_at [] name = if name == codes "shop" then some shop else none
namespace_at (p ∷ patches) name =
    let n = namespace_at patches name in if p.target == name then patched p n else n

abbrev server : Api
server = record {
  list_meshes = λ _ _. some 1;
  list_controllers = λ _ _. some 0;
  get_namespace = namespace_at;
  accepts = λ _. true;
}

server-Merges : Merges server
server-Merges = record {
  merged = λ p before n ok at. (
    record n { labels = merge p.labels n.labels },
    ap (λ b. if b then patched p (namespace_at before p.target) else namespace_at before p.target)
          (==_refl p.target)
        ∙ ap (patched p) at,
    λ key. lookup-merge key p.labels n.labels,
  );
}

namespace_add_example :
    AllAdditions server
      (codes "ecnet")
      false
      (namespace_add server (codes "ecnet") false (codes "shop" ∷ codes "none" ∷ []) []).1
namespace_add_example =
    namespace_add-AllAdditions server (codes "ecnet") false (codes "shop" ∷ codes "none" ∷ []) [] tt

add_then_remove_example :
    (namespace_remove server
        (codes "ecnet")
        (codes "shop")
        (added_to server (codes "ecnet") false (codes "shop") [])
      ≡ (none, removed_from server (codes "ecnet") false (codes "shop") []))
    × ((after : Namespace) × (namespace_at
            (removed_from server (codes "ecnet") false (codes "shop") [])
            (codes "shop")
          ≡ some after)
        × (lookup (codes "team") after.labels ≡ (
            if monitor_label == codes "team" || ignore_label == codes "team"
            then none
            else lookup (codes "team") shop.labels)))
add_then_remove_example =
    add_then_remove server (codes "ecnet") false (codes "shop") [] shop (codes "team") server-Merges
      refl refl refl

-- A namespace whose ignore label is false is listed as ignored, and can be added.
abbrev kept : Namespace
kept = record shop { labels = (ignore_label, codes "false") ∷ [] }

listed_row : (row_of kept).injection ≡ codes "disabled (ignored)"
unfolding lookup
listed_row = refl
