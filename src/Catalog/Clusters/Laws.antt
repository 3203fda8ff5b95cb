-- ===== src/Catalog/Clusters/Laws.antt =====
-- The clusters of the wildcard route (outbound_traffic_policies.go of pkg/ecnet/catalog).
use erie_canal_net.Base.{
  ◌≡◌, refl, Bool, true, false, ◌||◌, List, [], ◌∷◌, ◌++◌, Text, arith, ◌==◌, nat_eq, list_eq,
  ==_iff, any, any-append, ◌∙◌, if◌then◌else◌, inl, inr, Bool-cases,
}
use erie_canal_net.Service.{WeightedCluster}
use erie_canal_net.Policy.{HttpRouteMatchWithWeightedClusters}
use erie_canal_net.Catalog.Clusters.{
  add_unseen, accept_all_weight, add_matches, get_wild_card_route_upstream_clusters,
}

-- A cluster of the given name is in the list.
abbrev pub has_name : Text → List WeightedCluster → Bool
has_name n cs = any (λ o. o.cluster_name == n) cs

-- No two clusters have one name.
abbrev pub NamesDistinct : List WeightedCluster → Type 0
NamesDistinct [] = Unit
NamesDistinct (c ∷ cs) = (has_name c.cluster_name cs ≡ false) × NamesDistinct cs

-- One of the matches that count has a cluster of the given name: the matches of a traffic split do
-- not count where the wildcard is the split's.
abbrev pub match_has_name : Bool → Text → HttpRouteMatchWithWeightedClusters → Bool
match_has_name has_wild_card n m =
    if has_wild_card
    then (if m.has_split_matches then false else has_name n m.upstream_clusters)
    else has_name n m.upstream_clusters

NamesDistinct-append :
    (cs : List WeightedCluster) (c : WeightedCluster)
    → NamesDistinct cs
    → has_name c.cluster_name cs ≡ false
    → NamesDistinct (cs ++ c ∷ [])
NamesDistinct-append [] c d h = (refl, tt)
NamesDistinct-append (x ∷ cs) c d h = (
  ground (
    arith,
    any-append (named x.cluster_name) cs (c ∷ []),
    ==_iff x.cluster_name c.cluster_name,
    ==_iff c.cluster_name x.cluster_name,
    d.0,
  ),
  NamesDistinct-append cs c d.1 (ground arith),
)
  where
    named : Text → WeightedCluster → Bool
    named n o = o.cluster_name == n

has_name-append :
    (n : Text) (cs : List WeightedCluster) (c : WeightedCluster)
    → has_name n (cs ++ c ∷ []) ≡ (has_name n cs || c.cluster_name == n)
has_name-append n [] c = ground arith
has_name-append n (x ∷ cs) c = ground (arith, has_name-append n cs c)

-- A name that is there already adds nothing.
known_name :
    (n m : Text) (out cs : List WeightedCluster)
    → has_name m out ≡ true
    → (has_name n out || has_name n cs) ≡ (has_name n out || (m == n || has_name n cs))
known_name n m out cs old = elim (Bool-cases (m == n)) [
  | inl e ↦ rw (← (==_iff m n).0 e, old)
  | inr e ↦ rw e
]

module _ (weigh : WeightedCluster → WeightedCluster)
    (keeps : (c : WeightedCluster) → (weigh c).cluster_name ≡ c.cluster_name) where
  add_unseen-NamesDistinct :
      (out cs : List WeightedCluster) → NamesDistinct out → NamesDistinct (add_unseen weigh out cs)
  unfolding add_unseen
  add_unseen-NamesDistinct out [] d = d
  add_unseen-NamesDistinct out (c ∷ cs) d = elim (Bool-cases (has_name c.cluster_name out)) [
    | inl old ↦ rw old (add_unseen-NamesDistinct out cs d)
    | inr new ↦ rw new (
        add_unseen-NamesDistinct (out ++ weigh c ∷ []) cs
          (NamesDistinct-append out (weigh c) d (rw (keeps c) new)))
  ]

  has_name-add_unseen :
      (n : Text) (out cs : List WeightedCluster)
      → has_name n (add_unseen weigh out cs) ≡ (has_name n out || has_name n cs)
  unfolding add_unseen
  has_name-add_unseen n out [] = ground arith
  has_name-add_unseen n out (c ∷ cs) = elim (Bool-cases (has_name c.cluster_name out)) [
    | inl old ↦ rw old (has_name-add_unseen n out cs ∙ known_name n c.cluster_name out cs old)
    | inr new ↦ rw new (
        has_name-add_unseen n (out ++ weigh c ∷ []) cs
        ∙ ground (arith, has_name-append n out (weigh c), keeps c))
  ]

abbrev matches_have_name : Bool → Text → List HttpRouteMatchWithWeightedClusters → Bool
matches_have_name has_wild_card n ms = any (match_has_name has_wild_card n) ms

has_name-add_matches :
    (n : Text) (w : Bool) (out : List WeightedCluster)
    (ms : List HttpRouteMatchWithWeightedClusters)
    → has_name n (add_matches w out ms) ≡ (has_name n out || matches_have_name w n ms)
unfolding add_matches
has_name-add_matches n true out [] = ground arith
has_name-add_matches n false out [] = ground arith
has_name-add_matches n true out (m ∷ ms) = elim (Bool-cases m.has_split_matches) [
  | inl e ↦ rw e (has_name-add_matches n true out ms)
  | inr e ↦ rw e (
      has_name-add_matches n true (add_unseen (λ c. c) out m.upstream_clusters) ms
      ∙ ground (arith, has_name-add_unseen (λ c. c) (λ c. refl) n out m.upstream_clusters))
]
has_name-add_matches n false out (m ∷ ms) =
    has_name-add_matches n false (add_unseen accept_all_weight out m.upstream_clusters) ms
    ∙ ground (arith, has_name-add_unseen accept_all_weight (λ c. refl) n out m.upstream_clusters)

NamesDistinct-add_matches :
    (w : Bool) (out : List WeightedCluster) (ms : List HttpRouteMatchWithWeightedClusters)
    → NamesDistinct out
    → NamesDistinct (add_matches w out ms)
unfolding add_matches
NamesDistinct-add_matches true out [] d = d
NamesDistinct-add_matches false out [] d = d
NamesDistinct-add_matches true out (m ∷ ms) d = elim (Bool-cases m.has_split_matches) [
  | inl e ↦ rw e (NamesDistinct-add_matches true out ms d)
  | inr e ↦ rw e (
      NamesDistinct-add_matches true (add_unseen (λ c. c) out m.upstream_clusters) ms
        (add_unseen-NamesDistinct (λ c. c) (λ c. refl) out m.upstream_clusters d))
]
NamesDistinct-add_matches false out (m ∷ ms) d =
    NamesDistinct-add_matches false (add_unseen accept_all_weight out m.upstream_clusters) ms
      (add_unseen-NamesDistinct accept_all_weight (λ c. refl) out m.upstream_clusters d)

-- The clusters of the wildcard route have distinct names, and those names are just the names of the
-- clusters of the route matches that count: with a wildcard in the traffic split, the matches that
-- are no split's; without, all.
pub wild_card_clusters :
    (w : Bool) (ms : List HttpRouteMatchWithWeightedClusters)
    → NamesDistinct (get_wild_card_route_upstream_clusters w ms)
      × ((n : Text)
          → has_name n (get_wild_card_route_upstream_clusters w ms) ≡ any (match_has_name w n) ms)
unfolding get_wild_card_route_upstream_clusters
wild_card_clusters w ms =
    (NamesDistinct-add_matches w [] ms tt, λ n. has_name-add_matches n w [] ms)
