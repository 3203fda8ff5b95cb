-- ===== src/Tests/Imported.antt =====
-- The endpoints that the provider of imported services lists.
use erie_canal_net.Base.{
  insert, ◌≡◌, refl, inl, inr, true, subst, sym, equal_fold, decimal, Assoc, Option, ap, [], ◌∷◌,
  none, some, Text, arith, codes, nat_eq, list_eq, ◌==◌, Among, Bool, ℕ, lookup, ◌<◌, ◌^◌,
  if◌then◌else◌,
}
use erie_canal_net.Service.{namespaced_key, subdomain}
use erie_canal_net.Multicluster.TrafficPolicy.{get_service_traffic_policy}
use erie_canal_net.Multicluster.ServiceImport.{ServiceImport, ImportPort}
use erie_canal_net.Multicluster.Endpoints.{get_endpoints}
use erie_canal_net.Multicluster.Endpoints.Notes.{DistinctTargets}
use erie_canal_net.Catalog.Services.{Endpoint}
use erie_canal_net.Providers.Fsm.{list_endpoints_for_service, imported_endpoint}
use erie_canal_net.Providers.Subsets.{endpoints_of_subsets}
use erie_canal_net.Providers.Fsm.Carried.{Carried, imported_endpoints_carry}
use erie_canal_net.Tests.Balancing.{cart_endpoints, cart_endpoints_found}
use erie_canal_net.Tests.Samples.{cart, cart_import, cart_informers, remote_endpoint}

abbrev is_ip : Text → Bool
is_ip _ = true

-- The endpoint of the cluster whose weight the policy leaves out
abbrev unweighted_endpoint : Endpoint
unweighted_endpoint = record remote_endpoint {
  ip = codes "10.0.0.1";
  weight = 0;
  cluster_key = codes "c1";
}

cart_listed :
    list_endpoints_for_service is_ip cart_informers cart
    ≡ unweighted_endpoint ∷ remote_endpoint ∷ []
unfolding list_endpoints_for_service get_endpoints get_service_traffic_policy namespaced_key
    equal_fold endpoints_of_subsets insert lookup subdomain imported_endpoint decimal
cart_listed = refl

remote-Among : Among remote_endpoint (list_endpoints_for_service is_ip cart_informers cart)
remote-Among = rw cart_listed (inr (inl refl))

abbrev cart_keys : Assoc Text ℕ
cart_keys = (codes "c1", 0) ∷ (codes "c2", 7) ∷ []

keys_found : (get_service_traffic_policy cart_informers.policies cart).1 ≡ cart_keys
unfolding get_service_traffic_policy namespaced_key insert
keys_found = refl

small_weights :
    (first second : Bool) (v : ℕ)
    → (if first then some 0 else if second then some 7 else none) ≡ some v
    → v < 2 ^ 32
small_weights first second v h = ground arith

cart_weights :
    (key : Text) (v : ℕ)
    → lookup key (get_service_traffic_policy cart_informers.policies cart).1 ≡ some v
    → v < 2 ^ 32
unfolding lookup
cart_weights key v h =
    small_weights (codes "c1" == key) (codes "c2" == key) v
      (subst (λ keys. lookup key keys ≡ some v) keys_found h)

import_or_cart : Option ServiceImport → ServiceImport
import_or_cart none = cart_import
import_or_cart (some si) = si

cart_targets :
    (si : ServiceImport) (p : ImportPort)
    → cart_informers.import_by_key (namespaced_key cart) ≡ some si
    → Among p si.ports
    → DistinctTargets p.endpoints
unfolding namespaced_key import_or_cart
cart_targets si p e m = of_cart (subst (λ o. Among p o.ports) (sym (ap import_or_cart e)) m)
  where
    of_cart : Among p cart_import.ports → DistinctTargets p.endpoints
    of_cart (inl same) =
        subst (λ q. DistinctTargets q.endpoints) (sym same)
          ((refl, (refl, tt)), ((refl, tt), (tt, tt)))
    of_cart (inr none_left) = elim none_left [ ]

imported_carry_example : Carried is_ip cart_informers cart remote_endpoint
imported_carry_example =
    imported_endpoints_carry is_ip cart_informers cart cart_endpoints cart_endpoints_found
      cart_targets cart_weights remote_endpoint remote-Among
