-- ===== src/Tests/Balancing.antt =====
-- Balancing between clusters, and the endpoints and target ports of imported services.
use erie_canal_net.Base.{
  ◌↔◌, insert, equal_fold, ◌≡◌, refl, true, [], ◌∷◌, none, some, codes, nat_eq, list_eq,
}
use erie_canal_net.Service.{namespaced_key}
use erie_canal_net.Multicluster.TrafficPolicy.{
  get_service_traffic_policy, get_lb_weight_for_service,
}
use erie_canal_net.Multicluster.ServiceImport.{Endpoints}
use erie_canal_net.Multicluster.Endpoints.{get_endpoints, get_target_port_for_service_port}
use erie_canal_net.Multicluster.Endpoints.Selection.{Selected, get_endpoints-subsets}
use erie_canal_net.Multicluster.Endpoints.TargetPorts.{untargeted_policies, target_ports_untargeted}
use erie_canal_net.Tests.Samples.{cart, balanced, cart_informers}

pub cart_endpoints : Endpoints
unfolding get_endpoints
cart_endpoints = elim (get_endpoints cart_informers cart) [
  | none ↦ record { namespace = []; name = []; annotations = []; subsets = [] }
  | some out ↦ out
]

pub cart_endpoints_found : get_endpoints cart_informers cart ≡ some cart_endpoints
unfolding get_endpoints cart_endpoints get_service_traffic_policy namespaced_key equal_fold
cart_endpoints_found = refl

get_endpoints_example :
    ((out : Endpoints) × (get_endpoints cart_informers cart ≡ some out)
      × (out.subsets ≡ cart_endpoints.subsets))
    ↔ Selected cart_informers cart cart_endpoints.subsets
get_endpoints_example = get_endpoints-subsets cart_informers cart cart_endpoints.subsets

target_ports_example :
    get_target_port_for_service_port cart_informers (codes "shop") (codes "cart") 8080
    ≡ get_target_port_for_service_port
        (record cart_informers { policies = untargeted_policies cart_informers.policies })
        (codes "shop")
        (codes "cart")
        8080
unfolding namespaced_key
target_ports_example =
    target_ports_untargeted cart_informers (codes "shop") (codes "cart") 8080 balanced refl refl
      refl

-- The port of cluster `c3`, which the policy does not name, is returned.
target_ports_run :
    get_target_port_for_service_port cart_informers (codes "shop") (codes "cart") 8080
    ≡ (80, true) ∷ (81, true) ∷ []
unfolding get_target_port_for_service_port get_lb_weight_for_service namespaced_key equal_fold
    insert
target_ports_run = refl
