-- ===== src/Tests/Dns.antt =====
-- The DNS maps of a node.
use erie_canal_net.Base.{
  Option, ◌==◌, if◌then◌else◌, lookup, insert, ℕ, ◌≡◌, refl, Bool, true, [], ◌∷◌, none, some, Text,
  codes, Assoc, nat_eq, list_eq,
}
use erie_canal_net.Service.{subdomain, MeshService}
use erie_canal_net.Multicluster.ServiceImport.{CoreService, Endpoints}
use erie_canal_net.Policy.{OutboundTrafficPolicy, OutboundMeshTrafficPolicy}
use erie_canal_net.Dataplane.Dns.{update_endpoint, KubeController, sync_dns_endpoints}
use erie_canal_net.Dataplane.Dns.Plane.{ends_in_dot}
use erie_canal_net.Dataplane.Dns.Records.{Unknown, sync_dns_endpoints-Unknown}

abbrev cart_policy : OutboundTrafficPolicy Unit
cart_policy = record {
  name = codes "cart";
  hostnames = codes "cart.shop" ∷ codes "cart.shop:8080" ∷ [];
  routes = [];
}

abbrev cart_mesh : OutboundMeshTrafficPolicy Unit
cart_mesh = record {
  traffic_matches = [];
  http_route_configs_per_port = (8080, cart_policy ∷ []) ∷ [];
  clusters_configs = [];
  services_resolvable_set = [];
}

abbrev old_names : Assoc Text ℕ
old_names = (codes "old.shop", 1) ∷ []

-- A name is its own key, if it ends in a dot.
abbrev pack_text : Text → Option Text
pack_text n = if ends_in_dot n then some n else none

abbrev old_plane : Text → Bool
old_plane k = k == codes "old.shop."

abbrev dns : MeshService
dns = record {
  namespace = codes "system";
  name = codes "dns";
  port = 53;
  target_port = 0;
  protocol = codes "udp";
  service_import_uid = [];
}

abbrev dns_service : CoreService
dns_service = record {
  uid = codes "u";
  namespace = codes "system";
  name = codes "dns";
  service_type = codes "ClusterIP";
  selector = [];
  cluster_ip = codes "10.96.0.10";
  cluster_ips = [];
  ports = [];
}

abbrev dns_endpoints : Endpoints
dns_endpoints = record {
  namespace = codes "system";
  name = codes "dns";
  annotations = [];
  subsets =
      record {
        addresses = record { ip = codes "10.0.0.9"; hostname = [] } ∷ [];
        ports = record { name = []; protocol = codes "UDP"; app_protocol = none; port = 53 } ∷ [];
      }
      ∷ [];
}

abbrev controller : KubeController
controller = record {
  get_service = λ _. some dns_service;
  get_endpoints = λ _. some (some dns_endpoints);
}

abbrev any_ip : Text → Bool
any_ip _ = true

-- The endpoint is written, and not recorded.
first_sync :
    sync_dns_endpoints any_ip controller dns []
    ≡ some ([], update_endpoint (codes "10.0.0.9") (codes "10.96.0.10") ∷ [])
unfolding sync_dns_endpoints subdomain insert lookup
first_sync = refl

new_endpoints_example :
    Unknown (codes "10.0.0.9") ([], update_endpoint (codes "10.0.0.9") (codes "10.96.0.10") ∷ [])
unfolding lookup
new_endpoints_example =
    sync_dns_endpoints-Unknown any_ip controller dns []
      ([], update_endpoint (codes "10.0.0.9") (codes "10.96.0.10") ∷ []) (codes "10.0.0.9") refl
      first_sync
