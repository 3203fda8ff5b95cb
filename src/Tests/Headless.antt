-- ===== src/Tests/Headless.antt =====
-- The mesh services of a headless service.
use erie_canal_net.K8s.Hostnames.{is_headless_ip}
use erie_canal_net.Base.{
  Bool, ◌↔◌, Among, has_prefix, ℕ, ◌≡◌, refl, true, [], ◌∷◌, none, some, Text, codes, nat_eq,
  list_eq, inr,
}
use erie_canal_net.Service.{MeshService, IsLabel}
use erie_canal_net.Multicluster.ServiceImport.{CoreService, CoreServicePort, Endpoints}
use erie_canal_net.K8s.Client.{
  get_target_port_from_endpoints, plain_service, get_endpoints, Informers, service_to_mesh_services,
  get_target_port_for_service_port,
}
use erie_canal_net.K8s.Client.Siblings.{Labelled, OfPorts, service_to_mesh_services-OfPorts}
use erie_canal_net.Providers.Kube.{endpoint_at, list_endpoints_for_service}
use erie_canal_net.Providers.Kube.Listed.{IsFound, list_endpoints_for_service_iff}

abbrev service_port : Text → ℕ → CoreServicePort
service_port name port = record {
  name = name;
  protocol = codes "TCP";
  app_protocol = none;
  port = port;
  target_port = 0;
}

abbrev db_service : CoreService
db_service = record {
  uid = codes "u";
  namespace = codes "shop";
  name = codes "db";
  service_type = codes "ClusterIP";
  selector = [];
  cluster_ip = codes "None";
  cluster_ips = codes "None" ∷ [];
  ports = service_port (codes "tcp-db") 5432 ∷ service_port (codes "stats") 9090 ∷ [];
}

abbrev db_endpoints : Endpoints
db_endpoints = record {
  namespace = codes "shop";
  name = codes "db";
  annotations = [];
  subsets =
      record {
        addresses =
            record { ip = codes "10.0.0.1"; hostname = codes "db-0" }
            ∷ record { ip = codes "10.0.0.2"; hostname = codes "db-1" }
            ∷ [];
        ports =
            record {
              name = codes "tcp-db";
              protocol = codes "TCP";
              app_protocol = none;
              port = 15432;
            }
            ∷ record {
              name = codes "stats";
              protocol = codes "TCP";
              app_protocol = none;
              port = 19090;
            }
            ∷ [];
      }
      ∷ [];
}

abbrev db_client : Informers
db_client = record {
  is_monitored_namespace = λ _. true;
  services = db_service ∷ [];
  pods = [];
  service_by_key = λ _. some (some db_service);
  endpoints_by_key = λ _. some (some db_endpoints);
}

db_label : IsLabel (codes "db")
db_label = record { present = refl; chars = refl }

db-Labelled : (key : Text) → Labelled (some db_endpoints)
db-Labelled key = (
  (
    inr (record { present = refl; chars = refl }),
    (inr (record { present = refl; chars = refl }), tt),
  ),
  tt,
)

headless_services_example :
    OfPorts db_service db_label db_client db_service.ports
      (service_to_mesh_services db_client db_service)
headless_services_example =
    service_to_mesh_services-OfPorts db_client db_service db_label db-Labelled

abbrev any_ip : Text → Bool
any_ip _ = true

abbrev db_1 : MeshService
db_1 = record {
  namespace = codes "shop";
  name = codes "db-1.db";
  port = 5432;
  target_port = 15432;
  protocol = codes "tcp";
  service_import_uid = [];
}

-- A host of the headless service has its own address.
listed_example :
    Among (endpoint_at (codes "10.0.0.2") 15432) (list_endpoints_for_service any_ip db_client db_1)
    ↔ IsFound any_ip db_1 (endpoint_at (codes "10.0.0.2") 15432) (get_endpoints db_client db_1)
listed_example =
    list_endpoints_for_service_iff any_ip db_1 (endpoint_at (codes "10.0.0.2") 15432) db_client

abbrev host : Text → ℕ → ℕ → Text → MeshService
host name port target_port protocol = record {
  namespace = codes "shop";
  name = name;
  port = port;
  target_port = target_port;
  protocol = protocol;
  service_import_uid = [];
}

-- Two hosts on each of two ports
four_services :
    service_to_mesh_services db_client db_service
    ≡ host (codes "db-0.db") 5432 15432 (codes "tcp")
      ∷ host (codes "db-1.db") 5432 15432 (codes "tcp")
      ∷ host (codes "db-0.db") 9090 19090 (codes "http")
      ∷ host (codes "db-1.db") 9090 19090 (codes "http")
      ∷ []
unfolding service_to_mesh_services get_endpoints is_headless_ip plain_service
    get_target_port_from_endpoints has_prefix
four_services = refl

target_port_named : get_target_port_for_service_port db_client (codes "shop/db") 9090 ≡ some 19090
unfolding get_target_port_for_service_port
target_port_named = refl
