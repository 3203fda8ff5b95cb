-- ===== src/Tests/Samples.antt =====
-- Services, policies and providers that the tests share.
use erie_canal_net.Base.{ℕ, [], ◌∷◌, none, some, Text, codes, ◌==◌, nat_eq, list_eq, if◌then◌else◌}
use erie_canal_net.Service.{MeshService}
use erie_canal_net.Multicluster.TrafficPolicy.{
  GlobalTrafficPolicy, Policies, active_active, get_lb_weight_for_service,
}
use erie_canal_net.Multicluster.ServiceImport.{ImportEndpoint, ServiceImport, Informers}
use erie_canal_net.Catalog.Services.{Endpoint, MeshCatalog, provider_name}

abbrev pub service_named : Text → Text → Text → MeshService
service_named name protocol uid = record {
  namespace = codes "shop";
  name = name;
  port = 8080;
  target_port = 80;
  protocol = protocol;
  service_import_uid = uid;
}

abbrev pub cart : MeshService
cart = service_named (codes "cart") (codes "http") []

abbrev pub cart_imported : MeshService
cart_imported = service_named (codes "cart") (codes "http") (codes "c2")

abbrev pub queue : MeshService
queue = service_named (codes "queue") (codes "tcp") []

abbrev pub db_0 : MeshService
db_0 = service_named (codes "db-0.db") (codes "tcp") []

abbrev pub balanced : GlobalTrafficPolicy
balanced = record {
  lb_type = active_active;
  load_balance_target =
      record { cluster_key = codes "c1"; weight = none }
      ∷ record { cluster_key = codes "c2"; weight = some 7 }
      ∷ [];
}

abbrev pub cart_policies : Policies
cart_policies key = if key == codes "shop/cart" then some balanced else none

abbrev pub endpoint_on : Text → ℕ → Text → ImportEndpoint
endpoint_on ip port key = record {
  host = codes "gw";
  ip = ip;
  port = port;
  path = codes "/cart";
  cluster_key = key;
}

abbrev pub cart_import : ServiceImport
cart_import = record {
  uid = codes "u1";
  namespace = codes "shop";
  name = codes "cart";
  ports =
      record {
        name = codes "web";
        protocol = codes "TCP";
        app_protocol = none;
        port = 8080;
        endpoints =
            endpoint_on (codes "10.0.0.1") 80 (codes "c1")
            ∷ endpoint_on (codes "10.0.0.2") 80 (codes "c2")
            ∷ endpoint_on (codes "10.0.0.3") 81 (codes "c3")
            ∷ [];
      }
      ∷ [];
  service_account_name = codes "cart";
}

abbrev pub cart_informers : Informers
cart_informers = record {
  policies = cart_policies;
  import_by_key = λ key. if key == codes "shop/cart" then some cart_import else none;
  imports = cart_import ∷ [];
}

abbrev pub remote_endpoint : Endpoint
remote_endpoint = record {
  ip = codes "10.0.0.2";
  port = 80;
  weight = 7;
  cluster_key = codes "c2";
  lb_type = active_active;
  path = codes "/cart";
}

abbrev pub shop_catalog : MeshCatalog
shop_catalog = record {
  service_providers =
      record { id = codes "kubernetes"; list_services = cart ∷ queue ∷ [] }
      ∷ record { id = provider_name; list_services = cart_imported ∷ [] }
      ∷ [];
  endpoints_providers =
      record {
        id = provider_name;
        list_endpoints_for_service = λ _. remote_endpoint ∷ [];
        get_resolvable_endpoints_for_service = λ _. remote_endpoint ∷ [];
      }
      ∷ [];
  get_lb_weight = get_lb_weight_for_service cart_policies;
}
