-- ===== src/Tests/Naming.antt =====
-- Names of services, clusters, traffic matches and hosts.
use erie_canal_net.Base.{
  false, decimal, ◌≡◌, refl, [], ◌∷◌, none, some, codes, arith, map, to_lower,
}
use erie_canal_net.Service.{IsLabel, IsName, cluster_name, outbound_traffic_match_name}
use erie_canal_net.Policy.{TrafficMatch}
use erie_canal_net.K8s.Hostnames.{split_host_name, get_hostnames_for_service}
use erie_canal_net.K8s.Hostnames.Laws.{split_host_name-hostnames}
use erie_canal_net.Ctrlplane.Names.{cluster_to_mesh_svc, traffic_match_to_mesh_svc}
use erie_canal_net.Ctrlplane.Names.Laws.{
  cluster_to_mesh_svc-cluster_name, traffic_match_to_mesh_svc-name,
}
use erie_canal_net.Tests.Samples.{cart}

shop_IsLabel : IsLabel (codes "shop")
shop_IsLabel = record { present = refl; chars = refl }

cart_IsLabel : IsLabel (codes "cart")
cart_IsLabel = record { present = refl; chars = refl }

cart_IsName : IsName (codes "cart")
cart_IsName = record { present = refl; chars = refl }

host_IsLabel : IsLabel (codes "db-0")
host_IsLabel = record { present = refl; chars = refl }

db_IsLabel : IsLabel (codes "db")
db_IsLabel = record { present = refl; chars = refl }

cluster_name_example :
    cluster_to_mesh_svc (cluster_name cart)
    ≡ some (record cart { port = 0; protocol = []; service_import_uid = [] })
cluster_name_example = cluster_to_mesh_svc-cluster_name cart shop_IsLabel cart_IsName (omega arith)

abbrev cart_match : TrafficMatch
cart_match = record {
  destination_port = 8080;
  destination_protocol = codes "HTTP";
  name = outbound_traffic_match_name cart;
  weighted_clusters = [];
}

traffic_match_example :
    traffic_match_to_mesh_svc cart_match
    ≡ some (record cart { port = 0; target_port = 8080; protocol = codes "http" })
unfolding to_lower
traffic_match_example =
    traffic_match_to_mesh_svc-name cart shop_IsLabel cart_IsName cart_match refl refl refl
      (omega arith)

cluster_name_text : cluster_name cart ≡ codes "shop/cart|80"
unfolding cluster_name decimal
cluster_name_text = refl

hostnames_example :
    map (split_host_name none) (get_hostnames_for_service (codes "cluster.local") cart false)
    ≡ (codes "cart", [])
      ∷ (codes "cart", [])
      ∷ (codes "cart", [])
      ∷ (codes "cart", [])
      ∷ (codes "shop", codes "cart")
      ∷ (codes "shop", codes "cart")
      ∷ (codes "cart", [])
      ∷ (codes "cart", [])
      ∷ []
hostnames_example = split_host_name-hostnames cart cart_IsLabel shop_IsLabel
