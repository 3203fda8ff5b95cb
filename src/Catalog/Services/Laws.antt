-- ===== src/Catalog/Services/Laws.antt =====
-- What service.go and endpoint.go of pkg/ecnet/catalog collect from the providers.
use erie_canal_net.Base.{
  ◌≡◌, refl, Bool, not, List, [], ◌∷◌, ◌++◌, arith, any, filterb, append_assoc, append-nil, ◌∙◌,
}
use erie_canal_net.Service.{MeshService}
use erie_canal_net.Catalog.Services.{
  ServiceProvider, MeshCatalog, Gathered, gather, gather_one, nothing_gathered, is_multicluster,
  same_service, append_if_imported, append_imported, append_providers, list_mesh_services,
}

-- The services of the given providers, in order.
abbrev pub all_services : List ServiceProvider → List MeshService
all_services [] = []
all_services (p ∷ ps) = p.list_services ++ all_services ps

abbrev pub other_provider : ServiceProvider → Bool
other_provider p = not (is_multicluster p)

-- Whether one of the imported services has the name and the namespace of `svc`.
abbrev pub is_imported : List MeshService → MeshService → Bool
is_imported mcs svc = any (same_service svc) mcs

services-gather :
    (g : Gathered) (ps : List ServiceProvider)
    → ((gather g ps).services ≡ g.services ++ all_services (filterb is_multicluster ps))
      × ((gather g ps).mc_services ≡ g.mc_services ++ all_services (filterb is_multicluster ps))
      × ((gather g ps).other_providers ≡ g.other_providers ++ filterb other_provider ps)
unfolding gather
services-gather g [] =
    ground (arith, append-nil g.services, append-nil g.mc_services, append-nil g.other_providers)
services-gather g (p ∷ ps) = ground (
  arith,
  services-gather (gather_one g p) ps,
  append_assoc g.services p.list_services (all_services (filterb is_multicluster ps)),
  append_assoc g.mc_services p.list_services (all_services (filterb is_multicluster ps)),
  append_assoc g.other_providers (p ∷ []) (filterb other_provider ps),
)

append_if_imported_lem :
    (services : List MeshService) (svc : MeshService) (mcs : List MeshService)
    → append_if_imported services svc mcs ≡ services ++ filterb (is_imported mcs) (svc ∷ [])
unfolding append_if_imported
append_if_imported_lem services svc [] = ground (arith, append-nil services)
append_if_imported_lem services svc (mc ∷ mcs) =
    ground (arith, append_if_imported_lem services svc mcs)

append_imported_lem :
    (mcs services svcs : List MeshService)
    → append_imported mcs services svcs ≡ services ++ filterb (is_imported mcs) svcs
unfolding append_imported
append_imported_lem mcs services [] = ground (arith, append-nil services)
append_imported_lem mcs services (svc ∷ svcs) = ground (
  arith,
  append_imported_lem mcs (append_if_imported services svc mcs) svcs,
  append_if_imported_lem services svc mcs,
  append-nil services,
  append_assoc services (svc ∷ []) (filterb (is_imported mcs) svcs),
)

filterb-append :
    (p : MeshService → Bool) (xs ys : List MeshService)
    → filterb p (xs ++ ys) ≡ filterb p xs ++ filterb p ys
filterb-append p [] ys = refl
filterb-append p (x ∷ xs) ys = ground (arith, filterb-append p xs ys)

append_providers_lem :
    (mcs services : List MeshService) (ps : List ServiceProvider)
    → append_providers mcs services ps ≡ services ++ filterb (is_imported mcs) (all_services ps)
unfolding append_providers
append_providers_lem mcs services [] = ground (arith, append-nil services)
append_providers_lem mcs services (p ∷ ps) =
    append_providers_lem mcs (append_imported mcs services p.list_services) ps
    ∙ simp (append_imported_lem, append_assoc, filterb-append)

imported_none : (svcs : List MeshService) → filterb (is_imported []) svcs ≡ []
imported_none [] = refl
imported_none (svc ∷ svcs) = imported_none svcs

-- The services of the mesh are, in order, those of the multi-cluster providers, and behind them those
-- of the other providers whose name and namespace one of the former has, whatever the order of the
-- providers.
pub list_mesh_services-eq :
    (mc : MeshCatalog)
    → list_mesh_services mc
      ≡ all_services (filterb is_multicluster mc.service_providers)
        ++ filterb
            (is_imported (all_services (filterb is_multicluster mc.service_providers)))
            (all_services (filterb other_provider mc.service_providers))
unfolding list_mesh_services
list_mesh_services-eq mc = ground (
  arith,
  services-gather nothing_gathered mc.service_providers,
  imported_none (all_services (filterb other_provider mc.service_providers)),
  append-nil (all_services (filterb is_multicluster mc.service_providers)),
  append_providers_lem (all_services (filterb is_multicluster mc.service_providers))
      (all_services (filterb is_multicluster mc.service_providers))
      (filterb other_provider mc.service_providers),
)
