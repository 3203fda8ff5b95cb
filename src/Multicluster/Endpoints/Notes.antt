-- ===== src/Multicluster/Endpoints/Notes.antt =====
-- The annotations that `GetEndpoints` of pkg/ecnet/service/multicluster/service_import.go writes.
use erie_canal_net.Base.{
  ℕ, ◌≡◌, refl, sym, ◌∙◌, subst, Bool, true, false, ◌&&◌, List, [], ◌∷◌, ◌++◌, Option, none, some,
  Text, arith, ◌==◌, nat_eq, list_eq, ==_iff, ==_refl, Assoc, lookup, insert, lookup-insert,
  any-append, is_digit, Option-cases, Bool-cases, inl, inr, All, Among, decimal, decimal-Free,
  decimal_injective, Free, only, if◌then◌else◌,
}
use erie_canal_net.Service.{MeshService, namespaced_key}
use erie_canal_net.Multicluster.TrafficPolicy.{locality, get_service_traffic_policy}
use erie_canal_net.Multicluster.ServiceImport.{
  ImportEndpoint, ImportPort, ServiceImport, Endpoints, Informers,
}
use erie_canal_net.Multicluster.Endpoints.{
  annotation_key, cluster_key_annotation, context_path_annotation, lb_type_annotation,
  lb_weight_annotation, annotate, kept_weight, add_endpoint, add_endpoints, no_endpoints,
  port_selected, endpoints_of_ports, endpoints_of_import, get_endpoints,
}

-- Two endpoints have one address and port.
abbrev pub same_target : ImportEndpoint → ImportEndpoint → Bool
same_target a b = a.ip == b.ip && a.port == b.port

abbrev target_text : ImportEndpoint → Text
target_text ep = ep.ip ++ b'/' ∷ decimal ep.port

-- The text behind the last slash has none.
last_slash :
    (s t u v : Text)
    → Free (only b'/') u
    → Free (only b'/') v
    → s ++ b'/' ∷ u ≡ t ++ b'/' ∷ v
    → (s ≡ t) × (u ≡ v)
last_slash [] [] u v fu fv e = (refl, ground (arith, e))
last_slash [] (y ∷ t) u v fu fv e =
    absurd (ground (arith, e, fu, any-append (only b'/') t (b'/' ∷ v)))
last_slash (x ∷ s) [] u v fu fv e =
    absurd (ground (arith, e, fv, any-append (only b'/') s (b'/' ∷ u)))
last_slash (x ∷ s) (y ∷ t) u v fu fv e =
    let (same, rest) = last_slash s t u v fu fv (ground (arith, e)) in
    (ground (arith, e, same), rest)

no_slash : (c : ℕ) → is_digit c ≡ true → only b'/' c ≡ false
no_slash c h = ground arith

-- Other targets have other texts.
target_text-ne :
    (a b : ImportEndpoint) → same_target a b ≡ false → (target_text a == target_text b) ≡ false
target_text-ne a b h = elim (Bool-cases (target_text a == target_text b)) [
  | inr e ↦ e
  | inl e ↦
      let (ip, port) =
        last_slash a.ip b.ip (decimal a.port) (decimal b.port)
          (decimal-Free (only b'/') a.port no_slash) (decimal-Free (only b'/') b.port no_slash)
          ((==_iff (target_text a) (target_text b)).0 e) in
      absurd (ground (arith, h, (==_iff a.ip b.ip).1 ip, decimal_injective a.port b.port port))
]

-- No two endpoints of a port have one address and port.
abbrev pub DistinctTargets : List ImportEndpoint → Type 0
DistinctTargets [] = Unit
DistinctTargets (ep ∷ eps) = All (λ other. same_target other ep ≡ false) eps × DistinctTargets eps

module _ (lb_type : Text) where
  -- The four annotations of an endpoint
  pub record Noted (ep : ImportEndpoint) (weight : ℕ) (notes : Assoc Text Text) : Type 0 where
    pub weight_note :
        lookup (annotation_key lb_weight_annotation ep.ip ep.port) notes ≡ some (decimal weight)
    pub type_note : lookup (annotation_key lb_type_annotation ep.ip ep.port) notes ≡ some lb_type
    pub path_note :
        lookup (annotation_key context_path_annotation ep.ip ep.port) notes ≡ some ep.path
    pub cluster_note :
        lookup (annotation_key cluster_key_annotation ep.ip ep.port) notes ≡ some ep.cluster_key

  module _ (ep : ImportEndpoint) (weight : ℕ) (notes : Assoc Text Text) where
    abbrev cluster_put : Assoc Text Text
    cluster_put = insert (annotation_key cluster_key_annotation ep.ip ep.port) ep.cluster_key notes

    abbrev path_put : Assoc Text Text
    path_put = insert (annotation_key context_path_annotation ep.ip ep.port) ep.path cluster_put

    abbrev type_put : Assoc Text Text
    type_put = insert (annotation_key lb_type_annotation ep.ip ep.port) lb_type path_put

    lookup-annotate :
        (key : Text)
        → lookup key (annotate lb_type ep weight notes) ≡ (
            if annotation_key lb_weight_annotation ep.ip ep.port == key
            then some (decimal weight)
            else if annotation_key lb_type_annotation ep.ip ep.port == key
            then some lb_type
            else if annotation_key context_path_annotation ep.ip ep.port == key
            then some ep.path
            else if annotation_key cluster_key_annotation ep.ip ep.port == key
            then some ep.cluster_key
            else lookup key notes)
    unfolding annotate
    lookup-annotate key =
        rw
          (
            lookup-insert (annotation_key lb_weight_annotation ep.ip ep.port) key (decimal weight)
                type_put,
            lookup-insert (annotation_key lb_type_annotation ep.ip ep.port) key lb_type path_put,
            lookup-insert (annotation_key context_path_annotation ep.ip ep.port) key ep.path
                cluster_put,
            lookup-insert (annotation_key cluster_key_annotation ep.ip ep.port) key ep.cluster_key
                notes,
          )
          refl

    Noted-annotate : Noted ep weight (annotate lb_type ep weight notes)
    Noted-annotate = record {
      weight_note =
          lookup-annotate (annotation_key lb_weight_annotation ep.ip ep.port)
          ∙ ground (arith, ==_refl (target_text ep));
      type_note =
          lookup-annotate (annotation_key lb_type_annotation ep.ip ep.port)
          ∙ ground (arith, ==_refl (target_text ep));
      path_note =
          lookup-annotate (annotation_key context_path_annotation ep.ip ep.port)
          ∙ ground (arith, ==_refl (target_text ep));
      cluster_note =
          lookup-annotate (annotation_key cluster_key_annotation ep.ip ep.port)
          ∙ ground (arith, ==_refl (target_text ep));
    }

    -- The annotations of another endpoint stay.
    Noted-keep :
        (old : ImportEndpoint) (w : ℕ)
        → same_target ep old ≡ false
        → Noted old w notes
        → Noted old w (annotate lb_type ep weight notes)
    Noted-keep old w other n =
        let ne = target_text-ne ep old other in
        record {
          weight_note =
              lookup-annotate (annotation_key lb_weight_annotation old.ip old.port)
              ∙ ground (arith, ne, n.weight_note);
          type_note =
              lookup-annotate (annotation_key lb_type_annotation old.ip old.port)
              ∙ ground (arith, ne, n.type_note);
          path_note =
              lookup-annotate (annotation_key context_path_annotation old.ip old.port)
              ∙ ground (arith, ne, n.path_note);
          cluster_note =
              lookup-annotate (annotation_key cluster_key_annotation old.ip old.port)
              ∙ ground (arith, ne, n.cluster_note);
        }

  module _ (svc : MeshService) (keys : Assoc Text ℕ) (p : ImportPort) where
    Noted-add_endpoint :
        (ep old : ImportEndpoint) (w : ℕ) (out : Endpoints) (kept : Option ℕ)
        → same_target ep old ≡ false
        → Noted old w out.annotations
        → Noted old w (add_endpoint lb_type p ep out kept).annotations
    unfolding add_endpoint
    Noted-add_endpoint ep old w out none other n = n
    Noted-add_endpoint ep old w out (some v) other n = Noted-keep ep v out.annotations old w other n

    Noted-add_endpoints :
        (eps : List ImportEndpoint) (old : ImportEndpoint) (w : ℕ) (out : Endpoints)
        → All (λ ep. same_target ep old ≡ false) eps
        → Noted old w out.annotations
        → Noted old w (add_endpoints svc lb_type keys p out eps).annotations
    unfolding add_endpoints
    Noted-add_endpoints [] old w out others n = n
    Noted-add_endpoints (ep ∷ eps) old w out others n =
        Noted-add_endpoints eps old w (add_endpoint lb_type p ep out (kept_weight svc keys ep))
          others.1 (Noted-add_endpoint ep old w out (kept_weight svc keys ep) others.0 n)

    pub Noted-added :
        (eps : List ImportEndpoint) (ep : ImportEndpoint) (w : ℕ) (out : Endpoints)
        → DistinctTargets eps
        → Among ep eps
        → kept_weight svc keys ep ≡ some w
        → Noted ep w (add_endpoints svc lb_type keys p out eps).annotations
    unfolding add_endpoints add_endpoint
    Noted-added [] ep w out d m k = elim m [ ]
    Noted-added (x ∷ eps) ep w out d (inl same) k =
        Noted-add_endpoints eps ep w (add_endpoint lb_type p x out (kept_weight svc keys x))
          (subst (λ y. All (λ z. same_target z y ≡ false) eps) (sym same) d.0)
          (subst
            (λ y. Noted ep w (add_endpoint lb_type p y out (kept_weight svc keys y)).annotations)
            same
            (subst (λ o. Noted ep w (add_endpoint lb_type p ep out o).annotations) (sym k)
              (Noted-annotate ep w out.annotations)))
    Noted-added (x ∷ eps) ep w out d (inr m) k =
        Noted-added eps ep w (add_endpoint lb_type p x out (kept_weight svc keys x)) d.1 m k

endpoints_of_ports-made :
    (svc : MeshService) (lb_type : Text) (keys : Assoc Text ℕ) (si : ServiceImport)
    (ps : List ImportPort) (out : Endpoints)
    → endpoints_of_ports svc lb_type keys si ps ≡ some out
    → (p : ImportPort) × Among p ps
      × (out ≡ add_endpoints svc lb_type keys p (no_endpoints si) p.endpoints)
unfolding endpoints_of_ports
endpoints_of_ports-made svc lb_type keys si [] out h = ground arith
endpoints_of_ports-made svc lb_type keys si (p ∷ ps) out h =
    elim (Bool-cases (port_selected svc si p)) [
      | inl e ↦ (p, inl refl, ground (arith, h, e))
      | inr e ↦
          let (q, m, made) =
            endpoints_of_ports-made svc lb_type keys si ps out (ground (arith, h, e)) in
          (q, inr m, made)
    ]

-- What `GetEndpoints` returns was made of the endpoints of a port of the import.
pub get_endpoints-made :
    (c : Informers) (svc : MeshService) (out : Endpoints)
    → get_endpoints c svc ≡ some out
    → (si : ServiceImport) × (p : ImportPort) × (c.import_by_key (namespaced_key svc) ≡ some si)
      × Among p si.ports
      × (out
          ≡ add_endpoints svc
              (get_service_traffic_policy c.policies svc).0
              (get_service_traffic_policy c.policies svc).1
              p
              (no_endpoints si)
              p.endpoints)
unfolding get_endpoints endpoints_of_import
get_endpoints-made c svc out h =
    elim (Bool-cases ((get_service_traffic_policy c.policies svc).0 == locality)) [
      | inl local ↦ ground arith
      | inr other ↦ elim (Option-cases (c.import_by_key (namespaced_key svc))) [
        | inl e ↦ ground arith
        | inr (si, e) ↦
            let (p, m, made) =
              endpoints_of_ports-made svc (get_service_traffic_policy c.policies svc).0
                (get_service_traffic_policy c.policies svc).1 si si.ports out (ground arith) in
            (si, p, e, m, made)
      ]
    ]
