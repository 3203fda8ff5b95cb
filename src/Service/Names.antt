-- ===== src/Service/Names.antt =====
-- What the names of pkg/ecnet/service/types.go say: a name gives back its parts.
use erie_canal_net.Base.{
  ℕ, ◌≡◌, refl, Bool, true, false, not, [], ◌∷◌, ◌++◌, Text, any, Free, only, split_by-Free,
  split_by-append, arith, nat_eq, list_eq,
}
use erie_canal_net.Service.{
  MeshService, subdomain, provider_key, label_char, name_char, IsLabel, IsName,
}

-- A test that no character of `s` passes.
pub any_weaken :
    (p q : ℕ → Bool) (s : Text)
    → ((c : ℕ) → p c ≡ false → q c ≡ false)
    → any p s ≡ false
    → any q s ≡ false
any_weaken p q [] sub h = refl
any_weaken p q (x ∷ s) sub h = ground (arith, sub x, any_weaken p q s sub)

pub IsLabel-Free :
    (p : ℕ → Bool) (s : Text) → ((c : ℕ) → label_char c ≡ true → p c ≡ false) → IsLabel s → Free p s
IsLabel-Free p s sep l =
    any_weaken (λ c. not (label_char c)) p s (λ c h. ground (arith, sep c)) l.chars

pub IsName-Free :
    (p : ℕ → Bool) (s : Text) → ((c : ℕ) → name_char c ≡ true → p c ≡ false) → IsName s → Free p s
IsName-Free p s sep l =
    any_weaken (λ c. not (name_char c)) p s (λ c h. ground (arith, sep c)) l.chars

pub IsLabel-dot : (s : Text) → IsLabel s → Free (only b'.') s
IsLabel-dot s l = IsLabel-Free (only b'.') s (λ c h. ground arith) l

module _ (ms : MeshService) where
  -- The name of a service behind a cluster IP has no subdomain and is its own provider key.
  pub plain_name : IsLabel ms.name → (subdomain ms ≡ []) × (provider_key ms ≡ ms.name)
  unfolding subdomain provider_key
  plain_name l = rw (split_by-Free (only b'.') ms.name (IsLabel-dot ms.name l)) (refl, refl)

  -- The name `host.service` of an instance of a headless service has the host as its subdomain and
  -- the service as its provider key.
  pub headless_name :
      (host key : Text)
      → IsLabel host
      → IsLabel key
      → ms.name ≡ host ++ b'.' ∷ key
      → (subdomain ms ≡ host) × (provider_key ms ≡ key)
  unfolding subdomain provider_key
  headless_name host key lh lk e =
      rw
        (
          e,
          split_by-append (only b'.') host key b'.' (IsLabel-dot host lh) refl,
          split_by-Free (only b'.') key (IsLabel-dot key lk),
        )
        (refl, refl)
