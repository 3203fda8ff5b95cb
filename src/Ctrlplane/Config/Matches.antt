-- ===== src/Ctrlplane/Config/Matches.antt =====
-- The traffic matches that `newTrafficMatch` of policy.go in pkg/ecnet/bridge/ctrlplane/server shares
-- between the two maps of the outbound policy.
use erie_canal_net.Base.{
  ℕ, ◌+◌, ◌<◌, ◌≡◌, refl, ◌∙◌, sym, ap, Bool, true, false, List, [], ◌∷◌, ◌++◌, none, some, Text,
  arith, ◌==◌, nat_eq, list_eq, ==_iff, ==_refl, lookup, insert, lookup-insert, length,
  length-append, any-append, only, split_by, split_by-append, decimal, decimal-Free,
  decimal_injective, inl, inr, Bool-cases, Option-cases, contains, if◌then◌else◌, has_key,
}
use erie_canal_net.Service.{first}
use erie_canal_net.Ctrlplane.Config.{
  OutboundTrafficPolicy, named_port, matches_at, new_match, new_policy, new_traffic_match,
}

named_port-decimal :
    (p q : ℕ) (m n : Text) → named_port p m ≡ named_port q n → decimal p ≡ decimal q
named_port-decimal p q m n e =
    let start : (r : ℕ) (s : Text) → first (split_by (only b'=') (named_port r s)) ≡ decimal r =
      λ r s.
        rw
          (split_by-append (only b'=') (decimal r) s b'='
            (decimal-Free (only b'=') r (λ c h. ground arith)) refl)
          refl in
    sym (start p m) ∙ (ap (λ s. first (split_by (only b'=') s)) e ∙ start q n)

named_port-port : (p q : ℕ) (m n : Text) → named_port p m ≡ named_port q n → p ≡ q
named_port-port p q m n e = decimal_injective p q (named_port-decimal p q m n e)

-- The positions that the map of ports has for a port.
abbrev pub bucket : OutboundTrafficPolicy → ℕ → List ℕ
bucket otp port = matches_at (lookup port otp.traffic_matches)

-- Each named match is an object, stands under its port in the map of ports, and has one name.
pub record Shared (otp : OutboundTrafficPolicy) : Type 0 where
  pub allocated :
      (key : Text) (ptr : ℕ)
      → lookup key otp.named_traffic_matches ≡ some ptr
      → ptr < length otp.matches
  pub listed :
      (port : ℕ) (name : Text) (ptr : ℕ)
      → lookup (named_port port name) otp.named_traffic_matches ≡ some ptr
      → contains ptr (bucket otp port) ≡ true
  pub one_name :
      (a b : Text) (ptr : ℕ)
      → lookup a otp.named_traffic_matches ≡ some ptr
      → lookup b otp.named_traffic_matches ≡ some ptr
      → a ≡ b

pub new_policy-Shared : Shared new_policy
unfolding lookup
new_policy-Shared = record {
  allocated = λ key ptr h. ground arith;
  listed = λ port name ptr h. ground arith;
  one_name = λ a b ptr h k. ground arith;
}

contains-append : (x : ℕ) (xs ys : List ℕ) → contains x xs ≡ true → contains x (xs ++ ys) ≡ true
contains-append x xs ys h = rw (any-append (is x) xs ys) (ground arith)
  where
    is : ℕ → ℕ → Bool
    is x y = y == x

contains-last : (x : ℕ) (xs : List ℕ) → contains x (xs ++ x ∷ []) ≡ true
contains-last x [] = ground (arith, ==_refl x)
contains-last x (y ∷ xs) = ground (arith, contains-last x xs)

module _ (port : ℕ) (name : Text) (otp : OutboundTrafficPolicy) where
  -- the policy of the other branch
  with_match : OutboundTrafficPolicy
  with_match = record otp {
    matches = otp.matches ++ new_match ∷ [];
    named_traffic_matches =
        insert (named_port port name) (length otp.matches) otp.named_traffic_matches;
    traffic_matches =
        insert port (matches_at (lookup port otp.traffic_matches) ++ length otp.matches ∷ [])
          otp.traffic_matches;
  }

  bucket-with_match :
      (q : ℕ)
      → bucket with_match q
        ≡ (if port == q then bucket otp q ++ length otp.matches ∷ [] else bucket otp q)
  unfolding with_match
  bucket-with_match q = ground (
    arith,
    lookup-insert port q (matches_at (lookup port otp.traffic_matches) ++ length otp.matches ∷ [])
        otp.traffic_matches,
    ==_iff port q,
  )

  lookup-with_match :
      (key : Text)
      → lookup key with_match.named_traffic_matches ≡ (
          if named_port port name == key
          then some (length otp.matches)
          else lookup key otp.named_traffic_matches)
  unfolding with_match
  lookup-with_match key =
      lookup-insert (named_port port name) key (length otp.matches) otp.named_traffic_matches

  length-with_match : length with_match.matches ≡ length otp.matches + 1
  unfolding with_match
  length-with_match = rw (length-append otp.matches (new_match ∷ [])) (omega arith)

  with_match-allocated :
      Shared otp
      → (key : Text) (ptr : ℕ) → lookup key with_match.named_traffic_matches ≡ some ptr
      → ptr < length with_match.matches
  with_match-allocated sh key ptr h =
      ground (arith, length-with_match, lookup-with_match key, sh.allocated key ptr)

  with_match-listed :
      Shared otp
      → (q : ℕ) (n : Text) (ptr : ℕ)
      → lookup (named_port q n) with_match.named_traffic_matches ≡ some ptr
      → contains ptr (bucket with_match q) ≡ true
  with_match-listed sh q n ptr h = elim (Bool-cases (named_port port name == named_port q n)) [
    | inl e ↦
        let at_port : (port == q) ≡ true =
          (==_iff port q).1 (
            named_port-port port q name n ((==_iff (named_port port name) (named_port q n)).0 e)) in
        let is_new : length otp.matches ≡ ptr =
          ground (arith, lookup-with_match (named_port q n)) in
        rw (bucket-with_match q, at_port, ← is_new)
          (contains-last (length otp.matches) (bucket otp q))
    | inr e ↦
        let old : contains ptr (bucket otp q) ≡ true =
          sh.listed q n ptr (ground (arith, lookup-with_match (named_port q n))) in
        elim (Bool-cases (port == q)) [
          | inl k ↦
              rw (bucket-with_match q, k)
                (contains-append ptr (bucket otp q) (length otp.matches ∷ []) old)
          | inr k ↦ rw (bucket-with_match q, k) old
        ]
  ]

  with_match-one_name :
      Shared otp
      → (a b : Text) (ptr : ℕ) → lookup a with_match.named_traffic_matches ≡ some ptr
      → lookup b with_match.named_traffic_matches ≡ some ptr
      → a ≡ b
  with_match-one_name sh a b ptr h k = ground (
    arith,
    lookup-with_match a,
    lookup-with_match b,
    ==_iff (named_port port name) a,
    ==_iff (named_port port name) b,
    sh.allocated a ptr,
    sh.allocated b ptr,
    sh.one_name a b ptr,
  )

  with_match-Shared : Shared otp → Shared with_match
  with_match-Shared sh = record {
    allocated = with_match-allocated sh;
    listed = with_match-listed sh;
    one_name = with_match-one_name sh;
  }

  -- What `newTrafficMatch` promises of its results.
  abbrev pub Found : ℕ × Bool × OutboundTrafficPolicy → Type 0
  Found (ptr, known, after) =
      Shared after
      × (known ≡ has_key (named_port port name) otp.named_traffic_matches)
      × (lookup (named_port port name) after.named_traffic_matches ≡ some ptr)
      × (ptr < length after.matches)
      × (contains ptr (bucket after port) ≡ true)

  new_traffic_match-absent :
      lookup (named_port port name) otp.named_traffic_matches ≡ none
      → new_traffic_match port name otp ≡ (length otp.matches, false, with_match)
  unfolding new_traffic_match with_match
  new_traffic_match-absent e = rw (new_traffic_match, e) refl

  new_traffic_match-present :
      (ptr : ℕ)
      → lookup (named_port port name) otp.named_traffic_matches ≡ some ptr
      → new_traffic_match port name otp ≡ (ptr, true, otp)
  unfolding new_traffic_match
  new_traffic_match-present ptr e = rw (new_traffic_match, e) refl

  with_match-found :
      lookup (named_port port name) with_match.named_traffic_matches ≡ some (length otp.matches)
  with_match-found =
      rw (lookup-with_match (named_port port name), ==_refl (named_port port name)) refl

  -- If every named match of the policy is an object, listed under its port, with one name, that is
  -- so after `newTrafficMatch`, which says whether the match of the port and the name was there
  -- before; after it the name leads to the object that it returns, which is listed under the port.
  pub new_traffic_match-Shared : Shared otp → Found (new_traffic_match port name otp)
  new_traffic_match-Shared sh =
      elim (Option-cases (lookup (named_port port name) otp.named_traffic_matches)) [
        | inl e ↦ rw (new_traffic_match-absent e) (
          with_match-Shared sh,
          rw (has_key, e) refl,
          with_match-found,
          with_match-allocated sh (named_port port name) (length otp.matches) with_match-found,
          with_match-listed sh port name (length otp.matches) with_match-found,
        )
        | inr (ptr, e) ↦ rw (new_traffic_match-present ptr e) (
          sh,
          rw (has_key, e) refl,
          e,
          sh.allocated (named_port port name) ptr e,
          sh.listed port name ptr e,
        )
      ]
