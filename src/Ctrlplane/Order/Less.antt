-- ===== src/Ctrlplane/Order/Less.antt =====
-- When `Less` of `OutboundHTTPRouteRuleSlice` in pkg/ecnet/bridge/ctrlplane/server/policy.go is a strict
-- weak order, as `sort.Sort` asks.
use erie_canal_net.Base.{
  ◌≡◌, sym, ◌∙◌, subst, ◌⊎◌, inl, inr, Bool, true, false, List, [], ◌∷◌, Text, arith, ◌==◌, nat_eq,
  list_eq, ==_iff, text_ltb, text_ltb_irrefl, text_ltb_trans, text_ltb_total, All, All-perm, Permᴰ,
  StrictWeak, Ordered, IsSort, Bool-cases,
}
use mathlib.Core.List.Permᴰ as PermD
use erie_canal_net.Policy.{regex_match_all}
use erie_canal_net.Ctrlplane.Config.{OutboundHttpRouteRule}
use erie_canal_net.Ctrlplane.Order.{less_rule, sort_rules}

abbrev pub path_of : OutboundHttpRouteRule → Text
path_of r = r.http_match_rule.path

abbrev pub is_wildcard : OutboundHttpRouteRule → Bool
is_wildcard r = path_of r == regex_match_all

-- Not the wildcard path
abbrev pub Plain : OutboundHttpRouteRule → Type 0
Plain r = is_wildcard r ≡ false

-- The wildcard path, or one below it as a text
abbrev pub Below : OutboundHttpRouteRule → Type 0
Below r = (is_wildcard r ≡ true) ⊎ (text_ltb (path_of r) regex_match_all ≡ true)

less_rule-Plain :
    (a b : OutboundHttpRouteRule) → Plain a → less_rule a b ≡ text_ltb (path_of a) (path_of b)
unfolding less_rule
less_rule-Plain a b p = ground (arith, p)

less_rule-wildcard : (a b : OutboundHttpRouteRule) → is_wildcard a ≡ true → less_rule a b ≡ false
unfolding less_rule
less_rule-wildcard a b w = ground (arith, w)

less_rule_irrefl : (a : OutboundHttpRouteRule) → less_rule a a ≡ false
unfolding less_rule
less_rule_irrefl a = ground (arith, text_ltb_irrefl (path_of a))

less_rule_trans :
    (a b c : OutboundHttpRouteRule)
    → less_rule a b ≡ true
    → less_rule b c ≡ true
    → less_rule a c ≡ true
unfolding less_rule
less_rule_trans a b c h k = ground (arith, text_ltb_trans (path_of a) (path_of b) (path_of c))

-- Plain rules that are alike have one path.
plain_alike :
    (a b : OutboundHttpRouteRule)
    → Plain a
    → Plain b
    → less_rule a b ≡ false
    → less_rule b a ≡ false
    → path_of a ≡ path_of b
plain_alike a b p q h k =
    text_ltb_total (path_of a) (path_of b) (ground (arith, less_rule-Plain a b p, h))
      (ground (arith, less_rule-Plain b a q, k))

less_rule-same : (a b : OutboundHttpRouteRule) → path_of a ≡ path_of b → less_rule a b ≡ false
unfolding less_rule
less_rule-same a b e = ground (arith, e, text_ltb_irrefl (path_of a))

plain : StrictWeak less_rule Plain
plain = record {
  irreflexive = λ a p. less_rule_irrefl a;
  transitive = λ a b c p q r h k. less_rule_trans a b c h k;
  alike = λ a b c p q r h k h' k'.
      less_rule-same a c (plain_alike a b p q h k ∙ plain_alike b c q r h' k');
}

Below-wildcard :
    (r : OutboundHttpRouteRule) → Below r → Plain r → text_ltb (path_of r) regex_match_all ≡ true
Below-wildcard r (inl w) p = ground (arith, w, p)
Below-wildcard r (inr lt) p = lt

Below-alike :
    (a b : OutboundHttpRouteRule)
    → Below a
    → Below b
    → less_rule a b ≡ false
    → less_rule b a ≡ false
    → path_of a ≡ path_of b
Below-alike a b p q h k = elim (Bool-cases (is_wildcard a)) [
  | inl w ↦ elim (Bool-cases (is_wildcard b)) [
    | inl v ↦
        (==_iff (path_of a) regex_match_all).0 w ∙ sym ((==_iff (path_of b) regex_match_all).0 v)
    | inr v ↦ absurd (
        ground (
          arith,
          less_rule-Plain b a v,
          k,
          Below-wildcard b q v,
          (==_iff (path_of a) regex_match_all).0 w,
        ))
  ]
  | inr w ↦ elim (Bool-cases (is_wildcard b)) [
    | inl v ↦ absurd (
        ground (
          arith,
          less_rule-Plain a b w,
          h,
          Below-wildcard a p w,
          (==_iff (path_of b) regex_match_all).0 v,
        ))
    | inr v ↦ plain_alike a b w v h k
  ]
]

below : StrictWeak less_rule Below
below = record {
  irreflexive = λ a p. less_rule_irrefl a;
  transitive = λ a b c p q r h k. less_rule_trans a b c h k;
  alike = λ a b c p q r h k h' k'.
      less_rule-same a c (Below-alike a b p q h k ∙ Below-alike b c q r h' k');
}

not_below :
    (w r : OutboundHttpRouteRule)
    → is_wildcard w ≡ true
    → text_ltb (path_of r) regex_match_all ≡ false
    → less_rule r w ≡ false
not_below w r wild above = elim (Bool-cases (is_wildcard r)) [
  | inl v ↦ less_rule-wildcard r w v
  | inr v ↦
      ground (arith, less_rule-Plain r w v, above, (==_iff (path_of w) regex_match_all).0 wild)
]

above_too :
    (a b : OutboundHttpRouteRule)
    → text_ltb (path_of a) regex_match_all ≡ false
    → text_ltb (path_of a) (path_of b) ≡ true
    → text_ltb (path_of b) regex_match_all ≡ false
above_too a b above lt = elim (Bool-cases (text_ltb (path_of b) regex_match_all)) [
  | inl e ↦
      absurd (ground (arith, above, text_ltb_trans (path_of a) (path_of b) regex_match_all lt e))
  | inr e ↦ e
]

-- `Less` is a strict weak order, as the sort asks of it, on the rules that are not the wildcard path;
-- and on the wildcard path with paths below it as texts. It is none on rules among which are the
-- wildcard and two others, one path less than the other and neither below the wildcard, as are all
-- paths that start with a slash.
pub less_rule-StrictWeak :
    (P : OutboundHttpRouteRule → Type 0) (w a b : OutboundHttpRouteRule)
    → P w
    → P a
    → P b
    → is_wildcard w ≡ true
    → Plain a
    → text_ltb (path_of a) regex_match_all ≡ false
    → text_ltb (path_of a) (path_of b) ≡ true
    → StrictWeak less_rule Plain × StrictWeak less_rule Below × (¬ StrictWeak less_rule P)
less_rule-StrictWeak P w a b pw pa pb wild p above lt = (
  plain,
  below,
  λ weak. ground (
    arith,
    weak.alike a w b pa pw pb (not_below w a wild above) (less_rule-wildcard w a wild)
        (less_rule-wildcard w b wild) (not_below w b wild (above_too a b above lt)),
    less_rule-Plain a b p,
    lt,
  ),
)

-- No path is below one before it.
abbrev pub Ascending : List OutboundHttpRouteRule → Type 0
Ascending rules = Ordered (λ a b. text_ltb (path_of a) (path_of b)) rules

plain_step :
    (x y : OutboundHttpRouteRule)
    → Plain x
    → Plain y
    → less_rule y x ≡ false
    → text_ltb (path_of y) (path_of x) ≡ false
plain_step x y p q h = ground (arith, less_rule-Plain y x q, h)

Below-step :
    (x y : OutboundHttpRouteRule)
    → Below x
    → Below y
    → less_rule y x ≡ false
    → text_ltb (path_of y) (path_of x) ≡ false
Below-step x y p q h = elim (Bool-cases (text_ltb (path_of y) (path_of x))) [
  | inr e ↦ e
  | inl e ↦ elim (Bool-cases (is_wildcard y)) [
    | inr plain_y ↦ absurd (ground (arith, less_rule-Plain y x plain_y, h, e))
    | inl wild ↦ absurd (over wild e p)
  ]
]
  where
    over : is_wildcard y ≡ true → text_ltb (path_of y) (path_of x) ≡ true → Below x → ⊥
    over wild e (inl w) = ground (
      arith,
      (==_iff (path_of y) regex_match_all).0 wild,
      (==_iff (path_of x) regex_match_all).0 w,
      text_ltb_irrefl regex_match_all,
      e,
    )
    over wild e (inr lt) = ground (
      arith,
      (==_iff (path_of y) regex_match_all).0 wild,
      text_ltb_trans regex_match_all (path_of x) regex_match_all,
      text_ltb_irrefl regex_match_all,
      e,
      lt,
    )

sort_rules_long :
    (sort : List OutboundHttpRouteRule → List OutboundHttpRouteRule) (x y : OutboundHttpRouteRule)
    (ys : List OutboundHttpRouteRule)
    → sort_rules sort (x ∷ y ∷ ys) ≡ sort (x ∷ y ∷ ys)
unfolding sort_rules
sort_rules_long sort x y ys = ground arith

module _ (Q : OutboundHttpRouteRule → Type 0)
    (step : (x y : OutboundHttpRouteRule)
      → Q x
      → Q y
      → less_rule y x ≡ false
      → text_ltb (path_of y) (path_of x) ≡ false) where
  after-All :
      (x : OutboundHttpRouteRule) (ys : List OutboundHttpRouteRule)
      → Q x
      → All Q ys
      → All (λ y. less_rule y x ≡ false) ys
      → All (λ y. text_ltb (path_of y) (path_of x) ≡ false) ys
  after-All x [] qx qs h = tt
  after-All x (y ∷ ys) qx qs h = (step x y qx qs.0 h.0, after-All x ys qx qs.1 h.1)

  Ordered-Ascending :
      (xs : List OutboundHttpRouteRule) → All Q xs → Ordered less_rule xs → Ascending xs
  Ordered-Ascending [] qs h = tt
  Ordered-Ascending (x ∷ xs) qs h = (after-All x xs qs.0 qs.1 h.0, Ordered-Ascending xs qs.1 h.1)

  sorted_by :
      (sort : List OutboundHttpRouteRule → List OutboundHttpRouteRule)
      → IsSort less_rule sort
      → StrictWeak less_rule Q
      → (rules : List OutboundHttpRouteRule) → All Q rules
      → Permᴰ (sort_rules sort rules) rules × Ascending (sort_rules sort rules)
  unfolding sort_rules
  sorted_by sort s weak [] qs = (PermD.refl [], tt)
  sorted_by sort s weak (x ∷ []) qs = (PermD.refl (x ∷ []), (tt, tt))
  sorted_by sort s weak (x ∷ y ∷ ys) qs =
      let rules = x ∷ y ∷ ys in
      subst (λ out. Permᴰ out rules × Ascending out) (sym (sort_rules_long sort x y ys))
        (
          s.permutes rules,
          Ordered-Ascending (sort rules) (All-perm Q (sort rules) rules (s.permutes rules) qs)
              (s.orders Q rules qs weak),
        )

-- With any function that does what `sort.Sort` promises, the sorted rules are the given ones in another
-- order, and no path is below one before it as a text, if none of the given paths is the wildcard, or
-- each is the wildcard or below it; the wildcard comes last then.
pub sort_rules-Ascending :
    (sort : List OutboundHttpRouteRule → List OutboundHttpRouteRule)
    (rules : List OutboundHttpRouteRule)
    → IsSort less_rule sort
    → All Plain rules ⊎ All Below rules
    → Permᴰ (sort_rules sort rules) rules × Ascending (sort_rules sort rules)
sort_rules-Ascending sort rules s (inl ps) = sorted_by Plain plain_step sort s plain rules ps
sort_rules-Ascending sort rules s (inr bs) = sorted_by Below Below-step sort s below rules bs
