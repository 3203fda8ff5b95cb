-- ===== src/Ctrlplane/Config/Rules.antt =====
-- The route rules and the methods of policy.go in pkg/ecnet/bridge/ctrlplane/server.
use erie_canal_net.Base.{
  ◌≡◌, refl, true, false, List, [], ◌∷◌, ◌++◌, Text, codes, arith, nat_eq, list_eq, contains,
  if◌then◌else◌, append_assoc, append-nil,
}
use erie_canal_net.Ctrlplane.Config.{HttpMatchRule, add_method_match}

-- The loop over the methods of a route match.
abbrev pub add_methods : List Text → HttpMatchRule → HttpMatchRule
add_methods [] hmr = hmr
add_methods (m ∷ ms) hmr = add_methods ms (add_method_match m hmr)

any_methods :
    (ms : List Text) (hmr : HttpMatchRule)
    → hmr.allowed_any_method ≡ true
    → add_methods ms hmr ≡ hmr
unfolding add_method_match
any_methods [] hmr a = refl
any_methods (m ∷ ms) hmr a = ground (arith, any_methods ms hmr a)

-- Adding methods one by one to a rule that does not allow all of them yet: if `*` is among them, the
-- rule allows any method and lists none; if not, it lists them behind those it had, in order.
pub add_method_match_lem :
    (ms : List Text) (hmr : HttpMatchRule)
    → hmr.allowed_any_method ≡ false
    → add_methods ms hmr ≡ (
        if contains (codes "*") ms
        then record hmr { allowed_any_method = true; methods = [] }
        else record hmr { methods = hmr.methods ++ ms })
unfolding add_method_match
add_method_match_lem [] hmr a = cc (append-nil hmr.methods)
add_method_match_lem (m ∷ ms) hmr a = ground (
  arith,
  any_methods ms (record hmr { allowed_any_method = true; methods = [] }),
  add_method_match_lem ms (record hmr { methods = hmr.methods ++ m ∷ [] }) a,
  append_assoc hmr.methods (m ∷ []) ms,
)
