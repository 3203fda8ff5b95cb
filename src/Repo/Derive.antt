-- ===== src/Repo/Derive.antt =====
-- What `DeriveCodebase` of pkg/ecnet/pipy/repo/client/client.go returns.
use erie_canal_net.Base.{
  Bool-cases, ◌⊎◌, none, true, ℕ, ◌≡◌, inl, inr, false, List, ◌∷◌, some, Text, arith, nat_eq,
  Option-cases, decimal, parse_uint,
}
use erie_canal_net.Repo.{
  get_codebase, replied, ClientError, unreachable, refused, Codebase, codebase_of, post_codebase,
  commit_request, is_success, done_ok, Request, Reply, Done, Found, status_ok, status_made,
  derive_codebase, get_request, is_codebase_exists, derive_missing, derive_codebase_request,
  commit_derived, commit,
}
use erie_canal_net.Repo.Submit.{
  Failed, commit_cases, Answered, Reply-cases, asked, is_missing, reread_uri,
}

module _ (respond : List Request → Reply) where
  commit_err :
      (name version : Text) (sent s : List Request) (done : Done)
      → commit respond name version sent ≡ (done, s)
      → done.success ≡ false
      → Failed done
  commit_err name version sent s done e f = elim (commit_cases respond name version sent) [
    | inl (after, c, h) ↦ absurd (ground (arith, c, e, f))
    | inr (d, after, c, g) ↦ (g.0, ground (arith, c, e, g.1))
  ]

  commit_derived_err :
      (name : Text) (found : Found) (sent s : List Request) (done : Done)
      → commit_derived respond name (found, sent) ≡ some (done, s)
      → done.success ≡ false
      → Failed done
  unfolding commit_derived
  commit_derived_err name found sent s done e f = elim (Option-cases found.found_err) [
    | inr (x, h) ↦ (x, ground (arith, e, h))
    | inl h ↦ elim (Option-cases found.codebase) [
      | inl k ↦ absurd (ground (arith, e, h, k))
      | inr (codebase, k) ↦ commit_err name codebase.version sent s done (ground (arith, e, h, k)) f
    ]
  ]

  -- A derivation that is no success has an error.
  pub derive_err :
      (name base : Text) (version : ℕ) (sent s : List Request) (done : Done)
      → derive_codebase respond name base version sent ≡ some (done, s)
      → done.success ≡ false
      → Failed done
  unfolding derive_codebase derive_missing
  derive_err name base version sent s done e f =
      let (found, asked) = is_codebase_exists respond name sent in
      elim (Option-cases found.found_err) [
        | inr (x, h) ↦ (x, ground (arith, e, h))
        | inl h ↦ elim (Option-cases found.codebase) [
          | inr (codebase, k) ↦ absurd (ground (arith, e, f, h, k))
          | inl k ↦
              let (made, reread) = derive_codebase_request respond name base version asked in
              commit_derived_err name made reread s done (ground (arith, e, h, k)) f
        ]
      ]

  -- A codebase that is missing is derived, read back and committed.
  pub derive_missing_ok :
      (name base : Text) (version etag : ℕ) (sent : List Request) (x y z codebase : Codebase)
      → Answered respond is_missing (asked name sent) x
      → Answered respond status_made
          (post_codebase name (codebase_of (decimal version) base) ∷ asked name sent)
          y
      → Answered respond status_ok
          (get_request (reread_uri name)
            ∷ post_codebase name (codebase_of (decimal version) base)
            ∷ asked name sent)
          codebase
      → parse_uint codebase.version 64 ≡ some etag
      → Answered respond is_success
          (commit_request name etag
            ∷ get_request (reread_uri name)
            ∷ post_codebase name (codebase_of (decimal version) base)
            ∷ asked name sent)
          z
      → derive_codebase respond name base version sent
        ≡ some (
          done_ok,
          commit_request name etag
              ∷ get_request (reread_uri name)
              ∷ post_codebase name (codebase_of (decimal version) base)
              ∷ asked name sent,
        )
  unfolding derive_codebase derive_missing commit_derived derive_codebase_request commit
  derive_missing_ok name base version etag sent x y z codebase (s, r, no_one) (t, q, make)
        (u, w, ok) e (v, c, fine) =
      ground (arith, r, no_one, q, make, w, ok, e, c, fine)

  -- The service has a codebase that it has just made.
  abbrev pub ReadsBack : Text → Type 0
  ReadsBack name =
      (sent : List Request) (codebase made read : Codebase) (status : ℕ)
      → Answered respond status_made (post_codebase name codebase ∷ sent) made
      → respond (get_request (reread_uri name) ∷ post_codebase name codebase ∷ sent)
        ≡ replied status read
      → status_ok status ≡ true

  derive_request_cases :
      (name base : Text) (version : ℕ) (sent : List Request)
      → ReadsBack name
      → let found = (derive_codebase_request respond name base version sent).0 in
        ((e : ClientError) × (found.found_err ≡ some e))
        ⊎ ((codebase : Codebase) × (found.found_err ≡ none) × (found.codebase ≡ some codebase))
  unfolding derive_codebase_request get_codebase
  derive_request_cases name base version sent back =
      let codebase = codebase_of (decimal version) base in
      let made = post_codebase name codebase ∷ sent in
      let reread = get_request (reread_uri name) ∷ made in
      elim (Reply-cases (respond made)) [
        | inl f ↦ inl (unreachable, ground (arith, f))
        | inr (s, x, r) ↦ elim (Bool-cases (status_made s)) [
          | inr no_make ↦ inl (refused, ground (arith, r, no_make))
          | inl make ↦ elim (Reply-cases (respond reread)) [
            | inl f ↦ inl (unreachable, ground (arith, r, make, f))
            | inr (t, y, q) ↦
                let ok = back sent codebase x y t (s, r, make) q in
                inr (y, ground (arith, r, make, q, ok), ground (arith, r, make, q, ok))
          ]
        ]
      ]

  -- A derivation does not panic, if a codebase can be read back once it was made.
  pub derive_total :
      (name base : Text) (version : ℕ) (sent : List Request)
      → ReadsBack name
      → (done : Done) × (after : List Request) × (derive_codebase respond name base version sent
          ≡ some (done, after))
  unfolding derive_codebase derive_missing commit_derived
  derive_total name base version sent back =
      let (found, asked_at) = is_codebase_exists respond name sent in
      let (made, reread) = derive_codebase_request respond name base version asked_at in
      elim (Option-cases found.found_err) [
        | inr (e, h) ↦
            (record { success = found.found_success; err = some e }, asked_at, ground (arith, h))
        | inl h ↦ elim (Option-cases found.codebase) [
          | inr (codebase, k) ↦
              (record { success = found.found_success; err = none }, asked_at, ground (arith, h, k))
          | inl k ↦ elim (derive_request_cases name base version asked_at back) [
            | inl (e, m) ↦ (
              record { success = made.found_success; err = some e },
              reread,
              ground (arith, h, k, m),
            )
            | inr (codebase, m, n) ↦
                let out = commit respond name codebase.version reread in
                (out.0, out.1, ground (arith, h, k, m, n))
          ]
        ]
      ]
