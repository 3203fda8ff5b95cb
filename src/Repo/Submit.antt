-- ===== src/Repo/Submit.antt =====
-- When `Batch` of pkg/ecnet/pipy/repo/client/client.go returns success.
use erie_canal_net.Base.{
  ℕ, ◌≡◌, refl, ap, ◌⊎◌, inl, inr, Bool, true, false, not, List, [], ◌∷◌, none, some, Text, arith,
  codes, nat_eq, length, ltb, if◌then◌else◌, parse_uint, Bool-cases, Option-cases,
}
use erie_canal_net.Repo.{
  Codebase, ClientError, BatchItem, Batch, codebase_of, Request, Reply, failed, replied, Done,
  done_ok, repo_uri, status_ok, status_made, is_success, get_request, post_codebase, upsert_request,
  delete_request, commit_request, file_uri, full_path, unreachable, refused, bad_version, done_err,
  opened, stopped, returned, went_on, open_codebase, upload_items, commit_items, submit_opened,
  submit, commit, get_codebase, create_codebase, is_codebase_exists, upsert_file, delete_file,
}

-- An error was returned.
abbrev pub Failed : Done → Type 0
Failed done = (e : ClientError) × (done.err ≡ some e)

-- The codebase is asked for.
abbrev pub asked : Text → List Request → List Request
asked name sent = get_request (repo_uri name) ∷ sent

-- It was not there, and is made with the version.
abbrev pub made : Text → Text → List Request → List Request
made version name sent = post_codebase name (codebase_of version []) ∷ asked name sent

abbrev pub reread_uri : Text → Text
reread_uri name = if ltb 1 (length name) then repo_uri name else codes "repo/"

-- It is read back.
abbrev pub reread : Text → Text → List Request → List Request
reread version name sent = get_request (reread_uri name) ∷ made version name sent

abbrev pub is_missing : ℕ → Bool
is_missing status = not (status_ok status)

pub Reply-cases :
    (r : Reply)
    → (r ≡ failed) ⊎ ((status : ℕ) × (codebase : Codebase) × (r ≡ replied status codebase))
Reply-cases failed = inl refl
Reply-cases (replied status codebase) = inr (status, codebase, refl)

module _ (respond : List Request → Reply) where
  -- The service answered the newest request with a status that passes the test.
  abbrev pub Answered : (ℕ → Bool) → List Request → Codebase → Type 0
  Answered ok sent codebase =
      (status : ℕ) × (respond sent ≡ replied status codebase) × (ok status ≡ true)

  -- The codebase is there, or is made and read back.
  abbrev pub Openable : Text → Text → List Request → Codebase → List Request → Type 0
  Openable version name sent codebase after =
      (Answered status_ok (asked name sent) codebase × (after ≡ asked name sent))
      ⊎ ((x : Codebase) × (y : Codebase) × Answered is_missing (asked name sent) x
          × Answered status_made (made version name sent) y
          × Answered status_ok (reread version name sent) codebase
          × (after ≡ reread version name sent))

  -- The codebase is made and cannot be read back.
  abbrev pub Unread : Text → Text → List Request → List Request → Type 0
  Unread version name sent after =
      (x : Codebase) × (y : Codebase) × (z : Codebase) × Answered is_missing (asked name sent) x
      × Answered status_made (made version name sent) y
      × Answered is_missing (reread version name sent) z
      × (after ≡ reread version name sent)

  -- What opening a codebase comes to
  abbrev OpenCases : Text → Text → List Request → Type 0
  OpenCases version name sent =
      ((codebase : Codebase) × (after : List Request) × (open_codebase respond version name sent
          ≡ (opened codebase.version, after))
        × Openable version name sent codebase after)
      ⊎ (((after : List Request) × (open_codebase respond version name sent
              ≡ (stopped done_ok, after))
            × Unread version name sent after)
          ⊎ ((done : Done) × (after : List Request) × (open_codebase respond version name sent
                ≡ (stopped done, after))
              × Failed done))

  open_cases : (version name : Text) (sent : List Request) → OpenCases version name sent
  unfolding open_codebase is_codebase_exists create_codebase get_codebase
  open_cases version name sent = elim (Reply-cases (respond (asked name sent))) [
    | inl f ↦
        inr (inr (done_err unreachable, asked name sent, ground (arith, f), (unreachable, refl)))
    | inr (s, x, r) ↦ elim (Bool-cases (status_ok s)) [
      | inl ok ↦ inl (x, asked name sent, ground (arith, r, ok), inl ((s, r, ok), refl))
      | inr missing ↦ elim (Reply-cases (respond (made version name sent))) [
        | inl f ↦ inr (
            inr (
              done_err unreachable,
              made version name sent,
              ground (arith, r, missing, f),
              (unreachable, refl),
            ))
        | inr (t, y, q) ↦ elim (Bool-cases (status_made t)) [
          | inr no_make ↦ inr (
              inr (
                done_err refused,
                made version name sent,
                ground (arith, r, missing, q, no_make),
                (refused, refl),
              ))
          | inl make ↦ elim (Reply-cases (respond (reread version name sent))) [
            | inl f ↦ inr (
                inr (
                  done_err unreachable,
                  reread version name sent,
                  ground (arith, r, missing, q, make, f),
                  (unreachable, refl),
                ))
            | inr (u, z, w) ↦ elim (Bool-cases (status_ok u)) [
              | inl ok ↦ inl (
                z,
                reread version name sent,
                ground (arith, r, missing, q, make, w, ok),
                inr (x, y, (s, r, ap not missing), (t, q, make), (u, w, ok), refl),
              )
              | inr none_read ↦ inr (
                  inl (
                    reread version name sent,
                    ground (arith, r, missing, q, make, w, none_read),
                    (x, y, z, (s, r, ap not missing), (t, q, make), (u, w, ap not none_read), refl),
                  ))
            ]
          ]
        ]
      ]
    ]
  ]

  -- Each item that is not obsolete was stored, in order; the deletion of one that is may fail.
  abbrev pub StoredItems : Text → List BatchItem → List Request → List Request → Type 0
  StoredItems basepath [] sent after = after ≡ sent
  StoredItems basepath (item ∷ items) sent after =
      let deleted = delete_request (file_uri (full_path basepath item)) ∷ sent in
      let stored = upsert_request (full_path basepath item) item.content ∷ sent in
      ((item.obsolete ≡ true) × StoredItems basepath items deleted after)
      ⊎ ((item.obsolete ≡ false)
          × ((x : Codebase) × Answered is_success stored x)
          × StoredItems basepath items stored after)

  items_cases :
      (basepath : Text) (items : List BatchItem) (sent : List Request)
      → ((after : List Request) × (upload_items respond basepath items sent ≡ (none, after))
          × StoredItems basepath items sent after)
        ⊎ ((done : Done) × (after : List Request) × (upload_items respond basepath items sent
              ≡ (some done, after))
            × Failed done)
  unfolding upload_items delete_file upsert_file
  items_cases basepath [] sent = inl (sent, refl, refl)
  items_cases basepath (item ∷ items) sent =
      let deleted = delete_request (file_uri (full_path basepath item)) ∷ sent in
      let stored = upsert_request (full_path basepath item) item.content ∷ sent in
      elim (Bool-cases item.obsolete) [
        | inl o ↦ elim (items_cases basepath items deleted) [
          | inl (after, e, h) ↦ inl (after, ground (arith, o, e), inl (o, h))
          | inr (done, after, e, f) ↦ inr (done, after, ground (arith, o, e), f)
        ]
        | inr o ↦ elim (Reply-cases (respond stored)) [
          | inl f ↦ inr (done_err unreachable, stored, ground (arith, o, f), (unreachable, refl))
          | inr (s, x, r) ↦ elim (Bool-cases (is_success s)) [
            | inr bad ↦ inr (done_err refused, stored, ground (arith, o, r, bad), (refused, refl))
            | inl ok ↦ elim (items_cases basepath items stored) [
              | inl (after, e, h) ↦
                  inl (after, ground (arith, o, r, ok, e), inr (o, (x, (s, r, ok)), h))
              | inr (done, after, e, f) ↦ inr (done, after, ground (arith, o, r, ok, e), f)
            ]
          ]
        ]
      ]

  -- The codebase was committed under the version after the one that it had.
  abbrev pub Committed : Text → Text → List Request → List Request → Type 0
  Committed name version sent after =
      (etag : ℕ) × (x : Codebase) × (parse_uint version 64 ≡ some etag)
      × Answered is_success (commit_request name etag ∷ sent) x
      × (after ≡ commit_request name etag ∷ sent)

  pub commit_cases :
      (name version : Text) (sent : List Request)
      → ((after : List Request) × (commit respond name version sent ≡ (done_ok, after))
          × Committed name version sent after)
        ⊎ ((done : Done) × (after : List Request) × (commit respond name version sent
              ≡ (done, after))
            × Failed done)
  unfolding commit
  commit_cases name version sent = elim (Option-cases (parse_uint version 64)) [
    | inl bad ↦ inr (done_err bad_version, sent, ground (arith, bad), (bad_version, refl))
    | inr (etag, e) ↦
        let committed = commit_request name etag ∷ sent in
        elim (Reply-cases (respond committed)) [
          | inl f ↦ inr (done_err unreachable, committed, ground (arith, e, f), (unreachable, refl))
          | inr (s, x, r) ↦ elim (Bool-cases (is_success s)) [
            | inl ok ↦ inl (committed, ground (arith, e, r, ok), (etag, x, e, (s, r, ok), refl))
            | inr bad ↦
                inr (done_err refused, committed, ground (arith, e, r, bad), (refused, refl))
          ]
        ]
  ]

  -- A batch was submitted whole: its codebase opened, its items stored, and the codebase committed.
  abbrev pub Submitted : Text → Batch → List Request → List Request → Type 0
  Submitted version b sent after =
      (codebase : Codebase) × (open_at : List Request) × (stored : List Request) × Openable version
        b.basepath sent codebase open_at
      × StoredItems b.basepath b.items open_at stored
      × Committed b.basepath codebase.version stored after

  pub submit_cases :
      (version : Text) (b : Batch) (sent : List Request)
      → ((after : List Request) × (submit respond version b sent ≡ (went_on done_ok, after))
          × Submitted version b sent after)
        ⊎ (((after : List Request) × (submit respond version b sent ≡ (returned done_ok, after))
              × Unread version b.basepath sent after)
            ⊎ ((done : Done) × (after : List Request) × (submit respond version b sent
                  ≡ (returned done, after))
                × Failed done))
  unfolding submit submit_opened commit_items
  submit_cases version b sent = elim (open_cases version b.basepath sent) [
    | inr (inl (after, e, h)) ↦ inr (inl (after, ground (arith, e), h))
    | inr (inr (done, after, e, f)) ↦ inr (inr (done, after, ground (arith, e), f))
    | inl (codebase, open_at, e, o) ↦ elim (items_cases b.basepath b.items open_at) [
      | inr (done, after, i, f) ↦ inr (inr (done, after, ground (arith, e, i), f))
      | inl (stored, i, h) ↦ elim (commit_cases b.basepath codebase.version stored) [
        | inl (after, c, k) ↦
            inl (after, ground (arith, e, i, c), (codebase, open_at, stored, o, h, k))
        | inr (done, after, c, f) ↦ inr (inr (done, after, ground (arith, e, i, c, f), f))
      ]
    ]
  ]
