-- ===== src/Repo/Whole.antt =====
-- When `Batch` of pkg/ecnet/pipy/repo/client/client.go returns success, for all its batches.
use erie_canal_net.Base.{
  ◌≡◌, refl, ◌∙◌, subst, ◌↔◌, ◌⊎◌, inl, inr, List, [], ◌∷◌, none, Text, arith, nat_eq,
}
use erie_canal_net.Repo.{
  Codebase, BatchItem, Batch, Request, Reply, Done, done_ok, upsert_request, delete_request,
  file_uri, full_path, opened, stopped, returned, went_on, open_codebase, upload_items,
  commit_items, submit_opened, submit, submit_all, batch, commit, get_codebase, create_codebase,
  is_codebase_exists, upsert_file, delete_file,
}
use erie_canal_net.Repo.Submit.{
  Failed, Openable, Unread, StoredItems, Committed, Submitted, submit_cases,
}

module _ (respond : List Request → Reply) where
  -- Every batch was submitted whole, in order.
  abbrev pub AllSubmitted : Text → List Batch → List Request → List Request → Type 0
  AllSubmitted version [] sent after = after ≡ sent
  AllSubmitted version (b ∷ bs) sent after =
      (between : List Request) × Submitted respond version b sent between
      × AllSubmitted version bs between after

  -- Some batches were submitted whole; the codebase of the next was made and cannot be read back, so
  -- nothing of it or of the batches behind it was uploaded.
  abbrev pub CutShort : Text → List Batch → List Request → List Request → Type 0
  CutShort version [] sent after = ⊥
  CutShort version (b ∷ bs) sent after =
      Unread respond version b.basepath sent after
      ⊎ ((between : List Request) × Submitted respond version b sent between
          × CutShort version bs between after)

  pub submit_all_cases :
      (version : Text) (bs : List Batch) (sent : List Request)
      → ((after : List Request) × (submit_all respond version bs done_ok sent ≡ (done_ok, after))
          × (AllSubmitted version bs sent after ⊎ CutShort version bs sent after))
        ⊎ ((done : Done) × (after : List Request) × (submit_all respond version bs done_ok sent
              ≡ (done, after))
            × Failed done)
  unfolding submit_all
  submit_all_cases version [] sent = inl (sent, refl, inl refl)
  submit_all_cases version (b ∷ bs) sent = elim (submit_cases respond version b sent) [
    | inr (inl (after, e, h)) ↦ inl (after, ground (arith, e), inr (inl h))
    | inr (inr (done, after, e, f)) ↦ inr (done, after, ground (arith, e), f)
    | inl (between, e, h) ↦ elim (submit_all_cases version bs between) [
      | inr (done, after, r, f) ↦ inr (done, after, ground (arith, e, r), f)
      | inl (after, r, inl all) ↦ inl (after, ground (arith, e, r), inl (between, h, all))
      | inl (after, r, inr cut) ↦ inl (after, ground (arith, e, r), inr (inr (between, h, cut)))
    ]
  ]

  open_of :
      (version name : Text) (sent : List Request) (codebase : Codebase) (after : List Request)
      → Openable respond version name sent codebase after
      → open_codebase respond version name sent ≡ (opened codebase.version, after)
  unfolding open_codebase is_codebase_exists create_codebase get_codebase
  open_of version name sent codebase after (inl ((s, r, ok), same)) = ground (arith, r, ok, same)
  open_of version name sent codebase after
        (inr (x, y, (s, r, no_one), (t, q, make), (u, w, ok), same)) =
      ground (arith, r, no_one, q, make, w, ok, same)

  Unread-of :
      (version name : Text) (sent after : List Request)
      → Unread respond version name sent after
      → open_codebase respond version name sent ≡ (stopped done_ok, after)
  unfolding open_codebase is_codebase_exists create_codebase get_codebase
  Unread-of version name sent after (x, y, z, (s, r, no_one), (t, q, make), (u, w, no_read), same) =
      ground (arith, r, no_one, q, make, w, no_read, same)

  items_of :
      (basepath : Text) (items : List BatchItem) (sent after : List Request)
      → StoredItems respond basepath items sent after
      → upload_items respond basepath items sent ≡ (none, after)
  unfolding upload_items delete_file upsert_file
  items_of basepath [] sent after same = ground (arith, same)
  items_of basepath (item ∷ items) sent after (inl (o, h)) = ground (
    arith,
    o,
    items_of basepath items (delete_request (file_uri (full_path basepath item)) ∷ sent) after h,
  )
  items_of basepath (item ∷ items) sent after (inr (o, (x, (s, r, ok)), h)) = ground (
    arith,
    o,
    r,
    ok,
    items_of basepath items (upsert_request (full_path basepath item) item.content ∷ sent) after h,
  )

  commit_of :
      (name version : Text) (sent after : List Request)
      → Committed respond name version sent after
      → commit respond name version sent ≡ (done_ok, after)
  unfolding commit
  commit_of name version sent after (etag, x, e, (s, r, ok), same) = ground (arith, e, r, ok, same)

  submit_of :
      (version : Text) (b : Batch) (sent after : List Request)
      → Submitted respond version b sent after
      → submit respond version b sent ≡ (went_on done_ok, after)
  unfolding submit submit_opened commit_items
  submit_of version b sent after (codebase, open_at, stored, o, h, k) = ground (
    arith,
    open_of version b.basepath sent codebase open_at o,
    items_of b.basepath b.items open_at stored h,
    commit_of b.basepath codebase.version stored after k,
  )

  cut_of :
      (version : Text) (b : Batch) (sent after : List Request)
      → Unread respond version b.basepath sent after
      → submit respond version b sent ≡ (returned done_ok, after)
  unfolding submit submit_opened
  cut_of version b sent after u = ground (arith, Unread-of version b.basepath sent after u)

  submit_all_of :
      (version : Text) (bs : List Batch) (sent after : List Request)
      → AllSubmitted version bs sent after ⊎ CutShort version bs sent after
      → submit_all respond version bs done_ok sent ≡ (done_ok, after)
  unfolding submit_all
  submit_all_of version [] sent after (inl same) = ground (arith, same)
  submit_all_of version [] sent after (inr none_cut) = elim none_cut [ ]
  submit_all_of version (b ∷ bs) sent after (inl (between, h, all)) =
      ground (
        arith,
        submit_of version b sent between h,
        submit_all_of version bs between after (inl all),
      )
  submit_all_of version (b ∷ bs) sent after (inr (inl u)) =
      ground (arith, cut_of version b sent after u)
  submit_all_of version (b ∷ bs) sent after (inr (inr (between, h, cut))) =
      ground (
        arith,
        submit_of version b sent between h,
        submit_all_of version bs between after (inr cut),
      )

  -- The initial result of the loop does not matter.
  pub batch-cons :
      (version : Text) (b : Batch) (bs : List Batch) (sent : List Request)
      → batch respond version (b ∷ bs) sent ≡ submit_all respond version (b ∷ bs) done_ok sent
  unfolding batch submit_all
  batch-cons version b bs sent = refl

  -- On at least one batch, `Batch` returns success and no error after just the requests in which the
  -- service accepted every batch whole, in order: the codebase was there or was made and read back,
  -- every item that is not obsolete was stored, and the codebase was committed under the version after
  -- the one that was read; or else after those in which it accepted some batches whole and then made
  -- the codebase of the next one, which could not be read back: nothing of that batch or of those
  -- behind it was uploaded then.
  pub batch_ok_iff :
      (version : Text) (b : Batch) (bs : List Batch) (sent after : List Request)
      → (batch respond version (b ∷ bs) sent ≡ (done_ok, after))
        ↔ (AllSubmitted version (b ∷ bs) sent after ⊎ CutShort version (b ∷ bs) sent after)
  batch_ok_iff version b bs sent after = (
    λ ok. elim (submit_all_cases version (b ∷ bs) sent) [
      | inl (at, e, h) ↦
          subst (λ s. AllSubmitted version (b ∷ bs) sent s ⊎ CutShort version (b ∷ bs) sent s)
            (ground (arith, e, ok, batch-cons version b bs sent)) h
      | inr (done, at, e, f) ↦ absurd (ground (arith, e, ok, f, batch-cons version b bs sent))
    ],
    λ h. batch-cons version b bs sent ∙ submit_all_of version (b ∷ bs) sent after h,
  )
