-- ===== src/Repo.antt =====
-- client.go and types.go of pkg/ecnet/pipy/repo/client: the client of the Pipy repository, over HTTP.
-- The service is a function from the requests so far, newest first, to its reply to the newest.
pub mod Submit
pub mod Whole
pub mod Derive
use erie_canal_net.Base.{
  ℕ, ◌+◌, ◌%◌, ◌^◌, Bool, true, false, not, ◌&&◌, ◌||◌, List, [], ◌∷◌, ◌++◌, Option, none, some,
  Text, codes, ◌==◌, nat_eq, list_eq, leb, ltb, length, if◌then◌else◌, decimal, parse_uint,
  has_suffix,
}

-- types.go: `Codebase`
pub record Codebase : Type 0 where
  pub version : Text
  pub path : Text
  pub main_file : Text
  pub base : Text
  pub files : List Text
  pub edit_files : List Text
  pub erased_files : List Text
  pub derived : List Text

-- types.go: `BatchItem` and `Batch`; the content as the text that is sent.
pub record BatchItem : Type 0 where
  pub obsolete : Bool
  pub path : Text
  pub filename : Text
  pub content : Text

pub record Batch : Type 0 where
  pub basepath : Text
  pub items : List BatchItem

-- `Codebase{Version: version, Base: base}`
abbrev pub codebase_of : Text → Text → Codebase
codebase_of version base = record {
  version = version;
  path = [];
  main_file = [];
  base = base;
  files = [];
  edit_files = [];
  erased_files = [];
  derived = [];
}

pub data Method : Type 0 where
  get post patch delete : Method

-- The body of a request, with its content type where it is a text.
pub data Body : Type 0 where
  no_body : Body
  json_codebase : Codebase → Body
  content_body : Text → Text → Body

pub record Request : Type 0 where
  pub method : Method
  pub uri : Text
  pub body : Body

-- No response, or one with a status and what was read of it as a `Codebase`.
pub data Reply : Type 0 where
  failed : Reply
  replied : ℕ → Codebase → Reply

pub data ClientError : Type 0 where
  unreachable refused bad_version : ClientError

-- `(success, err)` and `(success, codebase, err)`
pub record Done : Type 0 where
  pub success : Bool
  pub err : Option ClientError

pub record Found : Type 0 where
  pub found_success : Bool
  pub codebase : Option Codebase
  pub found_err : Option ClientError

abbrev pub done_ok : Done
done_ok = record { success = true; err = none }

abbrev pub done_err : ClientError → Done
done_err e = record { success = false; err = some e }

abbrev pub found_err_of : Bool → ClientError → Found
found_err_of success e = record { found_success = success; codebase = none; found_err = some e }

abbrev pub repo_uri : Text → Text
repo_uri name = codes "repo/" ++ name

abbrev pub file_uri : Text → Text
file_uri name = codes "repo-files/" ++ name

abbrev pub status_ok : ℕ → Bool
status_ok status = status == 200

abbrev pub status_made : ℕ → Bool
status_made status = status == 200 || status == 201

-- `resp.IsSuccess()`
abbrev pub is_success : ℕ → Bool
is_success status = leb 200 status && ltb status 300

abbrev pub get_request : Text → Request
get_request uri = record { method = get; uri = uri; body = no_body }

abbrev pub post_codebase : Text → Codebase → Request
post_codebase name codebase = record {
  method = post;
  uri = repo_uri name;
  body = json_codebase codebase;
}

abbrev pub content_type : Text → Text
content_type path =
    if has_suffix path (codes ".json") then codes "application/json" else codes "text/plain"

abbrev pub upsert_request : Text → Text → Request
upsert_request path content = record {
  method = post;
  uri = file_uri path;
  body = content_body (content_type path) content;
}

abbrev pub delete_request : Text → Request
delete_request uri = record { method = delete; uri = uri; body = no_body }

abbrev pub commit_request : Text → ℕ → Request
commit_request name etag = record {
  method = patch;
  uri = repo_uri name;
  body = json_codebase (codebase_of (decimal ((etag + 1) % 2 ^ 64)) []);
}

abbrev pub full_path : Text → BatchItem → Text
full_path basepath item = basepath ++ (item.path ++ b'/' ∷ item.filename)

-- What the two readers make of a reply
abbrev pub read_reply : Reply → Found
read_reply failed = found_err_of false unreachable
read_reply (replied status codebase) = record {
  found_success = true;
  codebase = if status_ok status then some codebase else none;
  found_err = none;
}

-- What the writers of files and the commit make of a reply
abbrev pub write_reply : Reply → Done
write_reply failed = done_err unreachable
write_reply (replied status _) = if is_success status then done_ok else done_err refused

-- `err == nil && success`
abbrev pub succeeded : Done → Bool
succeeded done = elim done.err [ some _ ↦ false | none ↦ done.success ]

-- The codebase of a batch: that which is there, or a new one; else what `Batch` returns.
pub data Opened : Type 0 where
  opened : Text → Opened
  stopped : Done → Opened

-- What the body of the loop over the batches does: `Batch` returns, or the loop goes on.
pub data Outcome : Type 0 where
  returned : Done → Outcome
  went_on : Done → Outcome

abbrev pub opened_new : Found → Opened
opened_new found =
    let done : Done = record { success = found.found_success; err = found.found_err } in
    elim found.codebase [
      | none ↦ stopped done
      | some codebase ↦ if succeeded done then opened codebase.version else stopped done
    ]

module _ (respond : List Request → Reply) where
  -- `isCodebaseExists`
  unfoldable pub is_codebase_exists : Text → List Request → Found × List Request
  is_codebase_exists name sent =
      let sent' = get_request (repo_uri name) ∷ sent in (read_reply (respond sent'), sent')

  -- `GetCodebase`
  unfoldable pub get_codebase : Text → List Request → Found × List Request
  get_codebase name sent =
      let uri = if ltb 1 (length name) then repo_uri name else codes "repo/" in
      let sent' = get_request uri ∷ sent in (read_reply (respond sent'), sent')

  -- `createCodebase`, once the reply is there
  created : Text → Reply → List Request → Found × List Request
  unfolding get_codebase
  created name failed sent = (found_err_of false unreachable, sent)
  created name (replied status _) sent =
      if status_made status then get_codebase name sent else (found_err_of false refused, sent)

  unfoldable pub create_codebase : Text → Text → List Request → Found × List Request
  unfolding created
  create_codebase version name sent =
      let sent' = post_codebase name (codebase_of version []) ∷ sent in
      created name (respond sent') sent'

  -- `deriveCodebase`; a refusal is a success with an error.
  derived : Text → Reply → List Request → Found × List Request
  unfolding get_codebase
  derived name failed sent = (found_err_of false unreachable, sent)
  derived name (replied status _) sent =
      if status_made status then get_codebase name sent else (found_err_of true refused, sent)

  unfoldable pub derive_codebase_request : Text → Text → ℕ → List Request → Found × List Request
  unfolding derived
  derive_codebase_request name base version sent =
      let sent' = post_codebase name (codebase_of (decimal version) base) ∷ sent in
      derived name (respond sent') sent'

  -- `upsertFile`, `Delete` and `deleteFile`
  unfoldable pub upsert_file : Text → Text → List Request → Done × List Request
  upsert_file path content sent =
      let sent' = upsert_request path content ∷ sent in (write_reply (respond sent'), sent')

  unfoldable pub delete_codebase : Text → List Request → Done × List Request
  delete_codebase name sent =
      let sent' = delete_request (repo_uri name) ∷ sent in (write_reply (respond sent'), sent')

  unfoldable pub delete_file : Text → List Request → Done × List Request
  delete_file name sent =
      let sent' = delete_request (file_uri name) ∷ sent in (write_reply (respond sent'), sent')

  -- `commit`
  commit_etag : Text → Option ℕ → List Request → Done × List Request
  commit_etag name none sent = (done_err bad_version, sent)
  commit_etag name (some etag) sent =
      let sent' = commit_request name etag ∷ sent in (write_reply (respond sent'), sent')

  unfoldable pub commit : Text → Text → List Request → Done × List Request
  unfolding commit_etag
  commit name version sent = commit_etag name (parse_uint version 64) sent

  -- The loop over the items; `none` where `Batch` goes on, else what it returns.
  pub upload_items : Text → List BatchItem → List Request → Option Done × List Request
  unfolding delete_file upsert_file
  upload_items basepath [] sent = (none, sent)
  upload_items basepath (item ∷ items) sent =
      let (_, after_delete) = delete_file (full_path basepath item) sent in
      let (stored, after_upsert) = upsert_file (full_path basepath item) item.content sent in
      let rest =
        upload_items basepath items (if item.obsolete then after_delete else after_upsert) in
      if item.obsolete || succeeded stored then rest else (some stored, after_upsert)

  pub open_codebase : Text → Text → List Request → Opened × List Request
  unfolding is_codebase_exists create_codebase
  open_codebase version name sent =
      let (found, sent') = is_codebase_exists name sent in
      let (made, sent'') = create_codebase version name sent' in
      elim found.found_err [
        | some e ↦ (stopped (record { success = found.found_success; err = some e }), sent')
        | none ↦ elim found.codebase [
          | some codebase ↦ (opened codebase.version, sent')
          | none ↦ (opened_new made, sent'')
        ]
      ]

  -- The commit at the end of the loop's body
  commit_items : Text → Text → Option Done × List Request → Outcome × List Request
  unfolding commit
  commit_items name version (some done, sent) = (returned done, sent)
  commit_items name version (none, sent) =
      let (done, sent') = commit name version sent in
      (if succeeded done then went_on done else returned done, sent')

  submit_opened : Batch → Opened × List Request → Outcome × List Request
  unfolding upload_items commit_items
  submit_opened b (stopped done, sent) = (returned done, sent)
  submit_opened b (opened version, sent) =
      commit_items b.basepath version (upload_items b.basepath b.items sent)

  -- The body of the loop over the batches
  pub submit : Text → Batch → List Request → Outcome × List Request
  unfolding open_codebase submit_opened
  submit version b sent = submit_opened b (open_codebase version b.basepath sent)

  pub submit_all : Text → List Batch → Done → List Request → Done × List Request
  unfolding submit
  submit_all version [] last sent = (last, sent)
  submit_all version (b ∷ bs) last sent =
      let (outcome, sent') = submit version b sent in
      elim outcome [
        | returned done ↦ (done, sent')
        | went_on done ↦ submit_all version bs done sent'
      ]

  -- `Batch`
  unfoldable pub batch : Text → List Batch → List Request → Done × List Request
  unfolding submit_all
  batch version batches sent =
      submit_all version batches (record { success = false; err = none }) sent

  -- `DeriveCodebase`, once the codebase was asked for; `none` is a panic.
  pub commit_derived : Text → Found × List Request → Option (Done × List Request)
  unfolding commit
  commit_derived name (found, sent) = elim found.found_err [
    | some e ↦ some (record { success = found.found_success; err = some e }, sent)
    | none ↦ elim found.codebase [
      | none ↦ none
      | some codebase ↦ some (commit name codebase.version sent)
    ]
  ]

  pub derive_missing : Text → Text → ℕ → Found × List Request → Option (Done × List Request)
  unfolding derive_codebase_request commit_derived
  derive_missing name base version (found, sent) = elim found.found_err [
    | some e ↦ some (record { success = found.found_success; err = some e }, sent)
    | none ↦ elim found.codebase [
      | some codebase ↦ some (record { success = found.found_success; err = none }, sent)
      | none ↦ commit_derived name (derive_codebase_request name base version sent)
    ]
  ]

  unfoldable pub derive_codebase : Text → Text → ℕ → List Request → Option (Done × List Request)
  unfolding is_codebase_exists derive_missing
  derive_codebase name base version sent =
      derive_missing name base version (is_codebase_exists name sent)

  -- `IsRepoUp`
  unfoldable pub is_repo_up : List Request → Done × List Request
  unfolding get_codebase
  is_repo_up sent =
      let (found, sent') = get_codebase (codes "/") sent in
      (record { success = found.found_success; err = found.found_err }, sent')

  -- `RunCodebase`; its result is whether there was a response.
  unfoldable pub run_codebase : Text → List Request → Option ClientError × List Request
  run_codebase name sent =
      let sent' =
        record {
          method = post;
          uri = codes "program";
          body = content_body (codes "text/plain") (b'/' ∷ name);
        }
        ∷ sent in
      (elim (respond sent') [ failed ↦ some unreachable | replied _ _ ↦ none ], sent')
