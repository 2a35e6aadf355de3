-- ===== src/Integrations.antt =====
-- src/tvastr/integrations/issue_era_host.py, and the protocol `CodeHost` of
-- src/tvastr/agent/context.py. A call changes the world outside; `none` is a call that raises.
use tvastr_demo.Prelude.{ℕ, Option, none, some, List, Text}
use tvastr_demo.Domain.{PullRequestDraft, PullRequestResult}

abbrev pub Call : Type 0 → Type 0 → Type 0
Call W A = W → W × Option A

pub record CodeHost (W : Type 0) : Type 0 where
  pub search_code : Text → Call W (List Text)
  pub get_file : Text → Call W Text
  pub list_dir : Text → Call W (List Text)
  pub get_file_at_ref : Text → Text → Call W (Option Text)
  pub list_dir_at_ref : Text → Text → Call W (List Text)
  pub commit_before : Text → Call W (Option Text)
  pub buggy_parent_sha : ℕ → Call W (Option Text)
  pub open_pull_request : PullRequestDraft → Call W PullRequestResult

module _ {W : Type 0} where
  -- `content if content is not None else inner.get_file(path)`
  abbrev or_current : CodeHost W → Text → W × Option (Option Text) → W × Option Text
  or_current inner path (w, none) = (w, none)
  or_current inner path (w, some (some content)) = (w, some content)
  or_current inner path (w, some none) = inner.get_file path w

  -- `IssueEraCodeHost`
  unfoldable pub issue_era_host : CodeHost W → Text → CodeHost W
  issue_era_host inner sha = record {
    search_code = inner.search_code;
    get_file = λ path w. or_current inner path (inner.get_file_at_ref path sha w);
    list_dir = λ path. inner.list_dir_at_ref path sha;
    get_file_at_ref = inner.get_file_at_ref;
    list_dir_at_ref = inner.list_dir_at_ref;
    commit_before = inner.commit_before;
    buggy_parent_sha = inner.buggy_parent_sha;
    open_pull_request = inner.open_pull_request;
  }
