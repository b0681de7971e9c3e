-- ===== src/Api/Events.antt =====
-- The events of webhook.go: the adapters of the three providers. The limit on the body's length is part
-- of the decoding.
use flowgent.Prelude.{String, Bool, false, Option, none, some, ◌==◌, ◌||◌, eqb, if◌then◌else◌}
use flowgent.Prelude.Dict.{get_or}
use flowgent.Prelude.Int.{ℤ, pos}
use flowgent.Value.{Value}
use flowgent.Agent.Services.{Fallible, bad, good}

-- WebhookEvent, without the payload, which nothing reads.
pub record WebhookEvent : Type 0 where
  pub provider : String
  pub event : String
  pub repo : String
  pub ref : String
  pub commit_sha : String
  pub pr_number : ℤ
  pub sender : String

-- The bodies that parseGitHubLike and parseGitLab decode into.
pub record PullRequest : Type 0 where
  pub number : ℤ
  pub head_ref : String
  pub head_sha : String

pub record GithubBody : Type 0 where
  pub ref : String
  pub after : String
  pub number : ℤ
  pub full_name : String
  pub head_commit : Option String
  pub pull_request : Option PullRequest
  pub sender : String

pub record ObjectAttributes : Type 0 where
  pub iid : ℤ
  pub source_branch : String
  pub last_commit : Option String

pub record GitlabBody : Type 0 where
  pub object_kind : String
  pub ref : String
  pub checkout_sha : String
  pub project : String
  pub username : String
  pub object_attributes : Option ObjectAttributes

-- `s` if it has a character, or the other text.
abbrev pub or_else : String → String → String
or_else s t = if s == "" then t else s

abbrev pub is_zero : ℤ → Bool
is_zero (pos n) = eqb n 0
is_zero _ = false

unfoldable pub inferred_event : GithubBody → String
inferred_event raw = elim raw.pull_request [
  | some p ↦ "pull_request"
  | none ↦ if raw.ref == "" then "" else "push"
]

-- parseGitHubLike, behind the decoding.
unfoldable pub of_github_like : String → String → GithubBody → WebhookEvent
unfolding inferred_event
of_github_like provider header_event raw =
    let sha = or_else (get_or "" raw.head_commit) raw.after in
    let event = or_else header_event (inferred_event raw) in
    elim raw.pull_request [
      | none ↦ record {
        provider = provider;
        event = event;
        repo = raw.full_name;
        ref = raw.ref;
        commit_sha = sha;
        pr_number = pos 0;
        sender = raw.sender;
      }
      | some p ↦ record {
        provider = provider;
        event = event;
        repo = raw.full_name;
        ref = or_else raw.ref p.head_ref;
        commit_sha = or_else sha p.head_sha;
        pr_number = if is_zero p.number then raw.number else p.number;
        sender = raw.sender;
      }
    ]

-- parseGitLab, behind the decoding.
unfoldable pub of_gitlab : String → GitlabBody → WebhookEvent
of_gitlab header_event raw =
    let event = or_else header_event raw.object_kind in
    elim raw.object_attributes [
      | none ↦ record {
        provider = "gitlab";
        event = event;
        repo = raw.project;
        ref = raw.ref;
        commit_sha = raw.checkout_sha;
        pr_number = pos 0;
        sender = raw.username;
      }
      | some a ↦ record {
        provider = "gitlab";
        event = event;
        repo = raw.project;
        ref = or_else raw.ref a.source_branch;
        commit_sha = or_else raw.checkout_sha (get_or "" a.last_commit);
        pr_number = a.iid;
        sender = raw.username;
      }
    ]

unfoldable pub is_supported_provider : String → Bool
is_supported_provider p = p == "github" || (p == "gitlab" || p == "gitea")

-- strings.EqualFold, ToLower and TrimSpace, the end of normalizeGitLabEvent, which drops " Hook" and
-- writes _ for a space; json.Unmarshal into the two bodies, where
-- an empty text gives an empty body; and an int as a value.
pub record Codec : Type 0 where
  pub equal_fold : String → String → Bool
  pub to_lower : String → String
  pub trim_space : String → String
  pub snake_case : String → String
  pub github_body : String → Fallible GithubBody
  pub gitlab_body : String → Fallible GitlabBody
  pub of_int : ℤ → Value

module _ (codec : Codec) where
  open codec use {equal_fold, to_lower, trim_space, snake_case, github_body, gitlab_body, of_int}

  unfoldable pub normalize_gitlab_event : String → String
  normalize_gitlab_event header =
      let h = trim_space header in
      if h == "Push Hook" || h == "Tag Push Hook"
      then "push"
      else if h == "Merge Request Hook"
      then "merge_request"
      else if h == "Note Hook"
      then "note"
      else if h == "Pipeline Hook"
      then "pipeline"
      else snake_case h

  -- providerEvent; `header` is the request's.
  unfoldable pub provider_event : String → (String → String) → String
  unfolding normalize_gitlab_event
  provider_event provider header =
      if provider == "github"
      then header "X-GitHub-Event"
      else if provider == "gitea"
      then or_else (header "X-Gitea-Event") (header "X-Github-Event")
      else if provider == "gitlab"
      then normalize_gitlab_event (header "X-Gitlab-Event")
      else ""

  abbrev pub map_good : {A B : Type 0} → (A → B) → Fallible A → Fallible B
  map_good f (bad e) = bad e
  map_good f (good a) = good (f a)

  unfoldable pub parse_event : String → String → String → Fallible WebhookEvent
  unfolding of_github_like of_gitlab
  parse_event provider header_event body =
      if provider == "github" || provider == "gitea"
      then map_good (of_github_like provider header_event) (github_body body)
      else if provider == "gitlab"
      then map_good (of_gitlab header_event) (gitlab_body body)
      else bad "unsupported provider"
