-- ===== src/Prune/Settings.antt =====
-- scripts/image_prune.py: `load_config` and `prune_commands`.
pub mod Valid
use nas_platform.Common.{
  ℕ, ◌≡◌, Bool, true, false, not, ◌&&◌, Option, none, some, List, [], ◌∷◌, ◌++◌, leb, ◌==◌, length,
  select, if◌then◌else◌, drop,
}
use nas_platform.Common.Text.{Text, codes, text_eq, starts_with, decimal_text}
use nas_platform.Common.Words.{split_at}
use nas_platform.Common.Json.{join}
use nas_platform.Common.Value.{
  Value, Members, get, as_text, as_natural, as_object, ◌>>=◌, ◌>>◌, require,
}

-- A path is the text of its `Path`.
pub record Config : Type 0 where
  pub state_root : Text
  pub log_root : Text
  pub deployment_lock : Text
  pub deployment_lock_wait_seconds : ℕ
  pub retention_hours : ℕ
  pub dangling_retention_hours : ℕ
  pub log_retention_days : ℕ
  pub docker_path : Text
  pub curl_path : Text
  pub tool_path : Text
  pub pushover_alerts_curl_config : Option Text
  pub pushover_containers_curl_config : Option Text

abbrev pub minimum_retention_hours : ℕ
minimum_retention_hours = 24

-- Path(raw).is_absolute()
unfoldable pub is_absolute : Text → Bool
unfolding starts_with
is_absolute raw = starts_with raw (codes "/")

-- The root of an absolute path: exactly two slashes stay two.
abbrev root_of : Text → Text
root_of raw =
    if starts_with raw (codes "//") && not (starts_with raw (codes "///"))
    then codes "//"
    else codes "/"

abbrev is_part : Text → Bool
is_part part = leb 1 (length part) && not (text_eq part (codes "."))

-- str(Path(raw)) of an absolute path: empty parts and single dots go.
unfoldable pub path_text : Text → Text
unfolding starts_with split_at select text_eq
path_text raw = root_of raw ++ join (codes "/") (select is_part (split_at b'/' raw))

unfoldable pub path_field : Members → Text → Option Text
unfolding get is_absolute path_text
path_field members name = do
  raw ← get name members >>= as_text
  require (leb 1 (length raw))
  require (is_absolute raw)
  some (path_text raw)

unfoldable pub text_field : Members → Text → Option Text
unfolding get
text_field members name = do
  raw ← get name members >>= as_text
  require (leb 1 (length raw))
  some raw

unfoldable pub count_field : Members → Text → ℕ → Option ℕ
unfolding get
count_field members name floor = do
  raw ← get name members >>= as_natural
  require (leb floor raw)
  some raw

-- A field that is not usable is `None`, and never refuses the configuration.
unfoldable pub pushover_field : Members → Text → Option Text
unfolding get is_absolute path_text
pushover_field members name = do
  raw ← get name members >>= as_text
  require (is_absolute raw)
  some (path_text raw)

-- `loaded` is what `json.loads` makes of the file, `none` where that cannot be read; each key stands
-- once in its object. A ConfigurationError is `none`.
unfoldable pub load_config : Option Value → Option Config
unfolding path_field text_field count_field pushover_field
load_config loaded = do
  v ← loaded
  members ← as_object v
  state_root ← path_field members (codes "state_root")
  log_root ← path_field members (codes "log_root")
  deployment_lock ← path_field members (codes "deployment_lock")
  wait ← count_field members (codes "deployment_lock_wait_seconds") 0
  retention ← count_field members (codes "retention_hours") minimum_retention_hours
  dangling ← count_field members (codes "dangling_retention_hours") 1
  days ← count_field members (codes "log_retention_days") 1
  docker_path ← path_field members (codes "docker_path")
  curl_path ← path_field members (codes "curl_path")
  tool_path ← text_field members (codes "tool_path")
  require (leb dangling retention)
  some (record {
    state_root = state_root;
    log_root = log_root;
    deployment_lock = deployment_lock;
    deployment_lock_wait_seconds = wait;
    retention_hours = retention;
    dangling_retention_hours = dangling;
    log_retention_days = days;
    docker_path = docker_path;
    curl_path = curl_path;
    tool_path = tool_path;
    pushover_alerts_curl_config = pushover_field members (codes "pushover_alerts_curl_config");
    pushover_containers_curl_config =
        pushover_field members (codes "pushover_containers_curl_config");
  })

-- The words of one pass, whose filter is on so many hours.
abbrev command : Config → List Text → ℕ → List Text
command config flags hours =
    config.docker_path
    ∷ codes "image"
    ∷ codes "prune"
    ∷ (flags
        ++ codes "--force"
          ∷ codes "--filter"
          ∷ (codes "until=" ++ (decimal_text hours ++ codes "h"))
          ∷ [])

-- The label and the words of each pass of PRUNE_PASSES.
unfoldable pub prune_commands : Config → List (Text × List Text)
unfolding decimal_text
prune_commands config =
    (codes "unused", command config (codes "--all" ∷ []) config.retention_hours)
    ∷ (codes "dangling", command config [] config.dangling_retention_hours)
    ∷ []
