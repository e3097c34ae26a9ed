-- ===== src/Prune/Settings/Valid.antt =====
-- scripts/image_prune.py: what a configuration that `load_config` takes holds, and which commands
-- `prune_commands` makes of it.
use nas_platform.Common.{
  ℕ, ◌≤◌, ◌≡◌, ◌⊎◌, refl, inl, inr, true, Option, some, List, [], ◌∷◌, ◌++◌, leb, length, arith,
  leb→le, Bool-cases, not, ◌&&◌,
}
use nas_platform.Common.Text.{Text, codes, starts_with, decimal_text}
use nas_platform.Common.Value.{
  Value, Members, get, as_text, as_natural, as_object, ◌>>=◌, >>=-eq-some, require-eq-some,
}
use nas_platform.Common.Sort.{All}
use mathlib.Core.Path.{subst}
use mathlib.Core.Option.{some-injective}
use nas_platform.Prune.Settings.{
  Config, minimum_retention_hours, is_absolute, path_text, path_field, text_field, count_field,
  load_config, prune_commands,
}

absolute-path_text : (raw : Text) → is_absolute (path_text raw) ≡ true
unfolding path_text is_absolute
absolute-path_text raw =
    elim (Bool-cases (starts_with raw (codes "//") && not (starts_with raw (codes "///")))) [
      | inl two ↦ rw two refl
      | inr one ↦ rw one refl
    ]

module _ (members : Members) (name : Text) where
  count_field-le : (floor n : ℕ) → count_field members name floor ≡ some n → floor ≤ n
  unfolding count_field
  count_field-le floor n e =
      let (raw, found, e1) = >>=-eq-some (get name members >>= as_natural) _ n e in
      let (enough, e2) = require-eq-some (leb floor raw) _ n e1 in ground arith

  path_field-is_absolute :
      (path : Text) → path_field members name ≡ some path → is_absolute path ≡ true
  unfolding path_field
  path_field-is_absolute path e =
      let (raw, found, e1) = >>=-eq-some (get name members >>= as_text) _ path e in
      let (filled, e2) = require-eq-some (leb 1 (length raw)) _ path e1 in
      let (absolute, e3) = require-eq-some (is_absolute raw) _ path e2 in
      subst (λ p. is_absolute p ≡ true) (some-injective _ path e3) (absolute-path_text raw)

-- What the rest of the program relies on.
pub record IsConfig (c : Config) : Type 0 where
  pub retention : minimum_retention_hours ≤ c.retention_hours
  pub dangling : c.dangling_retention_hours ≤ c.retention_hours
  pub dangling_positive : 1 ≤ c.dangling_retention_hours
  pub days : 1 ≤ c.log_retention_days
  pub docker_absolute : is_absolute c.docker_path ≡ true

pub load_config-IsConfig :
    (loaded : Option Value) (c : Config) → load_config loaded ≡ some c → IsConfig c
unfolding load_config
load_config-IsConfig loaded c e =
    let (v, is_value, e1) = >>=-eq-some loaded _ c e in
    let (members, object, e2) = >>=-eq-some (as_object v) _ c e1 in
    let (root, at_root, e3) = >>=-eq-some (path_field members (codes "state_root")) _ c e2 in
    let (logs, at_logs, e4) = >>=-eq-some (path_field members (codes "log_root")) _ c e3 in
    let (lock, at_lock, e5) = >>=-eq-some (path_field members (codes "deployment_lock")) _ c e4 in
    let (wait, at_wait, e6) =
      >>=-eq-some (count_field members (codes "deployment_lock_wait_seconds") 0) _ c e5 in
    let (hours, at_hours, e7) =
      >>=-eq-some (count_field members (codes "retention_hours") minimum_retention_hours) _ c e6 in
    let (short, at_short, e8) =
      >>=-eq-some (count_field members (codes "dangling_retention_hours") 1) _ c e7 in
    let (days, at_days, e9) =
      >>=-eq-some (count_field members (codes "log_retention_days") 1) _ c e8 in
    let (docker, at_docker, e10) = >>=-eq-some (path_field members (codes "docker_path")) _ c e9 in
    let (curl, at_curl, e11) = >>=-eq-some (path_field members (codes "curl_path")) _ c e10 in
    let (tools, at_tools, e12) = >>=-eq-some (text_field members (codes "tool_path")) _ c e11 in
    let (ordered, e13) = require-eq-some (leb short hours) _ c e12 in
    subst IsConfig (some-injective _ c e13) (record {
      retention =
          count_field-le members (codes "retention_hours") minimum_retention_hours hours at_hours;
      dangling = leb→le short hours ordered;
      dangling_positive =
          count_field-le members (codes "dangling_retention_hours") 1 short at_short;
      days = count_field-le members (codes "log_retention_days") 1 days at_days;
      docker_absolute = path_field-is_absolute members (codes "docker_path") docker at_docker;
    })

-- A command that Docker may be given: it prunes images only; with --all those that are at least a day
-- old, else the untagged ones that are at least an hour old.
abbrev pub IsPruneCommand : List Text → Type 0
IsPruneCommand words =
    (docker : Text) × (hours : ℕ) × (is_absolute docker ≡ true)
    × (((24 ≤ hours)
          × (words
              ≡ docker
                ∷ codes "image"
                ∷ codes "prune"
                ∷ codes "--all"
                ∷ codes "--force"
                ∷ codes "--filter"
                ∷ (codes "until=" ++ (decimal_text hours ++ codes "h"))
                ∷ []))
        ⊎ ((1 ≤ hours)
            × (words
                ≡ docker
                  ∷ codes "image"
                  ∷ codes "prune"
                  ∷ codes "--force"
                  ∷ codes "--filter"
                  ∷ (codes "until=" ++ (decimal_text hours ++ codes "h"))
                  ∷ [])))

pub prune_commands-IsPruneCommand :
    (c : Config) → IsConfig c → All (λ p. IsPruneCommand (p.1)) (prune_commands c)
unfolding prune_commands
prune_commands-IsPruneCommand c k = (
  (c.docker_path, c.retention_hours, k.docker_absolute, inl (k.retention, refl)),
  (
    (c.docker_path, c.dangling_retention_hours, k.docker_absolute, inr (k.dangling_positive, refl)),
    tt,
  ),
)
