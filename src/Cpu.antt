-- ===== src/Cpu.antt =====
-- filter_plugins/container_cpu.py: the CPU set of the managed containers, and the check of the running
-- ones. An AnsibleFilterError is `none`.
mod Within
pub mod Confined
mod Examples
use nas_platform.Common.{
  ℕ, ◌-◌, Bool, true, false, not, ◌&&◌, ◌||◌, Option, none, some, List, [], ◌∷◌, ◌++◌, leb, ◌==◌,
  if◌then◌else◌, length, any, all, select, map,
}
use nas_platform.Common.Text.{Text, codes, text_eq, text_lt, decimal_text}
use nas_platform.Common.Dict.{Dict, lookup, has, text_keys}
use nas_platform.Common.Sort.{sorted}
use nas_platform.Common.Value.{
  Value, null, bool, natural, negative, fraction, text, array, object, Members, end, get, as_text,
  as_natural, as_bool, as_object, ◌>>=◌, ◌>>◌, require,
}

-- "0", or "0-" and the last CPU
unfoldable pub cpuset_text : ℕ → Text
unfolding decimal_text
cpuset_text budget = if budget == 1 then codes "0" else codes "0-" ++ decimal_text (budget - 1)

-- The budget that takes effect: none is all CPUs, where that is allowed.
unfoldable pub effective_budget : ℕ → ℕ → Bool → Option ℕ
effective_budget available budget headroom =
    if budget == 0 then (if headroom then none else some available) else some budget

unfoldable pub platform_container_cpuset : Value → Value → Value → Option Text
unfolding effective_budget cpuset_text
platform_container_cpuset available_cpus requested_budget require_headroom = do
  available ← as_natural available_cpus
  requested ← as_natural requested_budget
  headroom ← as_bool require_headroom
  require (leb 1 available)
  budget ← effective_budget available requested headroom
  require (leb budget available)
  require (not (headroom && leb available budget))
  some (cpuset_text budget)

-- What an inspected container says of itself; a value that is not there is `none`.
pub record Observation : Type 0 where
  pub service : Text
  pub cpuset : Option Value
  pub nanocpus : Option Value

-- host_config: an absent one is empty, and one that is no mapping is refused
abbrev mapping_or_empty : Option Value → Option Members
mapping_or_empty none = some end
mapping_or_empty (some v) = as_object v

-- Where "Config" or "Labels" is absent there is no service either.
unfoldable pub observe : Value → Option Observation
unfolding get
observe inspection = do
  entry ← as_object inspection
  config ← get (codes "Config") entry >>= as_object
  labels ← get (codes "Labels") config >>= as_object
  service ← get (codes "com.docker.compose.service") labels >>= as_text
  host_config ← mapping_or_empty (get (codes "HostConfig") entry)
  some (record {
    service = service;
    cpuset = get (codes "CpusetCpus") host_config;
    nanocpus = get (codes "NanoCpus") host_config;
  })

-- actual == expected, for an expected text and an expected number: True is 1, and Docker's quota is no
-- float
unfoldable pub is_text : Option Value → Text → Bool
unfolding text_eq
is_text (some (text s)) expected = text_eq s expected
is_text _ expected = false

unfoldable pub is_number : Option Value → ℕ → Bool
is_number (some (natural n)) expected = n == expected
is_number (some (bool true)) expected = expected == 1
is_number (some (bool false)) expected = expected == 0
is_number _ expected = false

abbrev pub holds_text : List Text → Text → Bool
holds_text names name = any (text_eq name) names

-- What the check is run with: the Compose services, what `_expected_nanocpus` makes of a spec (Python's
-- Decimal, `none` where the quota is invalid), the expected services and CPU set, and how a value is
-- written into a message.
pub record Policy : Type 0 where
  pub services : Dict Text Value
  pub nanocpus_of : Value → Option ℕ
  pub expected : List Text
  pub cpuset : Text
  pub shown : Option Value → Text

abbrev pub is_distinct : List Text → Bool
is_distinct [] = true
is_distinct (name ∷ names) = not (holds_text names name) && is_distinct names

module _ (p : Policy) where
  unfoldable pub drift : Text → Observation → ℕ → List Text
  unfolding is_text is_number decimal_text
  drift service o nanocpus =
      (if is_text o.cpuset p.cpuset
        then []
        else (service
            ++ (codes ": effective CPU set is "
                ++ (p.shown o.cpuset ++ (codes ", expected " ++ p.cpuset))))
          ∷ [])
      ++ (if is_number o.nanocpus nanocpus
          then []
          else (service
              ++ (codes ": effective CPU quota is "
                  ++ (p.shown o.nanocpus
                      ++ (codes ", expected " ++ (decimal_text nanocpus ++ codes " nanocpus")))))
            ∷ [])

  -- One inspection, after the services that were seen: its service and its messages.
  unfoldable pub check_one : List Text → Value → Option (Text × List Text)
  unfolding observe any text_eq lookup drift
  check_one seen inspection = do
    o ← observe inspection
    require (holds_text p.expected o.service && not (holds_text seen o.service))
    spec ← lookup o.service p.services
    nanocpus ← p.nanocpus_of spec
    some (o.service, drift o.service o nanocpus)

  -- The loop: the messages, and the services that were seen in the end.
  unfoldable pub check_all : List Text → List Value → Option (List Text × List Text)
  unfolding check_one
  check_all seen [] = some ([], seen)
  check_all seen (inspection ∷ more) = elim (check_one seen inspection) [
    | none ↦ none
    | some (service, messages) ↦ elim (check_all (service ∷ seen) more) [
      | none ↦ none
      | some (rest, seen') ↦ some (messages ++ rest, seen')
    ]
  ]

  unfoldable pub missing : List Text → List Text
  unfolding select any text_eq
  missing seen =
      map (λ service. service ++ codes ": no running container found")
        (select (λ service. not (holds_text seen service)) p.expected)

  unfoldable pub platform_container_cpu_runtime_errors : List Value → Option (List Text)
  unfolding check_all missing any text_eq all has sorted
  platform_container_cpu_runtime_errors inspections = do
    require (leb 1 (length p.services) && leb 1 (length inspections))
    require (leb 1 (length p.expected) && is_distinct p.expected)
    require (all (λ service. has service p.services) p.expected)
    require (leb 1 (length p.cpuset))
    (errors, seen) ← check_all [] inspections
    some (sorted text_lt (errors ++ missing seen))
