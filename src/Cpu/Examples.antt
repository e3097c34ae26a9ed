-- ===== src/Cpu/Examples.antt =====
-- filter_plugins/container_cpu.py on concrete inputs.
use nas_platform.Common.{◌≡◌, refl, true, none, some, List, [], ◌∷◌}
use nas_platform.Common.Text.{Text, codes, digits_from}
use nas_platform.Common.Sort.{All}
use nas_platform.Common.Value.{Value, natural, bool, text, object, end, member}
use nas_platform.Cpu.{Policy, platform_container_cpuset, platform_container_cpu_runtime_errors}
use nas_platform.Cpu.Confined.{Any, IsConfined, IsExpected, runtime_errors-IsConfined}

three_of_four : platform_container_cpuset (natural 4) (natural 3) (bool true) ≡ some (codes "0-2")
unfolding platform_container_cpuset digits_from
three_of_four = refl

no_headroom : platform_container_cpuset (natural 4) (natural 4) (bool true) ≡ none
unfolding platform_container_cpuset
no_headroom = refl

-- The quota of every service is two CPUs.
abbrev policy : Policy
policy = record {
  services = (codes "web", object end) ∷ (codes "db", object end) ∷ [];
  nanocpus_of = λ spec. some 2000000000;
  expected = codes "web" ∷ codes "db" ∷ [];
  cpuset = codes "0-2";
  shown = λ v. [];
}

abbrev running : Text → Text → Value
running service cpuset = object (
    member (codes "Config")
      (object (
        member (codes "Labels")
          (object (member (codes "com.docker.compose.service") (text service) end)) end))
      (member (codes "HostConfig")
        (object (
          member (codes "CpusetCpus") (text cpuset)
            (member (codes "NanoCpus") (natural 2000000000) end)))
        end))

abbrev both_run : List Value
both_run = running (codes "web") (codes "0-2") ∷ running (codes "db") (codes "0-2") ∷ []

both_are_confined : platform_container_cpu_runtime_errors policy both_run ≡ some []
unfolding platform_container_cpu_runtime_errors
both_are_confined = refl

db_is_missing :
    platform_container_cpu_runtime_errors policy (running (codes "web") (codes "0-2") ∷ [])
    ≡ some (codes "db: no running container found" ∷ [])
unfolding platform_container_cpu_runtime_errors
db_is_missing = refl

runtime_errors-IsConfined_example :
    All (λ service. Any (IsConfined policy service) both_run) policy.expected
    × All (IsExpected policy) both_run
runtime_errors-IsConfined_example = runtime_errors-IsConfined policy both_run both_are_confined
