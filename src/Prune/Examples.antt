-- ===== src/Prune/Examples.antt =====
-- scripts/image_prune.py on concrete inputs: tests, and each theorem at an input that meets its
-- conditions.
use nas_platform.Common.{
  ◌*◌, ◌≡◌, ◌↔◌, refl, inr, true, none, some, [], ◌∷◌, ◌++◌, leb, arith, length,
}
use nas_platform.Common.Text.{Text, codes, is_digit, decimal, digits_from}
use nas_platform.Common.Json.{join}
use nas_platform.Common.Value.{Value, natural, text, object, end, member}
use nas_platform.Prune.Settings.{Config, load_config}
use nas_platform.Prune.Arguments.{pruning, Names, parse_arguments, parse_arguments_iff}
use nas_platform.Prune.Lock.{Attempts, second, Advances, IsEnd, wait_for_lock, wait_for_lock-IsEnd}
use nas_platform.Prune.Report.{Floats, parse_reclaimed, count_removed, format_duration, count_lines}
use nas_platform.Prune.Run.{Surroundings, exited, rotate_logs, prune}
use nas_platform.Prune.Run.Told.{IsTold, prune-IsTold}
use nas_platform.Prune.Run.Safe.{IsSafe, prune-IsSafe}
use nas_platform.Relay.Clock.{DateTime, field}

-- Whole amounts only, and sizes that are not shown.
abbrev whole : Floats
whole = record { scaled = λ amount multiplier. length amount * multiplier; size_text = λ n. [] }

abbrev report : Text
report =
    codes "deleted: sha256:"
    ++ (codes "0123456789abcdef0123456789abcdef0123456789abcdef0123456789abcdef"
        ++ codes "\n\nTotal reclaimed space: 1.2GB\n")

one_removed : count_removed report ≡ 1
unfolding count_removed
one_removed = refl

three_gigabytes : parse_reclaimed whole report ≡ 3000000000
unfolding parse_reclaimed
three_gigabytes = refl

no_unit : parse_reclaimed whole (codes "Total reclaimed space: 12\n") ≡ 0
unfolding parse_reclaimed
no_unit = refl

two_images : count_lines (codes "abc\n def\nabc\n\n") ≡ 2
unfolding count_lines
two_images = refl

an_hour : format_duration 3725 ≡ codes "1h 2m 5s"
unfolding format_duration digits_from
an_hour = refl

parse_arguments_iff_example :
    (parse_arguments (codes "--prune" ∷ codes "--config" ∷ codes "/etc/prune.json" ∷ [])
      ≡ some (codes "/etc/prune.json", pruning))
    ↔ Names
        (codes "--prune" ∷ codes "--config" ∷ codes "/etc/prune.json" ∷ [])
        (codes "/etc/prune.json")
        pruning
parse_arguments_iff_example =
    parse_arguments_iff (codes "--prune" ∷ codes "--config" ∷ codes "/etc/prune.json" ∷ [])
      (codes "/etc/prune.json") pruning

-- A lock that is free at the third attempt.
abbrev third_time : Attempts
third_time = record { start = 0; locks = λ n. leb 2 n; clock = λ n. n * (15 * second) }

third_time-Advances : Advances third_time 60
third_time-Advances = (omega arith, λ n. inr (omega arith))

wait_for_lock-IsEnd_example : IsEnd third_time 60 (wait_for_lock third_time 60)
wait_for_lock-IsEnd_example = wait_for_lock-IsEnd third_time 60 third_time-Advances

abbrev file : Value
file = object (
    member (codes "state_root") (text (codes "/var//lib/prune/")) (
      member (codes "log_root") (text (codes "/var/log/prune")) (
        member (codes "deployment_lock") (text (codes "/run/deploy.lock")) (
          member (codes "deployment_lock_wait_seconds") (natural 60) (
            member (codes "retention_hours") (natural 168) (
              member (codes "dangling_retention_hours") (natural 24) (
                member (codes "log_retention_days") (natural 30) (
                  member (codes "docker_path") (text (codes "/usr/bin/docker")) (
                    member (codes "curl_path") (text (codes "/usr/bin/curl"))
                      (member (codes "tool_path") (text (codes "/usr/bin:/bin")) end))))))))))

abbrev config : Config
config = record {
  state_root = codes "/var/lib/prune";
  log_root = codes "/var/log/prune";
  deployment_lock = codes "/run/deploy.lock";
  deployment_lock_wait_seconds = 60;
  retention_hours = 168;
  dangling_retention_hours = 24;
  log_retention_days = 30;
  docker_path = codes "/usr/bin/docker";
  curl_path = codes "/usr/bin/curl";
  tool_path = codes "/usr/bin:/bin";
  pushover_alerts_curl_config = none;
  pushover_containers_curl_config = none;
}

taken : load_config (some file) ≡ some config
unfolding load_config join
taken = refl

abbrev night : DateTime
night = record {
  year = 2026;
  month = 9;
  day = 14;
  hour = 3;
  minute = 0;
  second = 0;
  microsecond = 0;
}

old_log_goes :
    rotate_logs config night
      (codes "20260101T030000Z-prune" ∷ codes "20260913T030000Z-prune" ∷ codes "latest" ∷ [])
    ≡ codes "20260101T030000Z-prune" ∷ []
unfolding rotate_logs is_digit field decimal
old_log_goes = refl

abbrev quiet : Surroundings
quiet = record {
  lock = third_time;
  docker = λ words. exited 0 report;
  now = night;
  seconds = 4;
  log_name = codes "/var/log/prune/20260914T030000Z-prune";
  logs = [];
  state_writable = true;
}

three_commands : length (prune whole config quiet).ran ≡ 3
unfolding prune
three_commands = refl

prune-IsTold_example :
    IsTold whole config quiet (prune whole config quiet) (prune whole config quiet).recorded
prune-IsTold_example = prune-IsTold whole config quiet

prune-IsSafe_example : IsSafe config quiet (prune whole config quiet).ran
prune-IsSafe_example = prune-IsSafe (some file) whole config quiet taken third_time-Advances
