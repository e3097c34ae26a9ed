-- ===== src/Gate/Examples.antt =====
-- services/downloaders/clamav_gate.py on a download with a signature, and on one without.
use nas_platform.Common.{
  ℕ, ◌+◌, ◌*◌, true, any, false, [], ◌∷◌, none, ◌≡◌, ◌≢◌, ◌↔◌, ◌⊎◌, refl, arith, if◌then◌else◌,
  ◌==◌,
}
use nas_platform.Common.Text.{Text, codes, text_eq, encodes_utf8, is_surrogate, digits_from}
use nas_platform.Gate.{
  Reply, replied, os_error, scanned, Settings, Job, ready, out_of_rounds, has_pong, await_clamd,
  enough_rounds, main, wait_and_scan,
}
use nas_platform.Gate.Wait.{await_clamd-ends}
use nas_platform.Gate.Verdict.{NamedSignature, WasClean, main-exit_code, main-WasClean}

abbrev settings : Settings
settings = record {
  host = codes "clamav";
  port = 3310;
  ready_timeout = 10;
  alerts_token = codes "token";
  user_key = codes "key";
  printable = encodes_utf8;
}

-- clamd is back in the second round.
abbrev pong_later : ℕ → Reply
pong_later n = if n == 0 then os_error (codes "refused") else replied (codes "PONG")

abbrev job_of : Text → Job
job_of reply = record {
  complete_dir = codes "/data";
  final_name = codes "show";
  is_directory = true;
  start = 100;
  ping = pong_later;
  clock = λ n. 100 + 5 * n;
  scan = scanned reply;
}

abbrev infected_job : Job
infected_job = job_of (codes "/data/a: Eicar FOUND\n/data/b: OK\n")

abbrev clean_job : Job
clean_job = job_of (codes "/data: OK\n")

refused : (main settings infected_job).exit_code ≡ 1
unfolding main wait_and_scan text_eq encodes_utf8 any is_surrogate digits_from
refused = refl

imported :
    ((main settings clean_job).raised ≡ false)
    × ((main settings clean_job).exit_code ≡ 0)
    × ((main settings clean_job).page ≡ none)
unfolding main wait_and_scan text_eq encodes_utf8 any is_surrogate digits_from
imported = (refl, refl, refl)

-- A name that is not UTF-8 holds a surrogate, which stdout refuses: the job is imported for all that
-- clamd said.
abbrev surrogate_job : Job
surrogate_job = record infected_job { final_name = 0xdcff ∷ [] }

infected_is_imported :
    ((main settings surrogate_job).exit_code ≡ 0) × ((main settings surrogate_job).page ≡ none)
unfolding main wait_and_scan text_eq encodes_utf8 any is_surrogate digits_from
infected_is_imported = (refl, refl)

await_clamd-ends_example :
    (await_clamd settings infected_job (enough_rounds settings) ≢ out_of_rounds)
    × (await_clamd settings infected_job (enough_rounds settings) ≡ ready
        → (n : ℕ) × (has_pong (infected_job.ping n) ≡ true))
await_clamd-ends_example = await_clamd-ends settings infected_job (λ n. omega arith)

main-exit_code_example :
    (((main settings infected_job).exit_code ≡ 1) ↔ NamedSignature settings infected_job)
    × (((main settings infected_job).exit_code ≡ 0) ⊎ ((main settings infected_job).exit_code ≡ 1))
main-exit_code_example = main-exit_code settings infected_job

main-WasClean_example : WasClean clean_job
main-WasClean_example =
    main-WasClean settings clean_job (λ e. cc, λ e. cc) imported.0 imported.1 imported.2
