-- ===== src/Gate.antt =====
-- services/downloaders/clamav_gate.py: the gate that refuses a completed download that clamd calls
-- infected. What clamd, the clock and Pushover answer is the surroundings of one run.
pub mod Wait
pub mod Verdict
mod Examples
use nas_platform.Common.{
  ℕ, zero, suc, ◌+◌, Bool, true, false, ◌&&◌, ◌||◌, not, Option, none, some, List, [], ◌∷◌, ◌++◌,
  leb, ◌==◌, if◌then◌else◌, length, select, map, all,
}
use nas_platform.Common.Text.{Text, codes, ends_with, decimal_text}
use nas_platform.Common.Words.{contains, split_lines, strip}

-- What a command to clamd gives: the whole reply, or the text of an OSError.
pub data Reply : Type 0 where
  replied : Text → Reply
  os_error : Text → Reply

-- What the scan gives: the reply, or an exception as "{type name}: {error}".
pub data Scan : Type 0 where
  scanned : Text → Scan
  raised : Text → Scan

-- The settings of the gate. READY_TIMEOUT is in whole seconds; `printable` says whether stdout takes
-- a line, which its encoding may refuse.
pub record Settings : Type 0 where
  pub host : Text
  pub port : ℕ
  pub ready_timeout : ℕ
  pub alerts_token : Text
  pub user_key : Text
  pub printable : Text → Bool

-- One run: the variables of SABnzbd, whether the directory is one, the answer to the PING of each
-- round, what the monotonic clock reads after it, in seconds, and the scan.
pub record Job : Type 0 where
  pub complete_dir : Text
  pub final_name : Text
  pub is_directory : Bool
  pub start : ℕ
  pub ping : ℕ → Reply
  pub clock : ℕ → ℕ
  pub scan : Scan

unfoldable pub has_pong : Reply → Bool
unfolding contains
has_pong (replied text) = contains text (codes "PONG")
has_pong (os_error error) = false

unfoldable pub ping_failure : Settings → Reply → Text
unfolding decimal_text
ping_failure settings (replied text) = codes "clamd answered PING with something other than PONG"
ping_failure settings (os_error error) =
    codes "clamd is unreachable at "
    ++ (settings.host
        ++ (codes ":" ++ (decimal_text settings.port ++ (codes " (" ++ (error ++ codes ")")))))

-- How `await_clamd` ends: it returns, or raises RuntimeError with a text.
pub data Waited : Type 0 where
  ready : Waited
  gave_up : Text → Waited
  out_of_rounds : Waited

-- The loop of `await_clamd` from the round `n`, for so many rounds at most.
unfoldable pub await_from : Settings → Job → ℕ → ℕ → Waited
unfolding has_pong ping_failure decimal_text
await_from settings job zero n = out_of_rounds
await_from settings job (suc rounds) n =
    let later = await_from settings job rounds (suc n) in
    if has_pong (job.ping n)
    then ready
    else if leb (job.start + settings.ready_timeout) (job.clock n)
    then gave_up (
        ping_failure settings (job.ping n)
        ++ (codes "; still true after " ++ (decimal_text settings.ready_timeout ++ codes "s")))
    else later

unfoldable pub await_clamd : Settings → Job → ℕ → Waited
unfolding await_from
await_clamd settings job rounds = await_from settings job rounds 0

-- [line for line in reply.replace("\0", "\n").splitlines() if line.strip()]
unfoldable pub reply_lines : Text → List Text
unfolding split_lines select strip
reply_lines reply =
    select (λ line. leb 1 (length (strip line)))
      (split_lines (map (λ c. if c == 0 then 0x0a else c) reply))

-- A message that `alert` is to post.
pub record Page : Type 0 where
  pub title : Text
  pub message : Text

-- `alert` never raises; without both credentials it posts nothing. Whether the message can be encoded
-- and gets to Pushover is left out.
unfoldable pub alert : Settings → Text → Text → Option Page
alert settings name detail =
    if leb 1 (length settings.alerts_token) && leb 1 (length settings.user_key)
    then some (record {
      title = codes "SABnzbd imported an unscanned download";
      message = name ++ (codes " was imported without a ClamAV verdict: " ++ detail);
    })
    else none

-- What one run ends with: its exit code, the lines it printed but for those of `alert` and of the last
-- net, the page that `alert` is to post, and whether `main` raised.
pub record Outcome : Type 0 where
  pub exit_code : ℕ
  pub printed : List Text
  pub page : Option Page
  pub raised : Bool

-- The lines before the first that stdout refuses.
unfoldable pub lines_before : (Text → Bool) → List Text → List Text
lines_before printable [] = []
lines_before printable (line ∷ lines) =
    let rest = lines_before printable lines in if printable line then line ∷ rest else []

-- What `main` ends with after it printed some lines. Where a print raises, the last net catches it,
-- and exits with 0.
unfoldable pub after_lines : Settings → List Text → ℕ → Option Page → Outcome
unfolding all lines_before
after_lines settings lines code page =
    if all settings.printable lines
    then record { exit_code = code; printed = lines; page = page; raised = false }
    else record {
      exit_code = 0;
      printed = lines_before settings.printable lines;
      page = none;
      raised = true;
    }

unfoldable pub unavailable : Settings → Text → Text → List Text → Outcome
unfolding alert after_lines
unavailable settings name detail lines =
    after_lines settings
      ((codes "SCANNER UNAVAILABLE: "
          ++ (name ++ (codes " was imported without being scanned: " ++ detail)))
        ∷ lines)
      0 (alert settings name detail)

abbrev or_text : Text → Text → Text
or_text [] t = t
or_text (c ∷ s) t = c ∷ s

unfoldable pub job_name : Job → Text
job_name job = or_text job.final_name (or_text job.complete_dir (codes "(unnamed job)"))

abbrev or_lines : List Text → List Text → List Text
or_lines [] other = other
or_lines (line ∷ lines) other = line ∷ lines

abbrev pub is_found : Text → Bool
is_found line = ends_with line (codes " FOUND")

abbrev pub is_errored : Text → Bool
is_errored line = ends_with line (codes " ERROR")

unfoldable pub clean : Settings → Text → List Text → Outcome
unfolding decimal_text after_lines
clean settings name lines =
    after_lines settings
      ((codes "Clean: ClamAV scanned "
          ++ (name
              ++ (codes " and found nothing in "
                  ++ (decimal_text (length lines) ++ codes " result line(s)."))))
        ∷ [])
      0 none

-- `main` where no line names a signature.
unfoldable pub not_infected : Settings → Text → List Text → Outcome
unfolding unavailable clean select ends_with
not_infected settings name lines =
    let errored = select is_errored lines in
    if leb 1 (length errored) || length lines == 0
    then unavailable settings name (codes "ClamAV could not complete the scan.")
        (or_lines errored (codes "clamd returned an empty reply" ∷ []))
    else clean settings name lines

-- The lines that refuse a job.
unfoldable pub infected_lines : Text → List Text → List Text
infected_lines name infected =
    (codes "INFECTED: " ++ (name ++ codes " was refused by ClamAV.")) ∷ infected

unfoldable pub infected_outcome : Settings → Text → List Text → Outcome
unfolding infected_lines after_lines
infected_outcome settings name infected = after_lines settings (infected_lines name infected) 1 none

-- The part of `main` behind the scan.
unfoldable pub judge : Settings → Text → List Text → Outcome
unfolding not_infected infected_outcome select ends_with
judge settings name lines =
    let infected = select is_found lines in
    if leb 1 (length infected)
    then infected_outcome settings name infected
    else not_infected settings name lines

unfoldable pub scan_job : Settings → Text → Scan → Outcome
unfolding unavailable judge reply_lines
scan_job settings name (raised error) = unavailable settings name error []
scan_job settings name (scanned reply) = judge settings name (reply_lines reply)

-- The rounds that `await_clamd` takes at most where the clock goes on five seconds a round.
abbrev pub enough_rounds : Settings → ℕ
enough_rounds settings = suc settings.ready_timeout

-- `main` behind the wait for clamd.
unfoldable pub after_wait : Settings → Job → Waited → Outcome
unfolding job_name unavailable scan_job
after_wait settings job ready = scan_job settings (job_name job) job.scan
after_wait settings job (gave_up error) =
    unavailable settings (job_name job) (codes "RuntimeError: " ++ error) []
after_wait settings job out_of_rounds = unavailable settings (job_name job) [] []

-- `main` behind its guards, and with them.
unfoldable pub wait_and_scan : Settings → Job → Outcome
unfolding await_clamd after_wait
wait_and_scan settings job =
    after_wait settings job (await_clamd settings job (enough_rounds settings))

unfoldable pub main : Settings → Job → Outcome
unfolding job_name unavailable
main settings job =
    if length job.complete_dir == 0
    then unavailable settings (job_name job) (codes "SABnzbd passed no SAB_COMPLETE_DIR to scan.")
        []
    else if not job.is_directory
    then unavailable settings (job_name job)
        (job.complete_dir ++ codes " is not a directory this container can see.") []
    else wait_and_scan settings job
