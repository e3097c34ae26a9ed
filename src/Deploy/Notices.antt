-- ===== src/Deploy/Notices.antt =====
-- scripts/production_auto_deploy.py: what the poller remembers from one poll to the next beside of
-- the attempted record: forgiven failures, blind polls, and the refusal that was announced.
pub mod Forgiveness
pub mod Blindness
use nas_platform.Common.{
  ℕ, ◌+◌, Bool, true, false, ◌||◌, Option, none, some, List, [], ◌∷◌, ◌++◌, ltb, leb, ◌==◌,
  if◌then◌else◌, length,
}
use nas_platform.Common.Text.{Text, codes, text_eq}
use nas_platform.Deploy.Ci.{Verdict, green, pending, superseded, failed, ambiguous, Judgement}

-- The files of the state root as they are read: what cannot be read is as if it were not there.
pub record Files : Type 0 where
  pub attempted : Option Text
  pub last_successful : Option Text
  pub transient : Option (Text × ℕ)
  pub blind_polls : ℕ
  pub blind_alarm : Bool
  pub ci_refusal : Text

abbrev pub transient_forgiveness_limit : ℕ
transient_forgiveness_limit = 3

abbrev pub blind_poll_threshold : ℕ
blind_poll_threshold = 3

-- count + 1 if recorded == sha else 1
unfoldable pub next_count : Option (Text × ℕ) → Text → ℕ
next_count none sha = 1
next_count (some (recorded, count)) sha = if text_eq recorded sha then count + 1 else 1

-- clear_transient_failures: the flag tells whether the file could be removed
unfoldable pub clear_transient_failures : Bool → Files → Files
clear_transient_failures true files = record files { transient = none }
clear_transient_failures false files = files

-- may_retry_after_transient_failure: the flags tell whether the file can be written and removed
unfoldable pub may_retry_after_transient_failure : Bool → Bool → Text → Files → Bool × Files
unfolding next_count clear_transient_failures
may_retry_after_transient_failure writable removable sha files =
    let count = next_count files.transient sha in
    if ltb transient_forgiveness_limit count
    then (false, clear_transient_failures removable files)
    else if writable
    then (true, record files { transient = some (sha, count) })
    else (false, files)

-- A message that the publisher took.
pub data Notice : Type 0 where
  went_blind : ℕ → Notice
  sees_again : ℕ → Notice
  ci_refused : Text → Notice

-- note_blind_poll: `published` is what the publisher says if it is asked
unfoldable pub note_blind_poll : Bool → Files → List Notice × Files
note_blind_poll published files =
    let count = files.blind_polls + 1 in
    let counted = record files { blind_polls = count } in
    if ltb count blind_poll_threshold || files.blind_alarm
    then ([], counted)
    else if published
    then (went_blind count ∷ [], record counted { blind_alarm = true })
    else ([], counted)

unfoldable pub note_seeing_poll : Bool → Files → List Notice × Files
note_seeing_poll published files =
    let count = files.blind_polls in
    let cleared = record files { blind_alarm = false; blind_polls = 0 } in
    if count == 0
    then ([], files)
    else if leb blind_poll_threshold count
    then (if published then (sees_again count ∷ [], cleared) else ([], files))
    else ([], cleared)

-- A verdict that ends nothing: nobody has judged against the revision.
unfoldable pub lets_pass : Verdict → Bool
lets_pass green = true
lets_pass pending = true
lets_pass superseded = true
lets_pass failed = false
lets_pass ambiguous = false

abbrev verdict_text : Verdict → Text
verdict_text green = codes "green"
verdict_text pending = codes "pending"
verdict_text superseded = codes "superseded"
verdict_text failed = codes "failed"
verdict_text ambiguous = codes "ambiguous"

-- f"{sha} {verdict} {detail}"
unfoldable pub refusal_marker : Text → Judgement → Text
refusal_marker sha j = sha ++ (codes " " ++ (verdict_text j.verdict ++ (codes " " ++ j.detail)))

-- note_ci_refusal; the texts are ASCII without spaces around them, so they are read as written
unfoldable pub note_ci_refusal : Bool → Text → Judgement → Files → List Notice × Files
unfolding lets_pass refusal_marker
note_ci_refusal published sha j files =
    if lets_pass j.verdict
    then ([], record files { ci_refusal = [] })
    else if text_eq files.ci_refusal (refusal_marker sha j)
    then ([], files)
    else if published
    then (
      ci_refused (refusal_marker sha j) ∷ [],
      record files { ci_refusal = refusal_marker sha j },
    )
    else ([], files)
