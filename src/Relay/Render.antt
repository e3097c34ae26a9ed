-- ===== src/Relay/Render.antt =====
-- services/dozzle/alert_relay.py: the Pushover fields of an alert and of a ceiling notice.
use nas_platform.Common.{
  ℕ, zero, suc, ◌+◌, ◌-◌, ◌*◌, ◌/◌, ◌%◌, Bool, true, false, ◌&&◌, ◌||◌, Option, none, some, List,
  [], ◌∷◌, ◌++◌, ltb, leb, ◌==◌, if◌then◌else◌, take,
}
use nas_platform.Common.Text.{Text, codes, decimal_text}
use nas_platform.Message.{html_escape, html_escape_to, compose_message}
use nas_platform.Relay.Clock.{is_leap, days_before_common, padded, ordinal}
use nas_platform.Relay.Budget.{
  Rule, oom, unexpected_exit, unhealthy, recovery, Scope, everything, container,
}
use nas_platform.Relay.Event.{Event}
use nas_platform.Relay.Health.{order_of}

-- The form fields of one message; `priority` is Pushover's number plus 2.
pub record Notification : Type 0 where
  pub title : Text
  pub message : Text
  pub priority : ℕ
  pub url : Option (Text × Text)  -- with url_title
  pub timestamp : Option ℕ
  pub emergency : Option (ℕ × ℕ)  -- retry and expire

abbrev pub color_green : Text
color_green = codes "#2e7d32"

abbrev pub color_red : Text
color_red = codes "#c62828"

abbrev pub color_amber : Text
color_amber = codes "#f9a825"

abbrev pub lowest_priority : ℕ
lowest_priority = 1

abbrev pub high_priority : ℕ
high_priority = 3

-- EMERGENCY_PRIORITY
abbrev pub emergency_priority : ℕ
emergency_priority = 4

abbrev pub max_title_container_characters : ℕ
max_title_container_characters = 128

abbrev pub max_url_characters : ℕ
max_url_characters = 512

abbrev container_route : Text
container_route = codes "/container/"

-- The label of the host, whose emoji takes the variation selector U+FE0F.
abbrev pub host_label : Text
host_label = codes "🖥" ++ (0xfe0f ∷ codes " <b>Host</b> ")

-- <font color="…">…</font>
unfoldable pub coloured : Text → Text → Text
coloured color s = codes "<font color=\"" ++ (color ++ (codes "\">" ++ (s ++ codes "</font>")))

-- The year of an ordinal day and the day in the year, by the cycles of 400, 100, 4 and 1 years.
unfoldable pub year_of : ℕ → ℕ × ℕ
year_of ordinal =
    let n = ordinal - 1 in
    let n400 = n / 146097 in
    let a = n % 146097 in
    let n100 = a / 36524 in
    let b = a % 36524 in
    let n4 = b / 1461 in
    let c = b % 1461 in
    let n1 = c / 365 in
    let year = n400 * 400 + n100 * 100 + n4 * 4 + n1 + 1 in
    if n1 == 4 || n100 == 4 then (year - 1, 365) else (year, c % 365)

-- Days before the first of a month.
unfoldable pub days_before_month : ℕ → ℕ → ℕ
unfolding is_leap days_before_common
days_before_month y m = days_before_common m + (if ltb 2 m && is_leap y then 1 else 0)

-- The month, counted down from `m`, that a day of the year lies in.
unfoldable pub month_from : ℕ → ℕ → ℕ → ℕ
unfolding days_before_month
month_from zero y day = 1
month_from (suc m) y day =
    let earlier = month_from m y day in
    if leb (days_before_month y (suc m)) day then suc m else earlier

-- %b in the C locale
unfoldable pub month_name : ℕ → Text
month_name m =
    if m == 1
    then codes "Jan"
    else if m == 2
    then codes "Feb"
    else if m == 3
    then codes "Mar"
    else if m == 4
    then codes "Apr"
    else if m == 5
    then codes "May"
    else if m == 6
    then codes "Jun"
    else if m == 7
    then codes "Jul"
    else if m == 8
    then codes "Aug"
    else if m == 9
    then codes "Sep"
    else if m == 10
    then codes "Oct"
    else if m == 11
    then codes "Nov"
    else codes "Dec"

-- human_time: `14 Sep 02:03 UTC`
unfoldable pub human_time : ℕ → Text
unfolding year_of month_from month_name padded
human_time nanoseconds =
    let seconds = nanoseconds / 1000000000 in
    let (year, day) = year_of (seconds / 86400 + 1) in
    let month = month_from 12 year day in
    decimal_text (day - days_before_month year month + 1)
    ++ (codes " "
        ++ (month_name month
            ++ (codes " "
                ++ (padded 2 (seconds / 3600 % 24)
                    ++ (codes ":" ++ (padded 2 (seconds / 60 % 60) ++ codes " UTC"))))))

-- golem_fallback_line
unfoldable pub golem_fallback_line : Text → Text
unfolding coloured
golem_fallback_line application =
    codes "❓ <b>Reason</b> "
    ++ (coloured color_amber (codes "Golem app token not set")
        ++ (codes "; sent on " ++ application))

pub record Wording : Type 0 where
  pub title : Text
  pub state : Text
  pub closing : Text

-- notification_wording
unfoldable pub notification_wording : Rule → Text → Text → Wording
unfolding coloured
notification_wording oom name exit_code = record {
  title = codes "💥 Out of memory · " ++ name;
  state =
      codes "was "
      ++ (coloured color_red (codes "killed") ++ codes " by the kernel for running out of memory");
  closing = codes "<i>Repeats every 60 seconds until acknowledged, at most 50 times.</i>";
}
notification_wording unexpected_exit name exit_code = record {
  title = codes "🛑 " ++ (name ++ (codes " exited (" ++ (exit_code ++ codes ")")));
  state = coloured color_red (codes "stopped unexpectedly");
  closing = [];
}
notification_wording unhealthy name exit_code = record {
  title = codes "🟠 " ++ (name ++ codes " unhealthy");
  state = codes "is " ++ coloured color_amber (codes "unhealthy");
  closing = codes "<i>Open it in Dozzle to see why.</i>";
}
notification_wording recovery name exit_code = record {
  title = codes "🟢 " ++ (name ++ codes " recovered");
  state = codes "is " ++ (coloured color_green (codes "healthy") ++ codes " again");
  closing = [];
}

-- <a href="…">…</a> around the container, where there is a link base
unfoldable pub shown_container : Option Text → Event → Text → Text
shown_container none event escaped = escaped
shown_container (some link_base) event escaped =
    let url = link_base ++ (container_route ++ event.container_id) in
    codes "<a href=\""
    ++ (html_escape_to max_url_characters (6 * max_url_characters) url
        ++ (codes "\">" ++ (escaped ++ codes "</a>")))

abbrev exit_code_lines : Rule → Text → List Text
exit_code_lines unexpected_exit exit_code =
    (codes "🔢 <b>Exit code</b> " ++ coloured color_red (html_escape exit_code)) ∷ []
exit_code_lines _ exit_code = []

-- notification_details
unfoldable pub notification_details : Event → Text → Option Text → List Text
unfolding shown_container coloured human_time
notification_details event escaped link_base =
    ((host_label ++ html_escape event.host)
      ∷ (codes "📦 <b>Container</b> " ++ shown_container link_base event escaped)
      ∷ [])
    ++ (exit_code_lines event.rule event.exit_code
        ++ ((codes "🕒 <b>When</b> " ++ human_time (order_of event.timestamp)) ∷ []))

abbrev pub priority_of : Rule → ℕ
priority_of oom = emergency_priority
priority_of unexpected_exit = high_priority
priority_of unhealthy = high_priority
priority_of recovery = lowest_priority

-- emergency_fields: `retry` and `expire` on an emergency, and on nothing else
unfoldable pub emergency_fields : Notification → Notification
emergency_fields n =
    if n.priority == emergency_priority then record n { emergency = some (60, 3600) } else n

abbrev is_unhealthy : Rule → Bool
is_unhealthy unhealthy = true
is_unhealthy _ = false

abbrev is_none : {A : Type 0} → Option A → Bool
is_none none = true
is_none (some a) = false

-- (datetime(1970, 1, 1).toordinal() - 1) * 86_400
abbrev pub unix_epoch_seconds : ℕ
unix_epoch_seconds = 719162 * 86400

-- render_notification; the arithmetic on seconds stops at 0, so the test for a timestamp before
-- 1970 comes before it.
unfoldable pub render_notification : Event → Option Text → Bool → Notification
unfolding notification_wording notification_details emergency_fields golem_fallback_line
render_notification event link_base golem_fallback =
    let shown = html_escape event.container in
    let wording =
      notification_wording event.rule (take max_title_container_characters event.container)
        event.exit_code in
    let closing = if is_none link_base && is_unhealthy event.rule then [] else wording.closing in
    let seconds = order_of event.timestamp / 1000000000 in
    emergency_fields (record {
      title = wording.title;
      message =
          compose_message (codes "<b>" ++ (shown ++ (codes "</b> " ++ wording.state)))
            (notification_details event shown link_base
              ++ (if golem_fallback then golem_fallback_line (codes "Containers") ∷ [] else []))
            closing;
      priority = priority_of event.rule;
      url = elim link_base [
        | none ↦ none
        | some base ↦ some (base ++ (container_route ++ event.container_id), codes "Open in Dozzle")
      ];
      timestamp =
          if leb unix_epoch_seconds seconds then some (seconds - unix_epoch_seconds) else none;
      emergency = none;
    })

abbrev notice_closing : Option ℕ → Text
notice_closing none = codes "<i>Nothing more gets through until the next UTC day.</i>"
notice_closing (some allowance) =
    codes "<i>Out-of-memory kills still get through, up to "
    ++ (decimal_text allowance ++ codes " a day; everything else resumes at the next UTC day.</i>")

abbrev notice_subject : Scope → Text → Text × Text × List Text
notice_subject everything name = (codes "🔇 Alerts paused", codes "<b>Every alert</b> is ", [])
notice_subject container name = (
  codes "🔇 " ++ (take max_title_container_characters name ++ codes " alerts paused"),
  codes "<b>Alerts for " ++ (html_escape name ++ codes "</b> are "),
  (codes "📦 <b>Container</b> " ++ html_escape name) ∷ [],
)

-- render_ceiling_notice, from the host and the container of the event; a Beszel alert has no
-- container, and its notice is never of the scope that shows one.
unfoldable pub render_ceiling_notice : Text → Text → Scope → ℕ → Text → Option ℕ → Notification
unfolding coloured
render_ceiling_notice host name scope ceiling day oom_allowance =
    let (title, lead, shown) = notice_subject scope name in
    record {
      title = title;
      message =
          compose_message (lead ++ coloured color_amber (codes "paused"))
            ((host_label ++ html_escape host) ∷ shown
              ++ ((codes "❓ <b>Reason</b> "
                    ++ (decimal_text ceiling
                        ++ (codes " alerts already sent on " ++ (day ++ codes " (UTC)"))))
                  ∷ []))
            (notice_closing oom_allowance);
      priority = high_priority;
      url = none;
      timestamp = none;
      emergency = none;
    }
