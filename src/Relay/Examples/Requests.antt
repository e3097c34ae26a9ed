-- ===== src/Relay/Examples/Requests.antt =====
-- Requests to the relay of services/dozzle/alert_relay.py on concrete inputs.
use nas_platform.Common.{◌+◌, ◌≤◌, ◌≡◌, ◌⊎◌, refl, true, false, Option, none, some, List, [], ◌∷◌}
use nas_platform.Common.Text.{codes, is_surrogate, digits_from}
use nas_platform.Common.Dict.{has}
use nas_platform.Relay.Delivered.{no_deliveries, seen}
use nas_platform.Relay.Process.{Relay, Stored, Weather, replaced, failed_before}
use nas_platform.Relay.Process.Settle.{alerts}
use nas_platform.Relay.Server.{value, Request, do_post}
use nas_platform.Relay.Server.Guard.{IsAdmitted, IsRefused, IsHandled, do_post-IsHandled}
use nas_platform.Relay.Server.Day.{Post, serve_posts, serve_posts-le-global_ceiling}
use nas_platform.Relay.Settings.{Config}
use nas_platform.Common.Value.{Value, text, object, end, member}
use nas_platform.Relay.Examples.Documents.{exit_envelope}
use nas_platform.Relay.Clock.{utc_day, padded}
use nas_platform.Relay.Examples.Data.{settings, noon, today}

abbrev pub fair : Weather
fair = record { now = noon; lock_works = true; upstream_works = true; replacement = replaced }

abbrev pub stormy : Weather
stormy = record fair { replacement = failed_before }

abbrev pub start : Relay
start = record { store = none; floor = none; delivered = no_deliveries; sent = [] }

abbrev pub empty_store : Option Stored
empty_store = some (record { entries = []; budget = none; migration_required = false })

-- The relay with an application for the alerts of Beszel.
abbrev with_alerts : Config
with_alerts = record settings { pushover_alerts_token = some (codes "alerts") }

abbrev exit_post : Request
exit_post = record {
  path = codes "/alerts";
  authorization = codes "Bearer relay";
  content_type = codes "Application/JSON; charset=utf-8";
  content_length = some 300;
  received = 300;
  loaded = value (exit_envelope (codes "137"));
}

abbrev down_alert : Value
down_alert = object (
    member (codes "title") (text (codes "Connection to Golem is down 🔴"))
      (member (codes "message") (text (codes "Connection to Golem is down")) end))

abbrev beszel_post : Request
beszel_post = record exit_post { path = codes "/beszel"; loaded = value down_alert }

locked_out : (do_post with_alerts (record fair { lock_works = false }) exit_post start).0 ≡ 500
unfolding do_post is_surrogate padded digits_from seen has
locked_out = refl

long_body_is_refused :
    do_post with_alerts fair (record exit_post { content_length = some 16385 }) start ≡ (413, start)
unfolding do_post
long_body_is_refused = refl

stranger_is_refused :
    do_post with_alerts fair (record exit_post { authorization = codes "Bearer guess" }) start
    ≡ (401, start)
unfolding do_post
stranger_is_refused = refl

do_post-IsHandled_example :
    IsRefused exit_post start (do_post with_alerts fair exit_post start)
    ⊎ (IsAdmitted with_alerts exit_post
        × IsHandled with_alerts fair exit_post start (do_post with_alerts fair exit_post start))
do_post-IsHandled_example = do_post-IsHandled with_alerts fair exit_post start

posts : List Post
posts =
    record { weather = fair; request = exit_post; found = empty_store }
    ∷ record { weather = stormy; request = beszel_post; found = none }
    ∷ record { weather = stormy; request = beszel_post; found = empty_store }
    ∷ []

-- Three requests of one day; the second finds no store, and the third writes none.
serve_posts-le-global_ceiling_example :
    alerts (serve_posts with_alerts start posts).sent
    ≤ alerts start.sent + with_alerts.global_ceiling
unfolding posts utc_day padded digits_from
serve_posts-le-global_ceiling_example =
    serve_posts-le-global_ceiling with_alerts today start posts (refl, (refl, (refl, tt)))
