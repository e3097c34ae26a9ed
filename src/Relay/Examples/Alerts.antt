-- ===== src/Relay/Examples/Alerts.antt =====
-- The alerts of Beszel in services/dozzle/alert_relay.py on concrete inputs.
use nas_platform.Common.{◌≡◌, refl, true, false, some, none}
use nas_platform.Common.Text.{Text, codes}
use nas_platform.Relay.Envelope.{Alert}
use nas_platform.Relay.Beszel.{
  below, status, threshold, classify_beszel, beszel_is_golem, beszel_link,
}

abbrev alert_of : Text → Alert
alert_of title = record { title = title; message = codes "A body\n\nhttps://beszel/system/abc" }

down_golem : classify_beszel (alert_of (codes "Connection to Golem is down 🔴")) ≡ record {
  kind = status (codes "Golem");
  problem = true;
  body = codes "A body";
  link = codes "https://beszel/system/abc";
}
unfolding classify_beszel
down_golem = refl

low_battery :
    (classify_beszel (alert_of (codes "my nas battery below threshold"))).kind
    ≡ threshold (codes "my nas") (codes "battery") below
unfolding classify_beszel
low_battery = refl

low_battery_is_problem :
    (classify_beszel (alert_of (codes "my nas battery below threshold"))).problem ≡ true
unfolding classify_beszel
low_battery_is_problem = refl

golem_by_title : beszel_is_golem (alert_of (codes "SMART failure on golem: sda")) ≡ true
unfolding beszel_is_golem
golem_by_title = refl

other_host : beszel_is_golem (alert_of (codes "SMART failure on golem-2: sda")) ≡ false
unfolding beszel_is_golem
other_host = refl

own_link :
    beszel_link (codes "https://beszel/system/abc") (some (codes "https://beszel"))
    ≡ some (codes "https://beszel/system/abc")
unfolding beszel_link
own_link = refl

foreign_link : beszel_link (codes "https://evil/system/abc") (some (codes "https://beszel")) ≡ none
unfolding beszel_link
foreign_link = refl
