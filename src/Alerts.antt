-- ===== src/Alerts.antt =====
-- The alerts of modules/monitoring.py: rules, delivery and history, and the alerts of modules/time_machine.py that are not
-- repeated within six hours. What the webhook and the mail server answer is an argument.
use runvard.Base.{
  ℕ, ◌+◌, String, Bool, true, false, Option, none, some, List, [], ◌∷◌, ◌++◌, not, ◌&&◌, ◌==◌, ltb,
  eqb, first_of, is_blank, if◌then◌else◌, or_zero,
}
use runvard.Base.Dict
use runvard.Base.Dict.{Dict}

pub record Rule : Type 0 where
  pub id : ℕ
  pub metric : String
  pub threshold : ℕ
  pub channel : String
  pub enabled : Bool

-- `channels`: the address of the webhook, and whether mail is configured.
pub record Channels : Type 0 where
  pub webhook : Option String
  pub email : Bool

pub record Alert : Type 0 where
  pub time : ℕ
  pub message : String
  pub channel : String
  pub delivered : Bool
  pub delivery_error : Option String

pub record Monitor : Type 0 where
  pub rules : List Rule
  pub channels : Channels
  pub history : List Alert

-- `{"ok": True}`, or the error
pub data Delivery : Type 0 where
  accepted : Delivery
  refused : (error : String) → Delivery

-- `now` is the time in whole seconds.
unfoldable pub add_alert_rule :
    (metric : String) → (threshold : ℕ) → (channel : String) → ℕ → Monitor → Monitor
add_alert_rule metric threshold channel now m = record m {
  rules =
      m.rules
      ++ (record {
        id = now;
        metric = metric;
        threshold = threshold;
        channel = channel;
        enabled = true;
      }
          ∷ []);
}

-- What the two senders answer.
pub record Senders : Type 0 where
  pub webhook : Delivery
  pub email : Delivery

unfoldable pub deliver : Senders → (channel : String) → Channels → Delivery
deliver senders channel channels =
    if channel == "webhook"
    then if is_blank channels.webhook
      then refused "webhook channel is not configured"
      else senders.webhook
    else if channel == "email"
    then if not channels.email then refused "email channel is not configured" else senders.email
    else if channel == "in-app"
    then accepted
    else refused "unknown alert channel"

abbrev error_of : Delivery → Option String
error_of accepted = none
error_of (refused error) = some (if error == "" then "delivery failed" else error)

abbrev is_none : Option String → Bool
is_none none = true
is_none (some error) = false

-- The answer is the error, if there is one.
unfoldable pub trigger_alert :
    Senders → (message channel : String) → ℕ → Monitor → Option String × Monitor
trigger_alert senders message channel now m =
    let error = error_of (deliver senders channel m.channels) in
    (
      error,
      record m {
        history = first_of 200 (
            record {
              time = now;
              message = message;
              channel = channel;
              delivered = is_none error;
              delivery_error = error;
            }
            ∷ m.history);
      },
    )

-- `_alert_sink`
unfoldable pub sink_channel : Channels → String
sink_channel channels =
    if not (is_blank channels.webhook)
    then "webhook"
    else if channels.email
    then "email"
    else "in-app"

-- `alert_cooldowns` of the Time Machine beside the monitor.
pub record Alerting : Type 0 where
  pub monitor : Monitor
  pub cooldowns : Dict ℕ

-- Six hours, in seconds
abbrev pub cooldown : ℕ
cooldown = 21600

abbrev is_cooling : ℕ → ℕ → Bool
is_cooling last now = not (eqb last 0) && ltb now (last + cooldown)

abbrev sent : (key : String) → ℕ → Option String × Monitor → Dict ℕ → Bool × Alerting
sent key now (none, m) cooldowns =
    (true, record { monitor = m; cooldowns = Dict.insert key now cooldowns })
sent key now (some error, m) cooldowns = (false, record { monitor = m; cooldowns = cooldowns })

unfoldable pub emit_deduplicated_alert :
    Senders → (key message : String) → ℕ → Alerting → Bool × Alerting
emit_deduplicated_alert senders key message now a =
    let last = or_zero (Dict.get key a.cooldowns) in
    if is_cooling last now
    then (false, a)
    else sent key now
        (trigger_alert senders message (sink_channel a.monitor.channels) now a.monitor) a.cooldowns
