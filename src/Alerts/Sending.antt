-- ===== src/Alerts/Sending.antt =====
-- `send_alert_email`, in the parts between its awaits, and backend/app/services/smtp_validate.py.
use glassops.Prelude.{
  ℕ, String, Bool, true, false, not, ◌&&◌, ◌||◌, Option, none, some, if◌then◌else◌, string_eq,
}
use glassops.Prelude.Text.{is_empty}
use glassops.Prelude.Dict
use glassops.Prelude.Dict.{Dict}
use glassops.Json.{Json, int, Members, get, find, truthy, pos}
use glassops.Alerts.{
  Alerts, Suppressed, Mode, suppression_reason, security_flags, security_mode, resolve_sender,
  clean, text_or_none,
}
use glassops.Alerts.Config.{Fernet, get_smtp_config}

-- What is handed to aiosmtplib, but for the text of the message.
pub record Job : Type 0 where
  pub host : Json
  pub port : Json
  pub sender : String
  pub recipient : String
  pub username : Option String
  pub password : Option Json
  pub use_tls : Bool
  pub start_tls : Bool

pub data Prepared : Type 0 where
  refused : String → Prepared
  ready : Job → Prepared

unfoldable pub json_or_none : Json → Option Json
json_or_none v = if truthy v then some v else none

unfoldable pub is_some {ℓ} : {A : Type ℓ} → Option A → Bool
is_some none = false
is_some (some _) = true

unfoldable pub default_port : Option Json → Json
default_port none = int (pos 587)
default_port (some port) = port

module _ (is_email : String → Bool) where
  unfoldable pub job_of : Members → Mode → String → Job
  job_of config mode sender = record {
    host = get "host" config;
    port = default_port (find "port" config);
    sender = sender;
    recipient = clean (get "to_email" config);
    username = text_or_none (clean (get "username" config));
    password = json_or_none (get "password" config);
    use_tls = (security_flags mode).0;
    start_tls = (security_flags mode).1;
  }

  -- The tests on the recipient and the credentials.
  unfoldable pub checked : Job → Prepared
  checked job =
      if not (is_email job.recipient)
      then refused "No valid recipient is configured"
      else if not (is_some job.username) && is_some job.password
          || is_some job.username && not (is_some job.password)
      then refused
          "SMTP credentials are incomplete — set both a username and a password, or neither"
      else ready job

  unfoldable pub prepare_config : Members → Prepared
  prepare_config config =
      if not (truthy (get "host" config))
      then refused "SMTP not configured"
      else if truthy (get "_decrypt_failed" config)
      then refused "Stored SMTP password could not be decrypted — re-enter it"
      else elim (security_mode config) [
        | none ↦ refused "SMTP security mode is ambiguous — re-select it"
        | some mode ↦ elim (resolve_sender is_email config) [
          | none ↦ refused "No valid From Email is configured"
          | some sender ↦
              if is_empty sender
              then refused "No valid From Email is configured"
              else checked (job_of config mode sender)
        ]
      ]

  -- From the read of the settings to the second test of the throttle.
  unfoldable pub prepare : Option Members → Prepared
  prepare none = refused "SMTP not configured"
  prepare (some config) = prepare_config config

unfoldable pub note : Option String → ℕ → Dict String ℕ → Dict String ℕ
note none now d = d
note (some key) now d = if is_empty key then d else Dict.insert key now d

-- The second test and the note of the attempt, with nothing in between: both read the clock.
unfoldable pub reserve : ℕ → ℕ → Option String → Alerts → Option Suppressed × Alerts
reserve now later key s = elim (suppression_reason now key s) [
  | none ↦ (none, record s { last_attempt = note key later s.last_attempt })
  | some reason ↦ (some reason, s)
]

-- After the server accepted the message.
unfoldable pub accept : ℕ → Option String → Alerts → Alerts
accept now key s = record s { last_sent = note key now s.last_sent }

-- How the two calls of the network end.
pub data Delivery : Type 0 where
  not_allowed : Delivery
  failed : String → Delivery
  accepted : Delivery

pub data Sent : Type 0 where
  ok : Sent
  error : String → Sent
  suppressed : Suppressed → Sent

-- The readings of the clock, in their order.
pub record Clocks : Type 0 where
  pub entry : ℕ
  pub config : ℕ
  pub check : ℕ
  pub attempt : ℕ
  pub sent : ℕ

unfoldable pub finish_send : ℕ → Option String → Delivery → Alerts → Sent × Alerts
finish_send now key not_allowed s = (error "SMTP host not allowed", s)
finish_send now key (failed message) s = (error message, s)
finish_send now key accepted s = (ok, accept now key s)

unfoldable pub attempt_send : Clocks → Option String → Delivery → Alerts → Sent × Alerts
attempt_send c key delivery s =
    let (held, s') = reserve c.check c.attempt key s in
    elim held [ none ↦ finish_send c.sent key delivery s' | some reason ↦ (suppressed reason, s') ]

-- A whole call with no other between its parts; `delivery` is what the network does with a job.
unfoldable pub send_alert_email :
    Fernet → (String → Bool) → Clocks → Option String → (Job → Delivery) → Alerts → Sent × Alerts
send_alert_email F is_email c key delivery s = elim (suppression_reason c.entry key s) [
  | some reason ↦ (suppressed reason, s)
  | none ↦
      let (config, s') = get_smtp_config F c.config s in
      elim (prepare is_email config) [
        | refused message ↦ (error message, s')
        | ready job ↦ attempt_send c key (delivery job) s'
      ]
]
