-- ===== src/Alerts/Tests.antt =====
-- Settings with and without a password, and two calls for one key.
use glassops.Prelude.{
  ◌≡◌, ◌↔◌, refl, String, Bool, true, false, not, ◌&&◌, none, some, [], ◌∷◌, string_eq, nat_eq,
  contains, ◌==◌,
}
use glassops.Prelude.Text.{strip, split, is_empty, is_space}
use glassops.Prelude.Dict
use glassops.Json.{int, pos, str, Members, member, no_members, get, find, set_key, drop_key, truthy}
use glassops.Alerts.{
  Alerts, Mode, security_flags, security_mode, mode_of, mode_named, resolve_sender, clean,
  text_or_none, is_within, suppression_of, suppression_reason,
}
use glassops.Alerts.Config.{
  Fernet, open_row, open_rows, with_password, decrypt_text, decrypt_value, get_smtp_config,
  cached_config, fill_cache, is_new_password, keep_marker, merged, save_smtp_config,
}
use glassops.Alerts.Sending.{
  Job, prepare, prepare_config, checked, job_of, json_or_none, is_some, default_port, note, reserve,
  accept,
}
use glassops.Alerts.Jobs.{prepare-open_rows}
use glassops.Alerts.Target.{
  Resolver, allowed_smtp_ports, ip_blocked, smtp_allowed_hosts, host_entries,
  validate_smtp_target_async, validate_smtp_target, has_bad, is_bad, host_permitted,
  resolves_outside, is_nil, is_internal, unmapped,
}
use glassops.Alerts.Outside.{IsTarget, validate_smtp_target-IsTarget}
use glassops.Alerts.Throttle.{reserving, accepting, IsThrottled, marks, marks-IsThrottled}

-- The ciphertext of a text is the text.
abbrev clear_text : Fernet
clear_text = record { encrypt = λ s. s; decrypt = λ s. some s }

abbrev no_state : Alerts
no_state = record {
  last_sent = [];
  last_attempt = [];
  cache = record { value = none; ts = 0; cached = true };
  row = some (member "password_enc" (str "old") no_members);
}

abbrev relay : Members
relay = member "host" (str "mail") (
    member "security" (str "starttls") (
      member "from_email" (str "a@b")
        (member "to_email" (str "c@d") (member "username" (str "u") no_members))))

abbrev sent_by : Job
sent_by = record {
  host = str "mail";
  port = int (pos 587);
  sender = "a@b";
  recipient = "c@d";
  username = some "u";
  password = some (str "old");
  use_tls = false;
  start_tls = true;
}

alerted : Unit {0}
unfolding string_eq nat_eq strip is_empty is_space Dict.lookup Dict.insert get find set_key drop_key
    truthy security_flags security_mode mode_of mode_named resolve_sender clean text_or_none
    is_within suppression_of suppression_reason open_row open_rows with_password decrypt_text
    decrypt_value get_smtp_config cached_config fill_cache is_new_password keep_marker merged
    save_smtp_config prepare prepare_config checked job_of json_or_none is_some default_port note
    reserve accept ip_blocked smtp_allowed_hosts host_entries validate_smtp_target_async
    validate_smtp_target has_bad is_bad host_permitted resolves_outside is_nil is_internal unmapped
    split
alerted = tt

abbrev any_email : String → Bool
any_email s = not (s == "")

prepare-open_rows_example :
    ((m : Mode) × (security_mode (set_key "password_enc" (str "old") relay) ≡ some m)
      × ((sent_by.use_tls, sent_by.start_tls) ≡ security_flags m))
    × ((sent_by.use_tls && sent_by.start_tls) ≡ false)
    × (any_email sent_by.sender ≡ true)
    × (any_email sent_by.recipient ≡ true)
    × (is_some sent_by.username ≡ is_some sent_by.password)
    × (not (is_empty (decrypt_value clear_text (str "old"))) ≡ true)
unfolding alerted
prepare-open_rows_example =
    prepare-open_rows any_email clear_text (set_key "password_enc" (str "old") relay) sent_by refl

marks-IsThrottled_example : IsThrottled none none (
    marks "alert-web"
      (reserving 100 101 (some "alert-web")
        ∷ reserving 102 103 (some "alert-web")
        ∷ accepting 104 (some "alert-web")
        ∷ [])
      no_state)
unfolding alerted
marks-IsThrottled_example =
    marks-IsThrottled "alert-web"
      (reserving 100 101 (some "alert-web")
        ∷ reserving 102 103 (some "alert-web")
        ∷ accepting 104 (some "alert-web")
        ∷ [])
      no_state refl refl refl

-- Addresses are texts, one of which is internal.
abbrev names : Resolver
names = record {
  Address = String;
  ip_address = λ s. some s;
  ipv4_mapped = λ a. none;
  is_loopback = λ a. a == "127.0.0.1";
  is_link_local = λ a. false;
  is_unspecified = λ a. false;
  is_multicast = λ a. false;
  is_reserved = λ a. false;
  getaddrinfo = λ host port. some ("10.0.0.9" ∷ []);
}

validate_smtp_target-IsTarget_example :
    (validate_smtp_target_async names false "" " mail" (some 587) ≡ true) ↔ (
      (false ≡ false)
      × (is_empty (strip " mail") ≡ false)
      × (has_bad (strip " mail") ≡ false)
      × (contains allowed_smtp_ports 587 ≡ true)
      × IsTarget names "" (strip " mail") 587)
validate_smtp_target-IsTarget_example = validate_smtp_target-IsTarget names false "" " mail" 587

-- It passes the test.
mail_permitted : validate_smtp_target_async names false "" " mail" (some 587) ≡ true
unfolding alerted
mail_permitted = refl

-- The row is read before a save and the cache is filled after it: the old settings stay for as long
-- as the cache lives.
stale_after_save :
    let saved = save_smtp_config clear_text "new" false relay no_state in
    let filled = (fill_cache clear_text 5 no_state.row saved).1 in
    elim (get_smtp_config clear_text 6 filled).0 [ none ↦ none | some c ↦ find "password" c ]
    ≡ some (str "old")
unfolding alerted
stale_after_save = refl
