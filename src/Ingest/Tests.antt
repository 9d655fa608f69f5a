-- ===== src/Ingest/Tests.antt =====
-- Messages of an agent that keeps to the format, and of one that does not.
use glassops.Prelude.{◌≡◌, refl, String, Option, none, some, [], ◌∷◌, string_eq}
use Prim.Native.Nat.{◌^◌}
use glassops.Prelude.Text.{is_empty, text_length, prefix}
use glassops.Json.{
  pos, Json, int, float, str, arr, obj, no_items, item, Members, member, no_members, get, drop_key,
  first_items, text_of, in_set,
}
use glassops.Ingest.{
  CleanEvent, raised, finite, int_within, not_negative, or_zero, clean_each, clean_list, capped, ip,
  canonical_ts, float_limit, magnitude,
}
use glassops.Ingest.Events.{is_known, clean_members, clean_event, event_of}
use glassops.Ingest.Extract.{extract, extract_payload, to_store}
use glassops.Ingest.Wellformed.{sent_event, sent_items}

-- Every text is the canonical form of itself.
abbrev any_address : String → Option String
any_address s = some s

abbrev no_text : Json → String
no_text v = ""

abbrev opened : CleanEvent
opened = record {
  event = "open";
  ts = 7;
  proto = "tcp";
  laddr = "10.0.0.1";
  lport = some 443;
  raddr = "10.0.0.2";
  rport = some 5000;
  status = "ESTABLISHED";
  pid = none;
  pname = "";
  duration = none;
}

cleaned : Unit {0}
unfolding string_eq get drop_key first_items text_of in_set extract extract_payload to_store
    clean_list clean_each clean_event clean_members is_known event_of finite int_within not_negative
    or_zero capped prefix ip is_empty text_length
cleaned = tt

-- A message with the event, a rollup and a metric.
abbrev full_payload : Members
full_payload =
    member "rollups" (arr (item (obj (member "ts" (float (pos 9)) no_members)) no_items))
      (member "events" (arr (sent_items (opened ∷ []))) no_members)

abbrev full_message : Members
full_message = member "cpu" (int (pos 1)) (member "net_audit" (obj full_payload) no_members)

abbrev odd_message : Members
odd_message =
    member "net_audit"
      (obj (member "events" (arr (item (str "x") (item (sent_event opened) no_items))) no_members))
      no_members

-- An event whose kind is a list raises, so that no other event of the message is stored either.
unhashable_kind :
    (extract any_address no_text 9 (
      member "net_audit"
        (obj (
          member "events"
            (arr (
              item
                (obj (member "event" (arr no_items) no_members))
                (item (sent_event opened) no_items)))
            no_members))
        no_members)).0
    ≡ raised
unfolding cleaned
unhashable_kind = refl

-- An integer that is too large for a float raises instead of being refused.
huge_time_stamp : canonical_ts 9 (int (pos (2 ^ 1024))) ≡ none
unfolding canonical_ts finite float_limit magnitude
huge_time_stamp = refl
