-- ===== src/Ingest/Untrusted.antt =====
-- What can be stored of a message of an agent that is not trusted.
use glassops.Prelude.{ℕ, ◌+◌, ◌*◌, ◌≤◌, ◌≡◌, String, true, Option, length, All, contains, string_eq}
use glassops.Prelude.Text.{text_length}
use glassops.Json.{Json}
use glassops.Ingest.{
  second, max_pid, max_ifaces, max_talkers, max_events, max_rollups, event_kinds, protos,
  CleanEvent, Iface, CleanTalker, CleanRollup, Extracted, raised, nothing, stored,
}
use glassops.Ingest.Bounds.{at_most, IsAddress}

module _ (canonical : String → Option String) (show : Json → String) (ts : ℕ) where
  -- A stored event: its kind and protocol are known, its time is the server's, addresses are
  -- addresses, numbers are in range and texts are short.
  pub record IsClean (e : CleanEvent) : Type 0 where
    pub kind_known : contains event_kinds e.event ≡ true
    pub proto_known : contains protos e.proto ≡ true
    pub own_time : e.ts ≡ ts
    pub laddr_ok : IsAddress canonical e.laddr
    pub raddr_ok : IsAddress canonical e.raddr
    pub lport_ok : at_most 65535 e.lport ≡ true
    pub rport_ok : at_most 65535 e.rport ≡ true
    pub pid_ok : at_most max_pid e.pid ≡ true
    pub status_short : text_length e.status ≤ 32
    pub pname_short : text_length e.pname ≤ 64

  pub record IsCleanRollup (r : CleanRollup) : Type 0 where
    pub not_future : r.ts ≤ ts + 300 * second
    pub few_ifaces : length r.interfaces ≤ max_ifaces
    pub names_short : All (λ (i : Iface). text_length i.name ≤ 32) r.interfaces
    pub few_talkers : length r.top_talkers ≤ max_talkers
    pub talkers_ok :
        All (λ (t : CleanTalker). IsAddress canonical t.raddr × (t.conns ≤ max_pid)) r.top_talkers

  abbrev IsTalker : CleanTalker → Type 0
  IsTalker t = IsAddress canonical t.raddr × (t.conns ≤ max_pid)

  abbrev pub IsStorable : Extracted → Type 0
  IsStorable raised = Unit
  IsStorable nothing = Unit
  IsStorable (stored es rs) =
      All IsClean es × (length es ≤ max_events) × All IsCleanRollup rs × (length rs ≤ max_rollups)
