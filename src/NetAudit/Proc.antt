-- ===== src/NetAudit/Proc.antt =====
-- The tables of /proc/net as text: `parse_proc_net` and `parse_proc_net_dev`. Python's int() and
-- `socket.inet_ntop` are arguments.
use glassops.Prelude.{
  ℕ, suc, zero, String, Option, none, some, List, [], ◌∷◌, ltb, if◌then◌else◌, ◌==◌, length, drop,
  starts_with, nat_eq, string_eq,
}
use glassops.Prelude.Text.{strip, split, skip, prefix, is_empty, is_space, text_length}
use glassops.Prelude.Dict
use glassops.Prelude.Dict.{Dict}
use glassops.Net.{lower_codes, same_codes}
use glassops.NetAudit.Types.{Conn, Counters}
use Prim.Native.Char.{Char, code}

-- What is used of Python here: `int(s, base)` and `inet_ntop` of an IPv4 address, a number in
-- little endian, and of an IPv6 address, four of them; `none` where they raise ValueError.
pub record Numbers : Type 0 where
  pub int_of : ℕ → String → Option ℕ
  pub ipv4 : ℕ → String
  pub ipv6 : List ℕ → Option String

unfoldable pub onto_word : Char → List String → List String
onto_word c [] = String.◌∷◌ c "" ∷ []
onto_word c (w ∷ ws) = String.◌∷◌ c w ∷ ws

unfoldable pub without_empty : List String → List String
without_empty [] = []
without_empty (w ∷ ws) = let rest = without_empty ws in if is_empty w then rest else w ∷ rest

unfoldable pub pieces : String → List String
pieces String.[] = "" ∷ []
pieces (String.◌∷◌ c s) =
    let rest = pieces s in if is_space (code c) then "" ∷ rest else onto_word c rest

-- `s.split()`
unfoldable pub words : String → List String
words s = without_empty (pieces s)

unfoldable pub without_last : List String → List String
without_last [] = []
without_last (String.[] ∷ []) = []
without_last (String.◌∷◌ c s ∷ []) = String.◌∷◌ c s ∷ []
without_last (l ∷ m ∷ rest) = l ∷ without_last (m ∷ rest)

-- `text.splitlines()`, at line feeds, which are the line ends of the kernel's tables.
unfoldable pub lines : String → List String
lines text = without_last (split 10 text)

-- `s.partition(sep)`; `none` where there is no separator.
unfoldable pub partition : ℕ → String → Option (String × String)
partition sep String.[] = none
partition sep (String.◌∷◌ c s) =
    let later : Option (String × String) = elim (partition sep s) [
      | none ↦ none
      | some (before, after) ↦ some (String.◌∷◌ c before, after)
    ] in
    if code c == sep then some ("", s) else later

unfoldable pub nth : ℕ → List String → String
nth n [] = ""
nth zero (w ∷ ws) = w
nth (suc n) (w ∷ ws) = nth n ws

abbrev pub tcp_states : Dict String String
tcp_states =
    ("01", "ESTABLISHED")
    ∷ ("02", "SYN_SENT")
    ∷ ("03", "SYN_RECV")
    ∷ ("04", "FIN_WAIT1")
    ∷ ("05", "FIN_WAIT2")
    ∷ ("06", "TIME_WAIT")
    ∷ ("07", "CLOSE")
    ∷ ("08", "CLOSE_WAIT")
    ∷ ("09", "LAST_ACK")
    ∷ ("0A", "LISTEN")
    ∷ ("0B", "CLOSING")
    ∷ []

-- `TCP_STATES.get(s.upper(), s)`
unfoldable pub state_named : Dict String String → String → String
state_named [] s = s
state_named ((key, name) ∷ states) s =
    if same_codes (lower_codes key) (lower_codes s) then name else state_named states s

unfoldable pub sequence : List (Option ℕ) → Option (List ℕ)
sequence [] = some []
sequence (none ∷ rest) = none
sequence (some n ∷ rest) = elim (sequence rest) [ none ↦ none | some ns ↦ some (n ∷ ns) ]

module _ (N : Numbers) where
  open N use {int_of, ipv4, ipv6}

  -- `[addr_hex[i:i + 8] for i in range(0, 32, 8)]`, as numbers.
  unfoldable pub ipv6_words : String → Option (List ℕ)
  ipv6_words s = sequence (
      int_of 16 (prefix 8 s)
      ∷ int_of 16 (prefix 8 (skip 8 s))
      ∷ int_of 16 (prefix 8 (skip 16 s))
      ∷ int_of 16 (prefix 8 (skip 24 s))
      ∷ [])

  unfoldable pub address_of : String → Option String
  address_of addr_hex =
      if text_length addr_hex == 8
      then elim (int_of 16 addr_hex) [ none ↦ none | some n ↦ some (ipv4 n) ]
      else elim (ipv6_words addr_hex) [ none ↦ none | some ns ↦ ipv6 ns ]

  unfoldable pub decode_parts : List String → Option (String × ℕ)
  decode_parts [] = none
  decode_parts (_ ∷ []) = none
  decode_parts (addr_hex ∷ port_hex ∷ []) = elim (int_of 16 port_hex) [
    | none ↦ none
    | some port ↦ elim (address_of addr_hex) [ none ↦ none | some ip ↦ some (ip, port) ]
  ]
  decode_parts (_ ∷ _ ∷ _ ∷ _) = none

  -- `_decode_addr`; the colon has the code 58.
  unfoldable pub decode_addr : String → Option (String × ℕ)
  decode_addr hex_addr = decode_parts (split 58 hex_addr)

  unfoldable pub row_of : String → List String → Option Conn
  row_of proto parts = elim (decode_addr (nth 1 parts)) [
    | none ↦ none
    | some (laddr, lport) ↦ elim (decode_addr (nth 2 parts)) [
      | none ↦ none
      | some (raddr, rport) ↦ elim (int_of 10 (nth 9 parts)) [
        | none ↦ none
        | some inode ↦ some (record {
          proto = proto;
          laddr = laddr;
          lport = lport;
          raddr = raddr;
          rport = rport;
          status = if starts_with proto "tcp" then state_named tcp_states (nth 3 parts) else "";
          inode = inode;
          pid = none;
          pname = "";
        })
      ]
    ]
  ]

  unfoldable pub rows_of : String → List String → List Conn
  rows_of proto [] = []
  rows_of proto (line ∷ rest) =
      let later = rows_of proto rest in
      if ltb (length (words line)) 10
      then later
      else elim (row_of proto (words line)) [ none ↦ later | some row ↦ row ∷ later ]

  -- Without the header.
  unfoldable pub parse_proc_net : String → String → List Conn
  parse_proc_net text proto = rows_of proto (drop 1 (lines text))

  unfoldable pub counters_of : List String → Option Counters
  counters_of cols = elim (int_of 10 (nth 0 cols)) [
    | none ↦ none
    | some a ↦ elim (int_of 10 (nth 1 cols)) [
      | none ↦ none
      | some b ↦ elim (int_of 10 (nth 8 cols)) [
        | none ↦ none
        | some c ↦ elim (int_of 10 (nth 9 cols)) [
          | none ↦ none
          | some d ↦ some (record { bytes_in = a; packets_in = b; bytes_out = c; packets_out = d })
        ]
      ]
    ]
  ]

  -- One line of /proc/net/dev.
  unfoldable pub add_interface : String → String → Dict String Counters → Dict String Counters
  add_interface name rest out =
      if ltb (length (words rest)) 16
      then out
      else elim (counters_of (words rest)) [ none ↦ out | some c ↦ Dict.insert (strip name) c out ]

  unfoldable pub interfaces_of : List String → Dict String Counters → Dict String Counters
  interfaces_of [] out = out
  interfaces_of (line ∷ later) out =
      interfaces_of later
        (elim (partition 58 line) [ none ↦ out | some (name, rest) ↦ add_interface name rest out ])

  unfoldable pub parse_proc_net_dev : String → Dict String Counters
  parse_proc_net_dev text = interfaces_of (lines text) []
