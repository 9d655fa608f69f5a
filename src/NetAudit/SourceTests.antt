-- ===== src/NetAudit/SourceTests.antt =====
-- A host with one connection.
use glassops.Prelude.{◌≡◌, true, none, some, [], ◌∷◌, if◌then◌else◌, ◌==◌, nat_eq, string_eq}
use glassops.Prelude.Text.{strip, split, skip, prefix, is_empty, is_space, text_length}
use glassops.Prelude.Dict
use glassops.NetAudit.Proc.{
  Numbers, words, lines, without_last, pieces, onto_word, without_empty, nth, state_named,
  address_of, decode_parts, decode_addr, row_of, rows_of, parse_proc_net,
}
use glassops.NetAudit.Source.{
  readable, missing_file, Host, note_inode, scan_fds, all_found, scan_entry, is_number,
  scan_entries, build_inode_pid_map, wanted_of, is_missing, is_broken, table_rows, all_rows,
  snapshot,
}
use glassops.NetAudit.Attribution.{scan_of, process_of, with_process, snapshot_exact}
use glassops.Net.{lower, lower_codes, same_codes}

abbrev some_numbers : Numbers
some_numbers = record {
  int_of = λ base s. if s == "0050" then some 80 else some 7;
  ipv4 = λ n. "127.0.0.1";
  ipv6 = λ ns. none;
}

abbrev one_socket : Host
one_socket = record {
  tcp = readable "sl\n 0: 0100007F:0050 0100007F:0050 0a 0:0 0:0 0 0 0 7\n";
  tcp6 = missing_file;
  udp = readable "sl\n";
  udp6 = missing_file;
  entries = some (
      record { pid = none; fds = none; comm = "" }
      ∷ record { pid = some 42; fds = some (none ∷ some 9 ∷ some 7 ∷ []); comm = "sshd" }
      ∷ []);
}

parsed : Unit {0}
unfolding nat_eq string_eq strip split skip prefix is_empty is_space text_length words lines
    without_last pieces onto_word without_empty nth state_named address_of decode_parts decode_addr
    row_of rows_of parse_proc_net note_inode scan_fds all_found scan_entry is_number scan_entries
    build_inode_pid_map wanted_of is_missing is_broken table_rows all_rows scan_of process_of
    with_process lower lower_codes same_codes Dict.lookup Dict.insert
parsed = tt

snapshot_exact_example :
    let out = snapshot some_numbers one_socket [] in
    (out.0.ok ≡ true)
    × (out.0.conns
        ≡ record {
          proto = "tcp";
          laddr = "127.0.0.1";
          lport = 80;
          raddr = "127.0.0.1";
          rport = 80;
          status = "LISTEN";
          inode = 7;
          pid = some 42;
          pname = "sshd";
        }
          ∷ [])
    × (Dict.lookup 7 out.1 ≡ some (42, "sshd"))
unfolding parsed
snapshot_exact_example = snapshot_exact some_numbers one_socket [] 7
