-- ===== src/Sockets/Tests.antt =====
-- The theorems at a few descriptors, datagrams and lines.
use spectatord.Base.{
  ℕ, ◌≤◌, ◌≡◌, refl, [], ◌∷◌, List, none, some, true, false, arith, length, Option, if◌then◌else◌,
  ◌==◌,
}
use spectatord.CText.{chars, c_str}
use spectatord.Int.{pos}
use spectatord.Sockets.Systemd.{
  Socket, Family, IsFirst, is_udp, get_systemd_udp_socket, get_systemd_udp_socket-IsFirst,
  notify_address, read_path, read_path-notify_address,
}
use spectatord.Sockets.Receive.{
  Handled, handle_datagram, handle_datagram-message, handle_datagram-overrun,
}
use spectatord.Sockets.Proc.{Parsers, udp_info, info_of_line, udp_info_first, fields_of}

-- A UNIX socket, and a UDP socket on port 1234.
abbrev passed : ℕ → Option Socket
passed fd =
    if fd == 3
    then some (record { family = Family.unix; is_dgram = true; port = 0 })
    else if fd == 4
    then some (record { family = Family.inet6; is_dgram = true; port = 1234 })
    else none

get_systemd_udp_socket-IsFirst_run :
    IsFirst (is_udp passed 1234) 3 2 (get_systemd_udp_socket passed 2 1234)
get_systemd_udp_socket-IsFirst_run = get_systemd_udp_socket-IsFirst passed 2 1234

read_path-notify_address_run :
    (a : List ℕ × ℕ) × (notify_address (chars "@run") ≡ some a)
    × (length a.0 ≡ 108)
    × (a.1 ≤ 110)
    × (read_path a ≡ 0 ∷ chars "run")
read_path-notify_address_run = read_path-notify_address b'@' (chars "run") (omega arith)

handle_datagram-message_example :
    (memory : List ℕ) × (handle_datagram (chars "c:old:1") false (chars "g:a:2")
      ≡ Handled.message memory)
    × (c_str memory ≡ chars "g:a:2")
    × (length memory ≡ 7)
handle_datagram-message_example =
    handle_datagram-message (chars "c:old:1") b'g' (chars ":a:2") (omega arith)
      (refl, (refl, (refl, (refl, (refl, tt)))))

handle_datagram-overrun_example :
    handle_datagram (chars "c:old:1") false (chars "c:new:2") ≡ Handled.out_of_bounds
handle_datagram-overrun_example =
    handle_datagram-overrun (chars "c:old:1") b'c' (chars ":new:2") refl

-- Parsers that tell the length of a text.
abbrev counting : Parsers
counting = record {
  simple_atoi = λ s. none;
  strtol16 = λ s. pos (length s);
  strtoul16 = λ s. length s;
  strtoul10 = λ s. length s;
}

abbrev port_line : List ℕ
port_line =
    chars "1: 00000000:1F40 00000000:0000 07 00000000:00000022 00:00000000 00000000 500 0 12 2 0 7"

port_info :
    info_of_line counting 4 port_line ≡ some (record { num_dropped = 1; rx_queue_bytes = 8 })
unfolding info_of_line fields_of
port_info = refl

udp_info_first_run :
    udp_info counting 4 (some (chars "header" ∷ chars "short" ∷ port_line ∷ []))
    ≡ some (record { num_dropped = 1; rx_queue_bytes = 8 })
udp_info_first_run =
    udp_info_first counting 4 (chars "header") port_line (chars "short" ∷ []) []
      (record { num_dropped = 1; rx_queue_bytes = 8 }) (unfold info_of_line in refl, tt) port_info
