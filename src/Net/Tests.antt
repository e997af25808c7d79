-- ===== src/Net/Tests.antt =====
-- A concrete network: a connection is the bytes written to it, and an address is printed as its
-- numbers plus one.
use mini_tor.Prelude.{ℕ, zero, suc, ◌≡◌, refl, ap, List, [], ◌∷◌, ◌++◌, true, Option, none, some}
use mini_tor.Protocol.{Message}
use mini_tor.Types.{SocketAddr, IpAddr, v4, v6}
use mini_tor.Net.{Net, Rep}

abbrev pub up : List ℕ → List ℕ
up [] = []
up (b ∷ bs) = suc b ∷ up bs

abbrev down : List ℕ → List ℕ
down [] = []
down (zero ∷ bs) = zero ∷ down bs
down (suc b ∷ bs) = b ∷ down bs

down-up : (bs : List ℕ) → down (up bs) ≡ bs
down-up [] = refl
down-up (b ∷ bs) = ap (λ (t : List ℕ). b ∷ t) (down-up bs)

abbrev print_ip : IpAddr → ℕ → List ℕ
print_ip (v4 octets) port = 1 ∷ suc port ∷ up octets
print_ip (v6 octets) port = 2 ∷ suc port ∷ up octets

abbrev pub print : SocketAddr → List ℕ
print a = print_ip a.ip a.port

abbrev parse : List ℕ → Option SocketAddr
parse (suc zero ∷ suc port ∷ octets) = some (record { ip = v4 (down octets); port = port })
parse (suc (suc zero) ∷ suc port ∷ octets) = some (record { ip = v6 (down octets); port = port })
parse _ = none

print_ip-parse :
    (ip : IpAddr) (port : ℕ) → parse (print_ip ip port) ≡ some (record { ip = ip; port = port })
print_ip-parse (v4 octets) port =
    ap (λ (o : List ℕ). some (record { ip = v4 o; port = port })) (down-up octets)
print_ip-parse (v6 octets) port =
    ap (λ (o : List ℕ). some (record { ip = v6 o; port = port })) (down-up octets)

abbrev pub toy_net : Net
toy_net = record {
  WriteHalf = List ℕ;
  write_all = λ (w d : List ℕ). (w ++ d, true);
  ReadHalf = Unit;
  Stream = List ℕ;
  split = λ (s : List ℕ). (tt, s);
  stream_write_all = λ (s d : List ℕ). (s ++ d, true);
  shutdown = λ (w : List ℕ). w;
  read_cell_within = λ (t : ℕ) (s : List ℕ). (s, none);
  connect_tls = λ (a : SocketAddr) (f : List ℕ). none;
  TcpStream = List ℕ;
  connect_tcp = λ (d : List ℕ). some d;
  connect_error = λ (d : List ℕ). [];
  Sender = List (List ℕ);
  channel = λ (s : List ℕ). [];
  send = λ (s : List (List ℕ)) (d : List ℕ). (d ∷ s, true);
  MsgSender = List Message;
  send_msg = λ (s : List Message) (m : Message). (m ∷ s, true);
  Socks = List ℕ;
  socks_write = λ (s d : List ℕ). (s ++ d, true);
  socks_shutdown = λ (s : List ℕ). s;
  send_conn_reply = λ (s : List ℕ) (r : Rep). (s, true);
  is_utf8 = λ (d : List ℕ). true;
  parse_addr = parse;
  show_addr = print;
}

pub parse-print : (a : SocketAddr) → parse (print a) ≡ some a
parse-print a = print_ip-parse a.ip a.port
