-- ===== src/Client/Builder/Tests.antt =====
-- A circuit that is built over canned answers.
use mini_tor.Prelude.{
  slice, write_slice, bytes_eq, ℕ, ◌≡◌, refl, List, [], ◌∷◌, ◌++◌, replicate, true, Option, none,
  some, ok,
}
use mini_tor.Protocol.{Message, to_u8, from_u8, command_eq}
use mini_tor.Protocol.Cells
use mini_tor.Protocol.Bytes.{be32, be16, from_be}
use mini_tor.Protocol.Codec.{to_bytes, write_payload, from_bytes}
use mini_tor.Protocol.Wire.{ReadExact, from_stream, write_to_stream, filled, unexpected_eof}
use mini_tor.Types.{NodeDescriptor, SocketAddr, v4, middle}
use mini_tor.Crypto.{Primitives}
use mini_tor.Crypto.Tests.{toy}
use mini_tor.Net.{Net, Rep}
use mini_tor.Net.Tests.{print}
use mini_tor.Relay.{Draws}
use mini_tor.Relay.Tests.{draws}
use mini_tor.Client.Circuit.{Circuit, ready}
use mini_tor.Client.Engine
use mini_tor.Client.Builder.{
  build, build_from, handshake_create, handshake_extend, extend_all, extend_payload, exchange,
  finish_handshake, ready_circuit,
}
use mini_tor.Crypto.Keys.{SessionKey}
use mini_tor.Crypto.Cipher
use mini_tor.Crypto.Ntor.{ntor_client_finish_raw, hmac_sha256, expand_key_seed, raw_dh_static}
use mini_tor.Client.Builder.Authentic.{IsAuthentic, build-IsAuthentic}

abbrev prim : Primitives
prim = record toy { hmac = λ (key msg : List ℕ). some (replicate 32 5) }

abbrev answer : List ℕ
answer = replicate 32 3 ++ replicate 32 5

-- What the relays send: the entry CREATED, and the later hops EXTENDED under the layers before them.
abbrev answers : List Message
answers =
    Cells.created 1 answer
    ∷ Cells.extended 1 (prim.apply_keystream 16 answer).1
    ∷ Cells.extended 1 (prim.apply_keystream 16 (prim.apply_keystream 16 answer).1).1
    ∷ []

abbrev fill : ℕ → List ℕ
fill n = replicate n 0

abbrev next_answer : List Message → List Message × Option ReadExact
next_answer [] = ([], some unexpected_eof)
next_answer (m ∷ ms) = (ms, some (filled (to_bytes m fill)))

-- A network whose connections give these answers, one after the other.
abbrev net : Net
net = record {
  WriteHalf = List ℕ;
  write_all = λ (w d : List ℕ). (w ++ d, true);
  ReadHalf = Unit;
  Stream = List Message;
  split = λ (s : List Message). (tt, []);
  stream_write_all = λ (s : List Message) (d : List ℕ). (s, true);
  shutdown = λ (w : List ℕ). w;
  read_cell_within = λ (t : ℕ) (s : List Message). next_answer s;
  connect_tls = λ (a : SocketAddr) (f : List ℕ). some answers;
  TcpStream = List ℕ;
  connect_tcp = λ (d : List ℕ). some d;
  connect_error = λ (d : List ℕ). [];
  Sender = List (List ℕ);
  channel = λ (s : List ℕ). [];
  send = λ (s : List (List ℕ)) (d : List ℕ). (d ∷ s, true);
  MsgSender = List Message;
  send_msg = λ (s : List Message) (m : Message). (m ∷ s, true);
  Socks = List ℕ;
  socks_write = λ (s d : List ℕ). (s ++ d, true);
  socks_shutdown = λ (s : List ℕ). s;
  send_conn_reply = λ (s : List ℕ) (r : Rep). (s, true);
  is_utf8 = λ (d : List ℕ). true;
  parse_addr = λ (d : List ℕ). none;
  show_addr = print;
}

abbrev node : NodeDescriptor
node = record {
  node_id = 1 ∷ [];
  node_type = middle;
  address = record { ip = v4 (10 ∷ 0 ∷ 0 ∷ 1 ∷ []); port = 9001 };
  public_key = replicate 32 9;
  bandwidth = 100;
  exit_policy = none;
  operator_id = none;
  tls_cert_fingerprint = [];
}

abbrev key : SessionKey
key = record { forward = replicate 16 5; backward = replicate 16 5 }

abbrev built : Circuit ⦃prim = prim⦄ ⦃net = net⦄
built = record {
  circuit_id = 1;
  state = ready;
  entry_writer = [];
  onion_keys = Engine.new ⦃prim = prim⦄ (key ∷ key ∷ key ∷ []) (
      record { forward = 36; backward = 144 }
      ∷ record { forward = 26; backward = 80 }
      ∷ record { forward = 16; backward = 16 }
      ∷ []);
  stream_senders = [];
  next_stream_id = 1;
}

abbrev path : List NodeDescriptor
path = node ∷ node ∷ node ∷ []

abbrev each_draw : ℕ → Draws
each_draw n = draws

build_runs : build ⦃prim = prim⦄ ⦃net = net⦄ each_draw 1 path ≡ ok (built, tt)
unfolding build build_from handshake_create handshake_extend extend_all extend_payload exchange
    finish_handshake ready_circuit Engine.new Engine.encrypt_layers Engine.decrypt_layers to_bytes
    write_payload from_bytes from_stream write_to_stream Cells.new Cells.circuit Cells.create
    Cells.created Cells.extend Cells.extended to_u8 from_u8 command_eq Cipher.new
    ntor_client_finish_raw hmac_sha256 expand_key_seed raw_dh_static replicate slice
    Cipher.apply_forward Cipher.apply_backward write_slice be32 be16 from_be bytes_eq
build_runs = refl

build-IsAuthentic_example : IsAuthentic ⦃prim = prim⦄ ⦃net = net⦄ each_draw 1 path built
build-IsAuthentic_example =
    build-IsAuthentic ⦃prim = prim⦄ ⦃net = net⦄ each_draw 1 path built tt build_runs
