-- ===== src/Net.antt =====
-- The network as the relays and the client use it: tokio's streams and channels, TLS connections and
-- std's parsers of text are parameters. Nothing is assumed of them here.
pub mod Tests
use mini_tor.Prelude.{ℕ, List, Bool, Option}
use mini_tor.Protocol.{Message}
use mini_tor.Protocol.Wire.{ReadExact}
use mini_tor.Types.{SocketAddr}

-- The reply codes of simple_socks5 that the client sends.
pub data Rep : Type 0 where
  succeeded general_failure command_not_supported : Rep

pub record Net : Type 1 where
  -- the two halves of a connection, and the whole
  pub WriteHalf : Type 0
  pub write_all : WriteHalf → List ℕ → WriteHalf × Bool
  pub ReadHalf : Type 0
  pub Stream : Type 0
  pub split : Stream → ReadHalf × WriteHalf
  pub stream_write_all : Stream → List ℕ → Stream × Bool
  pub shutdown : WriteHalf → WriteHalf
  -- `timeout(.., read_exact)` of a cell; `none` when the time is up
  pub read_cell_within : ℕ → Stream → Stream × Option ReadExact
  -- a TLS connection to an address that must show the fingerprint; `none` on any failure
  pub connect_tls : SocketAddr → List ℕ → Option Stream
  -- `TcpStream::connect` of a destination text, and the text of the error otherwise
  pub TcpStream : Type 0
  pub connect_tcp : List ℕ → Option TcpStream
  pub connect_error : List ℕ → List ℕ
  -- an unbounded channel of byte strings to the task that serves a stream
  pub Sender : Type 0
  pub channel : TcpStream → Sender
  pub send : Sender → List ℕ → Sender × Bool
  -- an unbounded channel of messages to the task that serves a SOCKS5 stream
  pub MsgSender : Type 0
  pub send_msg : MsgSender → Message → MsgSender × Bool
  -- the connection of a SOCKS5 client: `write_all`, `shutdown`, and `send_conn_reply` of the
  -- simple_socks5 crate with one of its reply codes
  pub Socks : Type 0
  pub socks_write : Socks → List ℕ → Socks × Bool
  pub socks_shutdown : Socks → Socks
  pub send_conn_reply : Socks → Rep → Socks × Bool
  -- `str::from_utf8` succeeds; a text parsed as, or printed from, a socket address
  pub is_utf8 : List ℕ → Bool
  pub parse_addr : List ℕ → Option SocketAddr
  pub show_addr : SocketAddr → List ℕ
