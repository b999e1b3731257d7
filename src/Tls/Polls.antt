-- ===== src/Tls/Polls.antt =====
-- `MaybeTlsStream` as a stream of tokio (tls.rs, its `AsyncRead` and `AsyncWrite`): every poll goes
-- to the stream within. The traits, with their contexts and buffers, are parameters.
use iec104bridge.Base.{ℕ}
use iec104bridge.Base.Result.{Result}
use iec104bridge.Tls.{MaybeTlsStream, plaintext, tls}

pub data Poll (A : Type 0) : Type 0 where
  pending : Poll A
  ready : A → Poll A

pub record Io : Type 1 where
  pub Context : Type 0
  pub ReadBuf : Type 0
  pub Bytes : Type 0
  pub Error : Type 0

-- The polls of a stream with the state `S`; a read also leaves its buffer.
pub record AsyncStream (io : Io) (S : Type 0) : Type 0 where
  pub poll_read : io.Context → io.ReadBuf → S → Poll (Result io.Error (Unit {0})) × io.ReadBuf × S
  pub poll_write : io.Context → io.Bytes → S → Poll (Result io.Error ℕ) × S
  pub poll_flush : io.Context → S → Poll (Result io.Error (Unit {0})) × S
  pub poll_shutdown : io.Context → S → Poll (Result io.Error (Unit {0})) × S

module _ {io : Io} {Tcp Tls : Type 0} (tcp_stream : AsyncStream io Tcp)
    (tls_stream : AsyncStream io Tls) where
  poll_read :
      io.Context
      → io.ReadBuf
      → MaybeTlsStream Tcp Tls
      → Poll (Result io.Error (Unit {0})) × io.ReadBuf × MaybeTlsStream Tcp Tls
  poll_read cx buf (plaintext s) =
      let (r, buf', s') = tcp_stream.poll_read cx buf s in (r, buf', plaintext s')
  poll_read cx buf (tls s) = let (r, buf', s') = tls_stream.poll_read cx buf s in (r, buf', tls s')

  poll_write :
      io.Context
      → io.Bytes
      → MaybeTlsStream Tcp Tls
      → Poll (Result io.Error ℕ) × MaybeTlsStream Tcp Tls
  poll_write cx buf (plaintext s) =
      let (r, s') = tcp_stream.poll_write cx buf s in (r, plaintext s')
  poll_write cx buf (tls s) = let (r, s') = tls_stream.poll_write cx buf s in (r, tls s')

  poll_flush :
      io.Context
      → MaybeTlsStream Tcp Tls
      → Poll (Result io.Error (Unit {0})) × MaybeTlsStream Tcp Tls
  poll_flush cx (plaintext s) = let (r, s') = tcp_stream.poll_flush cx s in (r, plaintext s')
  poll_flush cx (tls s) = let (r, s') = tls_stream.poll_flush cx s in (r, tls s')

  poll_shutdown :
      io.Context
      → MaybeTlsStream Tcp Tls
      → Poll (Result io.Error (Unit {0})) × MaybeTlsStream Tcp Tls
  poll_shutdown cx (plaintext s) = let (r, s') = tcp_stream.poll_shutdown cx s in (r, plaintext s')
  poll_shutdown cx (tls s) = let (r, s') = tls_stream.poll_shutdown cx s in (r, tls s')

  unfoldable pub maybe_tls_stream : AsyncStream io (MaybeTlsStream Tcp Tls)
  unfolding poll_read poll_write poll_flush poll_shutdown
  maybe_tls_stream = record {
    poll_read = poll_read;
    poll_write = poll_write;
    poll_flush = poll_flush;
    poll_shutdown = poll_shutdown;
  }
