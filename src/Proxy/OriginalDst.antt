-- ===== src/Proxy/OriginalDst.antt =====
-- internal/proxy/transparent.go: the original destination of a redirected connection. How the system
-- calls go is a parameter.
use goper.Base.{ℕ, ◌+◌, ◌*◌, ◌∷◌, ◌++◌, Option, none, some}
use goper.Base.Text.{Text}
use goper.Capture.Entry.{itoa}
use goper.Proxy.Transparent.{OriginalDst}

-- What the kernel writes into a `RawSockaddrInet4`: the port in network byte order, and the four bytes
-- of the address.
pub record RawSockaddr : Type 0 where
  pub port_high : ℕ
  pub port_low : ℕ
  pub a : ℕ
  pub b : ℕ
  pub c : ℕ
  pub d : ℕ

-- The connection is not TCP, its file descriptor cannot be had, getsockopt fails, or it answers.
pub data SocketCourse : Type 0 where
  not_tcp no_descriptor refused : SocketCourse
  answered : RawSockaddr → SocketCourse

-- `net.IP.String` on four bytes.
unfoldable pub ip_string : RawSockaddr → Text
ip_string raw = itoa raw.a ++ (b'.' ∷ (itoa raw.b ++ (b'.' ∷ (itoa raw.c ++ (b'.' ∷ itoa raw.d)))))

abbrev pub original_of : RawSockaddr → OriginalDst
original_of raw = record { ip = ip_string raw; port = raw.port_high * 256 + raw.port_low }

unfoldable pub get_original_dst : SocketCourse → Option OriginalDst
get_original_dst not_tcp = none
get_original_dst no_descriptor = none
get_original_dst refused = none
get_original_dst (answered raw) = some (original_of raw)
