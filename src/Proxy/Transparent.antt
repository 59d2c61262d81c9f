-- ===== src/Proxy/Transparent.antt =====
-- internal/proxy/transparent_loop.go and transparent_shared.go: a redirected connection, from its
-- first byte to the URL that the proxy routes. The original destination is a system call.
pub mod Peeking
pub mod Routing
use goper.Base.{
  ℕ, zero, suc, ◌+◌, ◌*◌, ◌^◌, Bool, true, false, not, ◌&&◌, ◌||◌, List, [], ◌∷◌, ◌++◌, Option,
  none, some, ◌==◌, ltb, leb, if◌then◌else◌, length, take, drop,
}
use goper.Base.Text.{Text, codes, text_eq}
use goper.Capture.Entry.{itoa}
use goper.Proxy.Certificates.{ClientHelloInfo, CertCache, get_certificate}
use goper.Proxy.Sni.{Result, ok, panicked, starved, ◌>>=◌, byte_at, be16_at, parse_client_hello}

-- `bufio.NewReaderSize(conn, 64<<10)`
abbrev pub peek_size : ℕ
peek_size = 64 * 2 ^ 10

-- `Peek(n)` on what the connection sends before it ends or its deadline passes; an error is `none`.
unfoldable pub peek : Text → ℕ → Option Text
peek sent n = if leb n (length sent) && leb n peek_size then some (take n sent) else none

-- The length of the record behind its header, `none` for an error.
unfoldable pub tls_record_header : Text → Result (Option ℕ)
tls_record_header header = do
  kind ← byte_at header 0
  elim (kind == 0x16) [
    | false ↦ ok none
    | true ↦ do
      record_len ← be16_at header 3
      ok (if record_len == 0 then none else some record_len)
  ]

unfoldable pub peek_record_body : Text → Option ℕ → Option Text
peek_record_body sent none = none
peek_record_body sent (some record_len) = peek sent (5 + record_len)

unfoldable pub peek_after_header : Text → Option Text → Result (Option Text)
peek_after_header sent none = ok none
peek_after_header sent (some header) = do
  record_len ← tls_record_header header
  ok (peek_record_body sent record_len)

unfoldable pub peek_tls_record : Text → Result (Option Text)
unfolding peek_after_header
peek_tls_record sent = peek_after_header sent (peek sent 5)

abbrev pub name_or_empty : Option Text → Text
name_or_empty none = []
name_or_empty (some name) = name

-- The server name, empty where the hello has none; `none` for an error.
unfoldable pub hello_in : Option Text → Result (Option Text)
hello_in none = ok none
hello_in (some data') = do
  hello ← parse_client_hello (drop 5 data')
  ok (some (name_or_empty hello))

unfoldable pub peek_sni : Text → Result (Option Text)
unfolding hello_in
peek_sni sent = do found ← peek_tls_record sent; hello_in found

-- The original destination, its address written out.
pub record OriginalDst : Type 0 where
  pub ip : Text
  pub port : ℕ

-- The URL of a request and its Host header.
pub record InnerRequest : Type 0 where
  pub is_connect : Bool
  pub scheme : Text
  pub url_host : Text
  pub host : Text

-- `URL.IsAbs` is a scheme that is not empty.
unfoldable pub is_absolute : InnerRequest → Bool
is_absolute r = r.is_connect || not (text_eq r.scheme [])

unfoldable pub rewrite_transparent_url : InnerRequest → Text → Text → InnerRequest
rewrite_transparent_url r scheme fallback =
    if is_absolute r
    then r
    else record r { scheme = scheme; url_host = if text_eq r.host [] then fallback else r.host }

abbrev ip_of : Option OriginalDst → Text
ip_of none = []
ip_of (some orig) = orig.ip

unfoldable pub fallback_host : Option OriginalDst → Text → Text
fallback_host orig server_name = if not (text_eq server_name []) then server_name else ip_of orig

-- `net.JoinHostPort` on an address: brackets around one with a colon.
unfoldable pub has_colon : Text → Bool
has_colon [] = false
has_colon (c ∷ cs) = if c == b':' then true else has_colon cs

unfoldable pub join_host_port : Text → ℕ → Text
join_host_port ip port =
    if has_colon ip then b'[' ∷ ip ++ b']' ∷ b':' ∷ itoa port else ip ++ b':' ∷ itoa port

abbrev address_of : Option OriginalDst → Text
address_of none = []
address_of (some orig) = join_host_port orig.ip orig.port

-- The host that `tlsConfigFor` asks a certificate for.
unfoldable pub certificate_host : Text → Text → Text
certificate_host server_name fallback = if text_eq server_name [] then fallback else server_name

-- The hello that `tlsConfigFor` asks the cache with, and the answer of the cache.
unfoldable pub tls_hello : ClientHelloInfo → Text → ClientHelloInfo
tls_hello hello fallback = record hello {
  server_name = certificate_host hello.server_name fallback;
}

unfoldable pub tls_certificate_for : CertCache → Text → ClientHelloInfo → CertCache
tls_certificate_for cc fallback hello = get_certificate cc (tls_hello hello fallback)

-- What `dispatchTransparent` does with a request that arrives on a connection that starts with
-- these bytes: over TLS with the name that was peeked, or over plain HTTP. A connection whose peek
-- fails is dropped, `none`.
unfoldable pub route_tls : Option OriginalDst → InnerRequest → Option Text → Option InnerRequest
route_tls orig r none = none
route_tls orig r (some server_name) =
    some (rewrite_transparent_url r (codes "https") (fallback_host orig server_name))

unfoldable pub route_first :
    Option OriginalDst → Text → InnerRequest → ℕ → Result (Option InnerRequest)
unfolding route_tls
route_first orig sent r first =
    if first == 0x16
    then (do name ← peek_sni sent; ok (route_tls orig r name))
    else ok (some (rewrite_transparent_url r (codes "http") (address_of orig)))

unfoldable pub dispatch_transparent :
    Option OriginalDst → Text → InnerRequest → Result (Option InnerRequest)
unfolding route_first
dispatch_transparent orig [] r = ok none
dispatch_transparent orig (first ∷ more) r = route_first orig (first ∷ more) r first
