-- ===== src/Proxy/Transparent/Routing.antt =====
-- internal/proxy/transparent_loop.go: where a relative request on a TLS connection goes.
use goper.Base.{
  ℕ, ◌++◌, true, false, [], ◌∷◌, some, ◌≡◌, ◌≢◌, refl, sym, ap, ◌∙◌, if_false, inl, inr, arith,
  Bool-cases,
}
use goper.Base.Text.{Text, codes, text_eq, text_eq_iff}
use goper.Proxy.Certificates.{ClientHelloInfo, or_else, local_addr, host_for_hello}
use goper.Proxy.Sni.{ok, ◌>>=◌}
use goper.Capture.Entry.{itoa}
use goper.Proxy.OriginalDst.{RawSockaddr, answered, ip_string, original_of, get_original_dst}
use goper.Proxy.Transparent.{
  OriginalDst, InnerRequest, is_absolute, rewrite_transparent_url, fallback_host, certificate_host,
  tls_hello, peek_sni, route_tls, route_first, dispatch_transparent,
}

fallback_host-named : (o : OriginalDst) (name : Text) → o.ip ≢ [] → fallback_host (some o) name ≢ []
unfolding fallback_host
fallback_host-named o name n = elim (Bool-cases (text_eq name [])) [
  | inl e ↦ rw e n
  | inr e ↦ rw e (λ same. ground (arith, e, text_eq_iff name [], same))
]

certificate_host-fallback :
    (o : OriginalDst) (name : Text)
    → certificate_host name (fallback_host (some o) name) ≡ fallback_host (some o) name
unfolding certificate_host fallback_host
certificate_host-fallback o name = elim (Bool-cases (text_eq name [])) [
  | inl e ↦ rw e refl
  | inr e ↦ rw e refl
]

host_for_hello-named :
    (hello : ClientHelloInfo) → hello.server_name ≢ [] → host_for_hello hello ≡ hello.server_name
unfolding host_for_hello
host_for_hello-named hello n =
    let e : text_eq hello.server_name [] ≡ false =
      ground (arith, n, text_eq_iff hello.server_name []) in
    if_false (text_eq (or_else hello.server_name (local_addr hello.local)) []) _ _
      (ap (λ t. text_eq t []) (if_false (text_eq hello.server_name []) _ _ e) ∙ e)
    ∙ if_false (text_eq hello.server_name []) _ _ e

-- The cache is asked for the host that the requests of the connection go to.
fallback_host-certified :
    (o : OriginalDst) (hello : ClientHelloInfo)
    → o.ip ≢ []
    → let fallback = fallback_host (some o) hello.server_name in
      host_for_hello (tls_hello hello fallback) ≡ fallback
unfolding tls_hello
fallback_host-certified o hello n =
    let fallback = fallback_host (some o) hello.server_name in
    let same = certificate_host-fallback o hello.server_name in
    host_for_hello-named (tls_hello hello fallback)
      (λ e. fallback_host-named o hello.server_name n (sym same ∙ e))
    ∙ same

append_not_empty : (s t : Text) (c : ℕ) → s ++ c ∷ t ≢ []
append_not_empty [] t c = λ e. ground (arith, e)
append_not_empty (x ∷ s) t c = λ e. ground (arith, e)

ip_string-not_empty : (raw : RawSockaddr) → ip_string raw ≢ []
unfolding ip_string
ip_string-not_empty raw = append_not_empty (itoa raw.a) _ b'.'

-- A request without a Host header and with a relative URL, on a TLS connection whose server name
-- could be peeked and for which the kernel knows the original address, goes over https to a host that
-- is not empty, and it is the host that the cache is asked for when the connection's TLS handshake
-- wants a certificate for a hello with that name.
pub dispatch_transparent_lem :
    (raw : RawSockaddr) (more : Text) (hello : ClientHelloInfo) (r : InnerRequest)
    → peek_sni (0x16 ∷ more) ≡ ok (some hello.server_name)
    → is_absolute r ≡ false
    → r.host ≡ []
    → let orig = get_original_dst (answered raw) in
      (out : InnerRequest) × (dispatch_transparent orig (0x16 ∷ more) r ≡ ok (some out))
      × (out.scheme ≡ codes "https")
      × (out.url_host ≢ [])
      × (host_for_hello (tls_hello hello (fallback_host orig hello.server_name)) ≡ out.url_host)
unfolding dispatch_transparent route_first route_tls rewrite_transparent_url get_original_dst
dispatch_transparent_lem raw more hello r peeked relative no_host =
    let o = original_of raw in
    let host = fallback_host (some o) hello.server_name in
    let empty : text_eq r.host [] ≡ true = (text_eq_iff r.host []).1 no_host in
    let known = ip_string-not_empty raw in
    (
      record r { scheme = codes "https"; url_host = host },
      rw (peeked, ◌>>=◌, relative, empty) refl,
      refl,
      fallback_host-named o hello.server_name known,
      fallback_host-certified o hello known,
    )
