-- ===== src/Deploy/Outside.antt =====
-- The server's address as it is given to devices is never that of the device itself.
use Prim.Native.Char.{code}
use Prim.Native.String as Text
use text.Mathlib.TextLemmas.{nil-append, cons-append}
use batch_shutdown_assistant.Prelude.{
  String, concat, ◌≡◌, ◌∙◌, refl, ap, Bool, true, false, not, ◌&&◌, ◌||◌, Option, none, some, List,
  [], ◌∷◌, all_rows, num_eq, leb, ok, arith, ◌==◌, eq_iff, Bool-cases, Option-cases, inl, inr,
}
use batch_shutdown_assistant.Deploy.{
  is_loopback, first_outside, detect_lan_ip, before_colon, port_or, is_local, host_or_default,
  resolve_server_url,
}

-- Digits and dots, as the socket library writes an IPv4 address.
unfoldable pub is_dotted : String → Bool
is_dotted Text.[] = true
is_dotted (Text.◌∷◌ c s) =
    (num_eq (code c) b'.' || (leb b'0' (code c) && leb (code c) b'9')) && is_dotted s

abbrev pub all_dotted : Option (List String) → Bool
all_dotted none = true
all_dotted (some ips) = all_rows is_dotted ips

abbrev pub is_outside : Option String → Bool
is_outside none = true
is_outside (some ip) = is_dotted ip && not (is_loopback ip)

first_outside-is_outside :
    (ips : List String) → all_rows is_dotted ips ≡ true → is_outside (first_outside ips) ≡ true
unfolding first_outside
first_outside-is_outside [] h = refl
first_outside-is_outside (ip ∷ ips) h = ground (arith, h, first_outside-is_outside ips)

detect_lan_ip-is_outside :
    (probe : Option String) (addresses : Option (List String))
    → is_outside probe ≡ true
    → all_dotted addresses ≡ true
    → is_outside (detect_lan_ip probe addresses) ≡ true
unfolding detect_lan_ip
detect_lan_ip-is_outside probe none h k = h
detect_lan_ip-is_outside probe (some ips) h k = ground (arith, h, first_outside-is_outside ips k)

before_colon-dotted :
    (a t : String) → is_dotted a ≡ true → before_colon (concat a (concat ":" t)) ≡ a
unfolding before_colon is_dotted
before_colon-dotted Text.[] t h = ap before_colon (nil-append (concat ":" t) ∙ cons-append ":" "" t)
before_colon-dotted (Text.◌∷◌ c a) t h =
    ap before_colon (cons-append c a (concat ":" t)) ∙ ground (arith, h, before_colon-dotted a t)

is_local-dotted : (a : String) → is_dotted a ≡ true → is_loopback a ≡ false → is_local a ≡ false
unfolding is_dotted
is_local-dotted a h k = elim (Bool-cases (a == "localhost")) [
  | inl named ↦ let e : a ≡ "localhost" = (eq_iff a "localhost").0 named in absurd (cc (rw e at h))
  | inr plain ↦ elim (Bool-cases (a == "127.0.0.1")) [
    | inl own ↦ let e : a ≡ "127.0.0.1" = (eq_iff a "127.0.0.1").0 own in absurd (cc (rw e at k))
    | inr other ↦ rw (plain, other) refl
  ]
]

-- Where the socket library gives IPv4 addresses as texts, and no loopback address for a socket that is
-- connected to the outside, the host of an answered address is neither localhost nor 127.0.0.1.
pub resolve_server_url_lem :
    {url : String} (probe : Option String) (addresses : Option (List String))
    (header : Option String)
    → is_outside probe ≡ true
    → all_dotted addresses ≡ true
    → resolve_server_url (detect_lan_ip probe addresses) header ≡ ok url
    → (host : String) × (url ≡ concat "http://" host) × (is_local (before_colon host) ≡ false)
unfolding resolve_server_url
resolve_server_url_lem {url} probe addresses header h k e =
    let host = host_or_default header in
    elim (Bool-cases (is_local (before_colon host))) [
      | inr remote ↦ (host, ground (arith, e, remote), remote)
      | inl local ↦ elim (Option-cases (detect_lan_ip probe addresses)) [
        | inl nothing ↦ absurd (ground (arith, e, local, nothing))
        | inr (a, found) ↦
            let out = rw found at (detect_lan_ip-is_outside probe addresses h k) in
            let port = port_or "8080" host in
            (
              concat a (concat ":" port),
              ground (arith, e, local, found),
              rw (before_colon-dotted a port (ground (arith, out)))
                  (is_local-dotted a (ground (arith, out)) (ground (arith, out))),
            )
      ]
    ]
