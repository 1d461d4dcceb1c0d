-- ===== src/Tracing/Address.antt =====
-- Which address the exporter gets.
use Prim.Native.String.{len, slice, ◌++◌ as ◌⊹◌}
use text.Mathlib.Text.{starts_with}
use text.Mathlib.TextPositions.{len-append, slice-append_left}
use text.Mathlib.TextLemmas.{append_assoc}
use mathlib.Core.Path.{subst}
use fluxa.Base.{
  trim_prefix, trim_prefix-append, trim_prefix-absent, ◌<◌, ap, sym, String, false, ◌≡◌, ◌≢◌, refl,
  ◌⊎◌, inl, inr, arith, eq_iff,
}
use fluxa.Tracing.Defs.{endpoint}

https_is_not_http : (s : String) → starts_with ("https://" ⊹ s) "http://" ≡ false
https_is_not_http s =
    let start : slice ("https://" ⊹ s) 0 7 ≡ "https:/" =
      subst (λ v. slice v 0 7 ≡ "https:/") (sym (append_assoc "https:/" "/" s))
        (slice-append_left "https:/" ("/" ⊹ s)) in
    rw start refl

prefixed_ne : (prefix s : String) → 0 < len prefix → (prefix ⊹ s) ≢ ""
prefixed_ne prefix s h e = absurd (omega (arith, len-append prefix s, ap len e))

endpoint_set :
    (getenv : String → String) (ep : String)
    → getenv "OTEL_EXPORTER_OTLP_ENDPOINT" ≡ ep
    → ep ≢ ""
    → endpoint getenv ≡ trim_prefix (trim_prefix ep "http://") "https://"
unfolding endpoint
endpoint_set getenv ep is set = ground (arith, eq_iff ep "")

-- A host is found under either scheme and under none.
endpoint_schemes :
    (getenv : String → String) (host : String)
    → host ≢ ""
    → starts_with host "http://" ≡ false
    → starts_with host "https://" ≡ false
    → let ep = getenv "OTEL_EXPORTER_OTLP_ENDPOINT" in
      (ep ≡ host) ⊎ ((ep ≡ "http://" ⊹ host) ⊎ (ep ≡ "https://" ⊹ host)) → endpoint getenv ≡ host
endpoint_schemes getenv host set http https (inl plain) = ground (
  arith,
  endpoint_set getenv host plain set,
  trim_prefix-absent "http://" host http,
  trim_prefix-absent "https://" host https,
)
endpoint_schemes getenv host set http https (inr (inl e)) = ground (
  arith,
  endpoint_set getenv ("http://" ⊹ host) e (prefixed_ne "http://" host (omega arith)),
  trim_prefix-append "http://" host,
  trim_prefix-absent "https://" host https,
)
endpoint_schemes getenv host set http https (inr (inr e)) = ground (
  arith,
  endpoint_set getenv ("https://" ⊹ host) e (prefixed_ne "https://" host (omega arith)),
  trim_prefix-absent "http://" ("https://" ⊹ host) (https_is_not_http host),
  trim_prefix-append "https://" host,
)
