-- ===== src/Tracker/Upstream/Key.antt =====
-- bin/tracker/src/config.rs and bin/tracker/src/upstream/mod.rs: the key of the configuration or of the
-- environment, as the header of a request.
use tx3_lift.Prelude.{
  ◌≡◌, ◌≢◌, refl, sym, ap, ◌∙◌, ◌⊎◌, inl, inr, false, Option, none, some, [], Text, ok, err, ◌>>=◌,
  ok_or, >>=-ok, ok_inj, is_empty, if◌then◌else◌, Bool-cases, Option-cases,
}
use tx3_lift.Prelude.Order.{nat_ord, list_ord, ◌==◌, ==_iff}
use tx3_lift.Collections.Map
use tx3_lift.Tracker.Error.{config_error, tonic_transport}
use tx3_lift.Tracker.Config.{Config, UpstreamConfig, Environment, load, resolve_api_key, nonempty}
use tx3_lift.Tracker.Upstream.{
  MetadataMap, ApiKeyInterceptor, header_name, call, Transport, check, metadata_of, is_https,
  connect,
}

-- the key that is there and is not the empty text
abbrev pub IsKey : Option Text → Text → Type 0
IsKey found key = (found ≡ some key) × (is_empty key ≡ false)

-- there is none but the empty text
abbrev pub IsMissing : Option Text → Type 0
IsMissing found = (found ≡ none) ⊎ (found ≡ some [])

nonempty-key : (found : Option Text) (key : Text) → IsKey found key → nonempty found ≡ some key
nonempty-key found key (e, f) = rw (e, f) refl

nonempty-missing : (found : Option Text) → IsMissing found → nonempty found ≡ none
nonempty-missing found (inl e) = rw e refl
nonempty-missing found (inr e) = rw e refl

metadata_of-ok :
    (transport : Transport) (key value : Option Text)
    → metadata_of transport key ≡ ok value
    → value ≡ key
metadata_of-ok transport none value h = sym (ok_inj h)
metadata_of-ok transport (some key) value h = elim (Bool-cases (transport.metadata_value key)) [
  | inl y ↦ sym (ok_inj (rw y at h))
  | inr n ↦ let bad : err config_error ≡ ok value = rw n at h in cc
]

connect-key :
    (transport : Transport) (cfg : UpstreamConfig) (interceptor : ApiKeyInterceptor)
    → connect transport cfg ≡ ok interceptor
    → interceptor.api_key ≡ cfg.api_key
unfolding connect
connect-key transport cfg interceptor h =
    let (u, a, h1) =
      >>=-ok (check (transport.from_shared cfg.endpoint) config_error) _ interceptor h in
    let (v, b, h2) =
      >>=-ok (if is_https cfg.endpoint then check transport.tls_config tonic_transport else ok tt) _
        interceptor h1 in
    let (w, c, h3) = >>=-ok (check transport.reachable tonic_transport) _ interceptor h2 in
    let (key, d, h4) = >>=-ok (metadata_of transport cfg.api_key) _ interceptor h3 in
    ap (λ (i : ApiKeyInterceptor). i.api_key) (sym (ok_inj h4))
    ∙ metadata_of-ok transport cfg.api_key key d

load-key :
    (environment : Environment) (path contents : Text) (read cfg : Config)
    → environment.read_to_string path ≡ some contents
    → environment.from_str contents ≡ some read
    → load environment path ≡ ok cfg
    → cfg.upstream.api_key
      ≡ resolve_api_key (nonempty read.upstream.api_key) (nonempty environment.dmtr_api_key)
unfolding load
load-key environment path contents read cfg r p h =
    let h' = rw (r, p, ok_or, ◌>>=◌) at h in
    elim (Bool-cases (is_empty read.sources)) [
      | inl y ↦ let bad : err config_error ≡ ok cfg = rw y at h' in cc
      | inr n ↦ ap (λ (c : Config). c.upstream.api_key) (sym (ok_inj (rw n at h')))
    ]

module _ (environment : Environment) (path contents : Text) (read cfg : Config)
    (transport : Transport) (interceptor : ApiKeyInterceptor) where
  -- Once the configuration file is read and parsed, `load` succeeds and the connection stands, the
  -- header `dmtr-api-key` of a request is the key of the file if that is not empty, else the one of
  -- the environment if that is not empty, and else what it was; other headers stay as they were.
  pub connect-load :
      (metadata : MetadataMap)
      → environment.read_to_string path ≡ some contents
      → environment.from_str contents ≡ some read
      → load environment path ≡ ok cfg
      → connect transport cfg.upstream ≡ ok interceptor
      → ((key : Text)
          → IsKey read.upstream.api_key key
          → Map.get (call interceptor metadata) header_name ≡ some key)
        × ((key : Text)
            → IsMissing read.upstream.api_key
            → IsKey environment.dmtr_api_key key
            → Map.get (call interceptor metadata) header_name ≡ some key)
        × (IsMissing read.upstream.api_key
            → IsMissing environment.dmtr_api_key
            → call interceptor metadata ≡ metadata)
        × ((name : Text)
            → name ≢ header_name
            → Map.get (call interceptor metadata) name ≡ Map.get metadata name)
  unfolding resolve_api_key call
  connect-load metadata r p h c =
      let key =
        connect-key transport cfg.upstream interceptor c
        ∙ load-key environment path contents read cfg r p h in
      (
        λ k t. rw (key, nonempty-key read.upstream.api_key k t) (inserted k),
        λ k t e.
            rw
              (
                key,
                nonempty-missing read.upstream.api_key t,
                nonempty-key environment.dmtr_api_key k e,
              )
              (inserted k),
        λ t e.
            rw
              (
                key,
                nonempty-missing read.upstream.api_key t,
                nonempty-missing environment.dmtr_api_key e,
              )
              refl,
        λ name n. elim (Option-cases interceptor.api_key) [
          | inl e ↦ rw e refl
          | inr (v, e) ↦ rw e (
              Map.get-insert header_name name v metadata ∙ elim (Bool-cases (header_name == name)) [
                | inl y ↦ absurd (n (sym ((==_iff header_name name).0 y)))
                | inr z ↦ rw z refl
              ])
        ],
      )
    where
      inserted : (k : Text) → Map.get (Map.insert header_name k metadata) header_name ≡ some k
      inserted k = Map.get-insert header_name header_name k metadata
