-- ===== src/Tracker/Upstream/Failures.antt =====
-- bin/tracker/src/upstream/mod.rs: the errors of a connection.
use tx3_lift.Prelude.{
  ◌≡◌, refl, ◌⊎◌, inl, inr, Bool, true, false, Option, none, some, Text, Result, ok, err, ◌>>=◌,
  Bool-cases, if◌then◌else◌,
}
use tx3_lift.Tracker.Error.{TrackerError, config_error, tonic_transport}
use tx3_lift.Tracker.Config.{UpstreamConfig}
use tx3_lift.Tracker.Upstream.{Transport, check, metadata_of, is_https, connect}

-- the only errors are one of the configuration and one of the transport
abbrev pub FailsToConnect : {B : Type 0} → Result TrackerError B → Type 0
FailsToConnect {B} m = ((b : B) × (m ≡ ok b)) ⊎ (m ≡ err config_error) ⊎ (m ≡ err tonic_transport)

bind-FailsToConnect :
    {B C : Type 0} (m : Result TrackerError B) (f : B → Result TrackerError C)
    → FailsToConnect m
    → ((b : B) → FailsToConnect (f b))
    → FailsToConnect (m >>= f)
bind-FailsToConnect m f (inl (b, e)) k = rw e (k b)
bind-FailsToConnect m f (inr (inl e)) k = rw e (inr (inl refl))
bind-FailsToConnect m f (inr (inr e)) k = rw e (inr (inr refl))

check-FailsToConnect :
    (b : Bool) → FailsToConnect (check b config_error) × FailsToConnect (check b tonic_transport)
check-FailsToConnect true = (inl (tt, refl), inl (tt, refl))
check-FailsToConnect false = (inr (inl refl), inr (inr refl))

metadata_of-FailsToConnect :
    (transport : Transport) (key : Option Text) → FailsToConnect (metadata_of transport key)
metadata_of-FailsToConnect transport none = inl (none, refl)
metadata_of-FailsToConnect transport (some key) = elim (Bool-cases (transport.metadata_value key)) [
  | inl y ↦ rw y (inl (some key, refl))
  | inr n ↦ rw n (inr (inl refl))
]

pub connect-FailsToConnect :
    (transport : Transport) (cfg : UpstreamConfig) → FailsToConnect (connect transport cfg)
unfolding connect
connect-FailsToConnect transport cfg =
    bind-FailsToConnect (check (transport.from_shared cfg.endpoint) config_error) _
      (check-FailsToConnect (transport.from_shared cfg.endpoint)).0
      λ u.
        bind-FailsToConnect
          (if is_https cfg.endpoint then check transport.tls_config tonic_transport else ok tt) _
          (elim (Bool-cases (is_https cfg.endpoint)) [
            | inl y ↦ rw y (check-FailsToConnect transport.tls_config).1
            | inr n ↦ rw n (inl (tt, refl))
          ])
          λ v.
            bind-FailsToConnect (check transport.reachable tonic_transport) _
              (check-FailsToConnect transport.reachable).1
              λ w.
                bind-FailsToConnect (metadata_of transport cfg.api_key) _
                  (metadata_of-FailsToConnect transport cfg.api_key) λ key. inl (_, refl)
