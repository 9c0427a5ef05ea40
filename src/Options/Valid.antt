-- ===== src/Options/Valid.antt =====
-- Which options of cmd/discovery-server/app/options/options.go are valid, and what valid options
-- configure.
use gardener_discovery_serve.Common.{
  ◌≡◌, refl, sym, ap, ◌∙◌, ◌↔◌, ◌⊎◌, inl, inr, Bool, true, false, not, Bool-cases, Option, none,
  some, List, [], ◌∷◌, ◌++◌, Bytes, arith,
}
use gardener_discovery_serve.Utils.{is_blank}
use gardener_discovery_serve.Options.Decimal.{format_uint}
use gardener_discovery_serve.Options.{
  Options, WorkloadIdentityOptions, Config, WorkloadIdentityConfig, OptionError, error_if,
  is_positive, validate, validate_serving, validate_workload_identity, validate_resync,
  join_host_port, apply_serving, apply_workload_identity, on_open_id_config, on_workload_identity,
  apply_to,
}

-- The resync period is positive, the two TLS files are named, and the two files of the workload
-- identity are both named or both not.
pub record IsValid (o : Options) : Type 0 where
  pub positive : is_positive o.resync_options.duration ≡ true
  pub cert_named : is_blank o.serving_options.tls_cert_file ≡ false
  pub key_named : is_blank o.serving_options.tls_key_file ≡ false
  pub both_or_none :
      is_blank o.workload_identity_options.open_id_config_file
      ≡ is_blank o.workload_identity_options.jwks_file

append_nil : (a b : List OptionError) → a ++ b ≡ [] → (a ≡ []) × (b ≡ [])
append_nil [] b h = (refl, h)
append_nil (x ∷ a) b h = absurd (cc)

error_if_nil : (b : Bool) (e : OptionError) → error_if b e ≡ [] → b ≡ false
error_if_nil true e h = absurd (cc)
error_if_nil false e h = refl

not-false : (b : Bool) → not b ≡ false → b ≡ true
not-false true h = refl
not-false false h = absurd (cc)

validate_workload_identity_nil :
    (o : WorkloadIdentityOptions)
    → validate_workload_identity o ≡ []
    → is_blank o.open_id_config_file ≡ is_blank o.jwks_file
unfolding validate_workload_identity
validate_workload_identity_nil o h = ground arith

validate-IsValid : (o : Options) → validate o ≡ [] → IsValid o
unfolding validate validate_serving validate_resync
validate-IsValid o h =
    let (first, workload) = append_nil _ _ h in
    let (resync, serving) = append_nil _ _ first in
    let (cert, key) = append_nil _ _ serving in
    record {
      positive = not-false _ (error_if_nil _ _ resync);
      cert_named = error_if_nil _ _ cert;
      key_named = error_if_nil _ _ key;
      both_or_none = validate_workload_identity_nil o.workload_identity_options workload;
    }

validate_complete : (o : Options) → IsValid o → validate o ≡ []
unfolding validate validate_serving validate_workload_identity validate_resync
validate_complete o v = elim (Bool-cases (is_blank o.workload_identity_options.jwks_file)) [
  | inl none_named ↦ rw (v.positive, v.cert_named, v.key_named, v.both_or_none, none_named)
  | inr both_named ↦ rw (v.positive, v.cert_named, v.key_named, v.both_or_none, both_named)
]

-- `Validate` reports no error of exactly the options whose resync period is positive, which name the
-- two TLS files, and name both files of the workload identity or none.
pub validate_iff : (o : Options) → (validate o ≡ []) ↔ IsValid o
validate_iff o = (validate-IsValid o, validate_complete o)

module _ {E : Type 0} (read_file : Bytes → Bytes × Option E) where
  -- What the configuration says of the workload identity: it is served with the contents of the two
  -- files that are named, or no file is named and it is not served.
  abbrev pub IsServed : WorkloadIdentityOptions → WorkloadIdentityConfig → Type 0
  IsServed o c =
      ((c.enabled ≡ true)
        × (is_blank o.open_id_config_file ≡ false)
        × (is_blank o.jwks_file ≡ false)
        × (read_file o.open_id_config_file ≡ (c.open_id_config, none))
        × (read_file o.jwks_file ≡ (c.jwks, none)))
      ⊎ ((c.enabled ≡ false)
          × (is_blank o.open_id_config_file ≡ true)
          × (is_blank o.jwks_file ≡ true))

  read_both :
      (o : WorkloadIdentityOptions) (c : WorkloadIdentityConfig) (first : Bytes × Option E)
      → read_file o.open_id_config_file ≡ first
      → (on_open_id_config read_file first o.jwks_file c).1 ≡ none
      → (read_file o.open_id_config_file
          ≡ ((on_open_id_config read_file first o.jwks_file c).0.open_id_config, none))
        × (read_file o.jwks_file ≡ ((on_open_id_config read_file first o.jwks_file c).0.jwks, none))
        × ((on_open_id_config read_file first o.jwks_file c).0.enabled ≡ c.enabled)
  read_both o c (config, some e) r h = absurd (cc)
  read_both o c (config, none) r h = (r, ap (λ e. ((read_file o.jwks_file).0, e)) h, refl)

  apply_named :
      (o : WorkloadIdentityOptions) (c : WorkloadIdentityConfig)
      → is_blank o.open_id_config_file ≡ false
      → apply_workload_identity read_file o c
        ≡ on_open_id_config read_file
            (read_file o.open_id_config_file)
            o.jwks_file
            (record c { enabled = true })
  unfolding apply_workload_identity
  apply_named o c named = rw named

  apply_unnamed :
      (o : WorkloadIdentityOptions) (c : WorkloadIdentityConfig)
      → is_blank o.open_id_config_file ≡ true
      → apply_workload_identity read_file o c ≡ (record c { enabled = false }, none)
  unfolding apply_workload_identity
  apply_unnamed o c blank = rw blank

  workload_identity-IsServed :
      (o : WorkloadIdentityOptions) (c : WorkloadIdentityConfig)
      → is_blank o.open_id_config_file ≡ is_blank o.jwks_file
      → (apply_workload_identity read_file o c).1 ≡ none
      → IsServed o (apply_workload_identity read_file o c).0
  workload_identity-IsServed o c same h = elim (Bool-cases (is_blank o.open_id_config_file)) [
    | inl blank ↦ rw (apply_unnamed o c blank) (inr (refl, blank, sym same ∙ blank))
    | inr named ↦
        let (config, jwks, on) =
          read_both o (record c { enabled = true }) (read_file o.open_id_config_file) refl
            (sym (ap (λ x. x.1) (apply_named o c named)) ∙ h) in
        rw (apply_named o c named) (inl (on, named, sym same ∙ named, config, jwks))
  ]

  -- What the whole configuration takes over from the options.
  pub record IsConfigured (o : Options) (c : Config) : Type 0 where
    pub same_duration : c.resync.resync_duration ≡ o.resync_options.duration
    pub same_cert : c.serving.cert_file ≡ o.serving_options.tls_cert_file
    pub same_key : c.serving.key_file ≡ o.serving_options.tls_key_file
    pub listens :
        c.serving.listen_address
        ≡ join_host_port o.serving_options.address (format_uint o.serving_options.port)
    pub serves : IsServed o.workload_identity_options c.workload_identity

  configured :
      (o : Options) (c : Config) (w : WorkloadIdentityConfig × Option E)
      → (w.1 ≡ none → IsServed o.workload_identity_options w.0)
      → (on_workload_identity read_file w
          (apply_serving o.serving_options)
          (record c { resync = record { resync_duration = o.resync_options.duration } })).1
        ≡ none
      → IsConfigured o
          (on_workload_identity read_file w
            (apply_serving o.serving_options)
            (record c { resync = record { resync_duration = o.resync_options.duration } })).0
  unfolding apply_serving
  configured o c (w, some e) serves h = absurd (cc)
  configured o c (w, none) serves h = record {
    same_duration = refl;
    same_cert = refl;
    same_key = refl;
    listens = refl;
    serves = serves refl;
  }

  -- Where the options are valid and `ApplyTo` returns no error, the configuration has the resync
  -- period, the TLS files and the address of the options; the workload identity is served with the
  -- contents of its two files, or no file is named and it is not served, whatever stood there before.
  pub apply_to-IsConfigured :
      (o : Options) (c : Config)
      → validate o ≡ []
      → (apply_to read_file o c).1 ≡ none
      → IsConfigured o (apply_to read_file o c).0
  unfolding apply_to
  apply_to-IsConfigured o c valid h =
      configured o c
        (apply_workload_identity read_file o.workload_identity_options c.workload_identity)
        (workload_identity-IsServed o.workload_identity_options c.workload_identity
          (validate-IsValid o valid).both_or_none)
        h
