-- ===== src/Options/Flags/Setters.antt =====
-- The one variable that each flag of cmd/discovery-server/app/options/options.go sets.
use gardener_discovery_serve.Common.{
  ◌≡◌, refl, sym, ap, ◌∙◌, bytes, ◌==◌, eq_refl, false, Bytes, ℕ, All, arith,
}
use gardener_discovery_serve.Common.Results.{Result, ok, err, ◌>>=◌}
use gardener_discovery_serve.Options.{ℤ, Options}
use gardener_discovery_serve.Options.Flags.{FlagSet, Pflag}
use gardener_discovery_serve.Options.Flags.Given.{IsSetter}
use gardener_discovery_serve.Options.Flags.Registered.{registered}

unok : {E A : Type 0} → {a b : A} → ◌≡◌ {A = Result E A} (ok a) (ok b) → a ≡ b
unok h = ground arith

infixr 4 ◌&◌
-- One flag after the other.
abbrev ◌&◌ : {P Q : Type 0} → P → Q → P × Q
p & q = (p, q)

module _ {E A : Type 0} (get : Options → A) (name : Bytes) where
  stays : {o o' : Options} → ◌≡◌ {A = Result E Options} (ok o) (ok o') → get o' ≡ get o
  stays h = sym (ap get (unok h))

  kept :
      {V : Type 0} (m : Result E V) (put : V → Options → Options) (o o' : Options)
      → ((v : V) → get (put v o) ≡ get o)
      → ◌≡◌ {A = Result E Options} (m >>= λ v. ok (put v o)) (ok o')
      → get o' ≡ get o
  kept (ok v) put o o' same h = stays h ∙ same v
  kept (err e) put o o' same h = absurd (cc)

  given :
      (m : Result E A) (put : A → Options → Options) (o o' : Options)
      → ((v : A) → get (put v o) ≡ v)
      → ◌≡◌ {A = Result E Options} (m >>= λ v. ok (put v o)) (ok o')
      → m ≡ ok (get o')
  given (ok v) put o o' same h = ap ok (sym (stays h ∙ same v))
  given (err e) put o o' same h = absurd (cc)

  -- Flags that do not name the variable: of a text, and of a value that is parsed.
  text_kept :
      (read : Bytes → Result E A) (n : Bytes) (put : Bytes → Options → Options)
      → (n == name) ≡ false
      → ((v : Bytes) (o : Options) → get (put v o) ≡ get o)
      → IsSetter get name read (n, λ s o. ok (put s o))
  text_kept read n put differs same v o o' h = rw differs (stays h ∙ same v o)

  parsed_kept :
      {V : Type 0} (read : Bytes → Result E A) (parse : Bytes → Result E V) (n : Bytes)
      (put : V → Options → Options)
      → (n == name) ≡ false
      → ((v : V) (o : Options) → get (put v o) ≡ get o)
      → IsSetter get name read (n, λ s o. parse s >>= λ v. ok (put v o))
  parsed_kept read parse n put differs same v o o' h =
      rw differs (kept (parse v) put o o' (λ x. same x o) h)

  -- The flag that names a variable that is parsed.
  parsed_set :
      (parse : Bytes → Result E A) (put : A → Options → Options)
      → ((v : A) (o : Options) → get (put v o) ≡ v)
      → IsSetter get name parse (name, λ s o. parse s >>= λ v. ok (put v o))
  parsed_set parse put same v o o' h =
      rw (eq_refl name) (given (parse v) put o o' (λ x. same x o) h)

-- The flag that names a text.
text_set :
    {E : Type 0} (get : Options → Bytes) (name : Bytes) (put : Bytes → Options → Options)
    → ((v : Bytes) (o : Options) → get (put v o) ≡ v)
    → IsSetter {E = E} get name ok (name, λ s o. ok (put s o))
text_set get name put same v o o' h = rw (eq_refl name) (ap ok (sym (stays get name h ∙ same v o)))

module _ {E : Type 0} (p : Pflag E) where
  pub tls_cert_file-IsSetter :
      All
        (IsSetter (λ o. o.serving_options.tls_cert_file) (bytes "tls-cert-file") ok)
        (FlagSet.flags (registered p))
  unfolding ◌==◌
  tls_cert_file-IsSetter =
      let get : Options → Bytes = λ o. o.serving_options.tls_cert_file in
      let name : Bytes = bytes "tls-cert-file" in
      text_kept get name ok (bytes "workload-identity-jwks-file") _ refl (λ v o. refl)
      & text_kept get name ok (bytes "workload-identity-openid-configuration-file") _ refl
          (λ v o. refl)
      & parsed_kept get name ok p.parse_duration (bytes "resync-period") _ refl (λ v o. refl)
      & parsed_kept get name ok p.parse_uint (bytes "port") _ refl (λ v o. refl)
      & text_kept get name ok (bytes "address") _ refl (λ v o. refl)
      & text_kept get name ok (bytes "tls-private-key-file") _ refl (λ v o. refl)
      & text_set get name _ (λ v o. refl)
      & tt

  pub tls_key_file-IsSetter :
      All
        (IsSetter (λ o. o.serving_options.tls_key_file) (bytes "tls-private-key-file") ok)
        (FlagSet.flags (registered p))
  unfolding ◌==◌
  tls_key_file-IsSetter =
      let get : Options → Bytes = λ o. o.serving_options.tls_key_file in
      let name : Bytes = bytes "tls-private-key-file" in
      text_kept get name ok (bytes "workload-identity-jwks-file") _ refl (λ v o. refl)
      & text_kept get name ok (bytes "workload-identity-openid-configuration-file") _ refl
          (λ v o. refl)
      & parsed_kept get name ok p.parse_duration (bytes "resync-period") _ refl (λ v o. refl)
      & parsed_kept get name ok p.parse_uint (bytes "port") _ refl (λ v o. refl)
      & text_kept get name ok (bytes "address") _ refl (λ v o. refl)
      & text_set get name _ (λ v o. refl)
      & text_kept get name ok (bytes "tls-cert-file") _ refl (λ v o. refl)
      & tt

  pub address-IsSetter :
      All
        (IsSetter (λ o. o.serving_options.address) (bytes "address") ok)
        (FlagSet.flags (registered p))
  unfolding ◌==◌
  address-IsSetter =
      let get : Options → Bytes = λ o. o.serving_options.address in
      let name : Bytes = bytes "address" in
      text_kept get name ok (bytes "workload-identity-jwks-file") _ refl (λ v o. refl)
      & text_kept get name ok (bytes "workload-identity-openid-configuration-file") _ refl
          (λ v o. refl)
      & parsed_kept get name ok p.parse_duration (bytes "resync-period") _ refl (λ v o. refl)
      & parsed_kept get name ok p.parse_uint (bytes "port") _ refl (λ v o. refl)
      & text_set get name _ (λ v o. refl)
      & text_kept get name ok (bytes "tls-private-key-file") _ refl (λ v o. refl)
      & text_kept get name ok (bytes "tls-cert-file") _ refl (λ v o. refl)
      & tt

  pub port-IsSetter :
      All
        (IsSetter (λ o. o.serving_options.port) (bytes "port") p.parse_uint)
        (FlagSet.flags (registered p))
  unfolding ◌==◌
  port-IsSetter =
      let get : Options → ℕ = λ o. o.serving_options.port in
      let name : Bytes = bytes "port" in
      text_kept get name p.parse_uint (bytes "workload-identity-jwks-file") _ refl (λ v o. refl)
      & text_kept get name p.parse_uint (bytes "workload-identity-openid-configuration-file") _ refl
          (λ v o. refl)
      & parsed_kept get name p.parse_uint p.parse_duration (bytes "resync-period") _ refl
          (λ v o. refl)
      & parsed_set get name p.parse_uint _ (λ v o. refl)
      & text_kept get name p.parse_uint (bytes "address") _ refl (λ v o. refl)
      & text_kept get name p.parse_uint (bytes "tls-private-key-file") _ refl (λ v o. refl)
      & text_kept get name p.parse_uint (bytes "tls-cert-file") _ refl (λ v o. refl)
      & tt

  pub resync_period-IsSetter :
      All
        (IsSetter (λ o. o.resync_options.duration) (bytes "resync-period") p.parse_duration)
        (FlagSet.flags (registered p))
  unfolding ◌==◌
  resync_period-IsSetter =
      let get : Options → ℤ = λ o. o.resync_options.duration in
      let name : Bytes = bytes "resync-period" in
      text_kept get name p.parse_duration (bytes "workload-identity-jwks-file") _ refl (λ v o. refl)
      & text_kept get name p.parse_duration (bytes "workload-identity-openid-configuration-file") _
          refl (λ v o. refl)
      & parsed_set get name p.parse_duration _ (λ v o. refl)
      & parsed_kept get name p.parse_duration p.parse_uint (bytes "port") _ refl (λ v o. refl)
      & text_kept get name p.parse_duration (bytes "address") _ refl (λ v o. refl)
      & text_kept get name p.parse_duration (bytes "tls-private-key-file") _ refl (λ v o. refl)
      & text_kept get name p.parse_duration (bytes "tls-cert-file") _ refl (λ v o. refl)
      & tt

  pub open_id_config_file-IsSetter :
      All
        (IsSetter
          (λ o. o.workload_identity_options.open_id_config_file)
          (bytes "workload-identity-openid-configuration-file")
          ok)
        (FlagSet.flags (registered p))
  unfolding ◌==◌
  open_id_config_file-IsSetter =
      let get : Options → Bytes = λ o. o.workload_identity_options.open_id_config_file in
      let name : Bytes = bytes "workload-identity-openid-configuration-file" in
      text_kept get name ok (bytes "workload-identity-jwks-file") _ refl (λ v o. refl)
      & text_set get name _ (λ v o. refl)
      & parsed_kept get name ok p.parse_duration (bytes "resync-period") _ refl (λ v o. refl)
      & parsed_kept get name ok p.parse_uint (bytes "port") _ refl (λ v o. refl)
      & text_kept get name ok (bytes "address") _ refl (λ v o. refl)
      & text_kept get name ok (bytes "tls-private-key-file") _ refl (λ v o. refl)
      & text_kept get name ok (bytes "tls-cert-file") _ refl (λ v o. refl)
      & tt

  pub jwks_file-IsSetter :
      All
        (IsSetter
          (λ o. o.workload_identity_options.jwks_file)
          (bytes "workload-identity-jwks-file")
          ok)
        (FlagSet.flags (registered p))
  unfolding ◌==◌
  jwks_file-IsSetter =
      let get : Options → Bytes = λ o. o.workload_identity_options.jwks_file in
      let name : Bytes = bytes "workload-identity-jwks-file" in
      text_set get name _ (λ v o. refl)
      & text_kept get name ok (bytes "workload-identity-openid-configuration-file") _ refl
          (λ v o. refl)
      & parsed_kept get name ok p.parse_duration (bytes "resync-period") _ refl (λ v o. refl)
      & parsed_kept get name ok p.parse_uint (bytes "port") _ refl (λ v o. refl)
      & text_kept get name ok (bytes "address") _ refl (λ v o. refl)
      & text_kept get name ok (bytes "tls-private-key-file") _ refl (λ v o. refl)
      & text_kept get name ok (bytes "tls-cert-file") _ refl (λ v o. refl)
      & tt
