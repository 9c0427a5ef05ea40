-- ===== src/Options/Address.antt =====
-- The address that the server of cmd/discovery-server/app/options/options.go listens on.
use gardener_discovery_serve.Common.{
  ◌≡◌, refl, sym, ap, inl, inr, Bool-cases, All, [], ◌∷◌, ◌++◌, Bytes, bytes, if◌then◌else◌,
}
use gardener_discovery_serve.Options.{ServingOptions, has_colon, join_host_port, apply_serving}
use gardener_discovery_serve.Options.Decimal.{format_uint, value, IsDigit, format_uint-value}

bracketed :
    (host port : Bytes) → (host ++ bytes "]") ++ bytes ":" ++ port ≡ host ++ bytes "]:" ++ port
bracketed [] port = refl
bracketed (c ∷ host) port = ap (λ s. c ∷ s) (bracketed host port)

-- The host, in brackets where it holds a colon.
abbrev pub host_part : Bytes → Bytes
host_part host = if has_colon host then bytes "[" ++ host ++ bytes "]" else host

join_host_port_parts :
    (host port : Bytes) → join_host_port host port ≡ host_part host ++ bytes ":" ++ port
unfolding join_host_port
join_host_port_parts host port = elim (Bool-cases (has_colon host)) [
  | inl colon ↦ rw colon (ap (λ s. 91 ∷ s) (sym (bracketed host port)))
  | inr plain ↦ rw plain
]

-- The server listens on the host, in brackets where it holds a colon, a colon, and digits that stand
-- for the port.
pub apply_serving-listen_address :
    (o : ServingOptions)
    → (port : Bytes) × ((apply_serving o).listen_address ≡ host_part o.address ++ bytes ":" ++ port)
      × All IsDigit port
      × (value port ≡ o.port)
unfolding apply_serving
apply_serving-listen_address o =
    let (stands_for, all_digits) = format_uint-value o.port in
    (
      format_uint o.port,
      join_host_port_parts o.address (format_uint o.port),
      all_digits,
      stands_for,
    )
