-- ===== src/SafeDial/Guard.antt =====
-- What the dialer lets through.
use mkqd.Base.{◌≡◌, true, false, Option, some, Bytes, arith, Option-cases, ◌⊎◌, inl, inr}
use mkqd.RetryAfter.Errors.{nil, blocked, is_error}
use mkqd.SafeDial.Address.{Addr}
use mkqd.SafeDial.{is_public, check_addr, new_dialer}

module _ (split_host_port : Bytes → Option Bytes) (parse_addr : Bytes → Option Addr) where
  -- CheckAddr lets an address pass only if it splits into a host that reads as a public IP address.
  pub check_addr-is_public :
      (address : Bytes)
      → check_addr split_host_port parse_addr address ≡ nil
      → (host : Bytes) × (ip : Addr) × (split_host_port address ≡ some host)
        × (parse_addr host ≡ some ip)
        × (is_public ip ≡ true)
  unfolding check_addr
  check_addr-is_public address h = elim (Option-cases (split_host_port address)) [
    | inl e ↦ ground arith
    | inr (host, e) ↦ elim (Option-cases (parse_addr host)) [
      | inl f ↦ ground arith
      | inr (ip, f) ↦ (host, ip, e, f, ground arith)
    ]
  ]

  -- With the guard on, a dial goes ahead or ends in an error that errors.Is finds ErrBlocked in.
  pub new_dialer_refusal :
      (address : Bytes)
      → (new_dialer split_host_port parse_addr false address ≡ nil)
        ⊎ (is_error blocked (new_dialer split_host_port parse_addr false address) ≡ true)
  unfolding new_dialer check_addr is_error
  new_dialer_refusal address = ground arith
