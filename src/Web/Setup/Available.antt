-- ===== src/Web/Setup/Available.antt =====
-- setup.go: when the certificate is served.
use wallbox_homeautomation_g.Base.{
  Bool-cases, Option, String, false, inl, inr, refl, true, ◌==◌, ◌≡◌, ◌⊎◌,
}
use wallbox_homeautomation_g.Web.Reply.{Reply, error_handler, status_of}
use wallbox_homeautomation_g.Web.Setup.{
  Disk, FileRead, ca_root_available, found, handle_setup_mobileconfig, handle_setup_root_cert,
  missing, of_read, read_ca_root, serve_mobileconfig, serve_root_cert, unreadable,
}

-- What the system answers about a file: it is there if it can be read, and not if it is missing.
pub record IsConsistent (disk : Disk) (path : String) : Type 0 where
  pub readable : (content : String) → disk.read_file path ≡ found content → disk.exists path ≡ true
  pub absent : disk.read_file path ≡ missing → disk.exists path ≡ false

module _ {ℓ} (W : Type ℓ) where
  -- Both downloads answer alike: with 404 where the setup page says that there is no certificate,
  -- with 200 where it says that there is one and the file can be read, and with 500 only where the
  -- file is there and cannot be read.
  pub downloads-cases :
      (pem : String → Option String) (base64 : String → String) (disk : Disk) (path : String)
      → IsConsistent disk path
      → let root : Reply W = handle_setup_root_cert disk path in
        let profile : Reply W = handle_setup_mobileconfig pem base64 disk path in
        (status_of profile ≡ status_of root)
        × (((ca_root_available disk path ≡ true) × (status_of root ≡ 200))
            ⊎ ((ca_root_available disk path ≡ false) × (status_of root ≡ 404))
            ⊎ ((disk.read_file path ≡ unreadable) × (status_of root ≡ 500)))
  unfolding handle_setup_root_cert handle_setup_mobileconfig ca_root_available read_ca_root
      status_of error_handler
  downloads-cases pem base64 disk path v = elim (Bool-cases (path == "")) [
    | inl unset ↦ rw unset (refl, inr (inl (refl, refl)))
    | inr given ↦ rw given (by_read (disk.read_file path) refl)
  ]
    where
      by_read :
          (r : FileRead)
          → disk.read_file path ≡ r
          → (status_of (serve_mobileconfig {W = W} pem base64 (of_read r))
              ≡ status_of (serve_root_cert {W = W} (of_read r)))
            × (((disk.exists path ≡ true) × (status_of (serve_root_cert {W = W} (of_read r)) ≡ 200))
                ⊎ ((disk.exists path ≡ false)
                    × (status_of (serve_root_cert {W = W} (of_read r)) ≡ 404))
                ⊎ ((r ≡ unreadable) × (status_of (serve_root_cert {W = W} (of_read r)) ≡ 500)))
      by_read (found content) e = (refl, inl (v.readable content e, refl))
      by_read missing e = (refl, inr (inl (v.absent e, refl)))
      by_read unreadable e = (refl, inr (inr (refl, refl)))
