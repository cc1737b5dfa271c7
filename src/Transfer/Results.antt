-- ===== src/Transfer/Results.antt =====
-- The transfers that return a fault code.
use netcwmp_xo.Base.{
  ◌≤◌, ◌≡◌, some, arith, length, Rc, cwmp_ok, true, if◌then◌else◌, not, Bool-cases, inl, inr, refl,
}
use netcwmp_xo.Base.Int.{ℤ, pos}
use netcwmp_xo.Event.{Bytes}
use netcwmp_xo.Transfer.{
  TransferArg, Exchange, is_ok, is_ftp, receive_file, send_file, creates_dest, copied_type,
  upload_source, download_file, upload_file,
}

abbrev fault_of : Rc → ℤ
fault_of cwmp_ok = pos 0
fault_of _ = pos 9001

-- A download from a URL that can be read returns a fault code.
pub download_returns :
    (x : Exchange) (arg : TransferArg)
    → creates_dest (arg.url) ≡ true
    → (fault : ℤ) × (download_file x arg ≡ some fault)
unfolding download_file
download_returns x arg h =
    let code = if not (is_ok (receive_file x)) then pos 9001 else pos 0 in
    elim (Bool-cases (is_ftp (arg.url))) [
      | inl ftp ↦ (pos 9001, rw (download_file, ftp) refl)
      | inr other ↦ (code, rw (download_file, other, h) refl)
    ]

-- An upload to such a URL returns a fault code, if its file type has room for the one that is copied.
pub upload_returns :
    (x : Exchange) (arg : TransferArg) (f : Bytes)
    → creates_dest (arg.url) ≡ true
    → arg.filetype ≡ some f
    → copied_type ≤ length f
    → (fault : ℤ) × (upload_file x arg ≡ some fault)
unfolding upload_file upload_source
upload_returns x arg f h e l = (fault_of (send_file x), ground (arith, e, l, h))
