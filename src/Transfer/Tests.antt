-- ===== src/Transfer/Tests.antt =====
-- Transfers at concrete answers of the network, and the theorems at inputs that meet their
-- hypotheses.
use netcwmp_xo.Base.{◌≡◌, refl, true, none, some, codes}
use netcwmp_xo.Base.Int.{pos}
use netcwmp_xo.Transfer.{
  TransferArg, Exchange, ftp, download_file, creates_dest, upload_file, upload_source, send_file,
}
use netcwmp_xo.Dest.{
  parse_url, find_scheme, parse_authority, break_at, port_of, with_document, escape_spaces,
}
use netcwmp_xo.Header.{same_header}
use netcwmp_xo.Param.{same_name}

abbrev all_well : Exchange
all_well = record {
  socket_rc = pos 0;
  connect_rc = pos 0;
  opened = true;
  request_rc = pos 180;
  response_rc = pos 200;
}

abbrev image : TransferArg
image = record {
  cmdkey = none;
  filetype = some (codes "1 Vendor Configuration File");
  url = some (codes "http://h/f");
}

ftp_refused : download_file all_well (record image { url = some ftp }) ≡ some (pos 9001)
unfolding download_file
ftp_refused = refl

-- A download without a URL
no_url : download_file all_well (record image { url = none }) ≡ none
unfolding download_file creates_dest
no_url = refl

-- The file type is written over, beyond its end.
short_type : upload_file all_well (record image { filetype = some (codes "1") }) ≡ none
unfolding upload_file upload_source
short_type = refl

uploaded : upload_file all_well image ≡ some (pos 0)
unfolding upload_file upload_source creates_dest parse_url find_scheme parse_authority break_at
    port_of with_document escape_spaces same_header same_name send_file
uploaded = refl
